-- ===== src/Examples/Programs.antt =====
-- Examples for src/client/main.cpp.
use kirdi.Base.{some, true, ◌≡◌, refl, arith, [], none, codes, same_bytes, false}
use kirdi.Client.{Client, new_client, run, stop, on_error}
use kirdi.Config.{ClientConfig, default_client_config}
use kirdi.Examples.{json}
use kirdi.Examples.Network.{laptop}
use kirdi.Logger.{Logger, LogLevel}
use kirdi.Programs.{level_of}
use kirdi.Programs.ClientMain.{main, runs}
use kirdi.Programs.ClientOptions.{options_of, configured, main-options_of}
use kirdi.Programs.Signals.{Process, signal_handler}

abbrev logger : Logger
logger = record { level = LogLevel.info; written = [] }

-- A token that looks like an option.
abbrev wanted : ClientConfig
wanted = record default_client_config {
  server_host = codes "vpn.example.org";
  server_port = 8443;
  auth_token = codes "--help";
  auto_route = false;
  log_level = codes "debug";
}

main-options_of_example :
    main json (λ path. none) logger (options_of wanted)
    ≡ runs (record logger { level = LogLevel.debug }) (configured wanted)
unfolding level_of same_bytes
main-options_of_example = main-options_of json (λ path. none) logger wanted refl refl (omega arith)

abbrev serving : Client
serving = run (new_client laptop wanted)

-- An error is reported to the client behind the signal, and a second signal comes.
abbrev interrupted : Process
interrupted = signal_handler (record { shutdown = true; client = some (on_error (stop serving)) })
