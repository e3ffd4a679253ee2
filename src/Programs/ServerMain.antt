-- ===== src/Programs/ServerMain.antt =====
-- src/server/main.cpp.
use kirdi.Base.{◌||◌, if◌then◌else◌, Bytes, Text, codes, List, [], ◌∷◌, Option, ok, thrown}
use kirdi.Base.{same_bytes}
use kirdi.Config.{ServerConfig, default_server_config}
use kirdi.Config.ServerJson.{parse_server_config}
use kirdi.Json.{JsonLib}
use kirdi.Logger.{Logger}
use kirdi.Network.{Machine}
use kirdi.Programs.{level_of}
use kirdi.Server.{Server, new_server}
use kirdi.Server.Boot.{Startup, run}
use kirdi.Session.{Outcome}

-- How the program ends: it printed its usage, or what became of the server that it ran. An
-- exception that leaves `run` is caught nowhere.
pub data Ended : Type 0 where
  usage : Ended
  ran : Logger → Outcome Server → Ended

-- `args`: the arguments behind the program's name. `read_file`: what a file holds.
module _ (j : JsonLib) (read_file : Text → Option Bytes) where
  unfoldable pub config_of : Text → ServerConfig
  config_of path = elim (parse_server_config j (read_file path)) [
    | ok config ↦ config
    | thrown e ↦ record default_server_config { auth_secret = codes "CHANGE_ME" }
  ]

  unfoldable pub run_with : Machine → Startup → Logger → Text → Ended
  unfolding config_of level_of
  run_with m boot logger path =
      let config = config_of path in
      ran (record logger { level = level_of config.log_level logger.level })
        (run boot (new_server m config))

  unfoldable pub main : Machine → Startup → Logger → List Text → Ended
  unfolding run_with same_bytes
  main m boot logger [] = run_with m boot logger (codes "/etc/kirdi/server.json")
  main m boot logger (path ∷ rest) =
      if same_bytes path (codes "--help") || same_bytes path (codes "-h")
      then usage
      else run_with m boot logger path
