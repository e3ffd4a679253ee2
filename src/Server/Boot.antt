-- ===== src/Server/Boot.antt =====
-- `run` of src/server/server.cpp, up to the event loop.
use kirdi.Base.{ℕ, ◌+◌, ◌≡◌, arith, if◌then◌else◌, Bool, codes, [], ◌∷◌, ◌++◌, Option, some}
use kirdi.Base.{tls_failure, socket_failure, false, true}
use kirdi.Network.Firewall.{ensure_system_config}
use kirdi.Server.{Server, do_accept}
use kirdi.Session.{Outcome, returned, escaped, endless}
use kirdi.Session.Gate.{state_of}
use kirdi.Tun.{TunConfig}

-- What the libraries and the kernel answer while `run` starts the server.
pub record Startup : Type 0 where
  -- The certificate chain and the private key can be loaded.
  pub tls_loads : Bool
  -- The TUN device opens.
  pub opens : Bool
  -- The number that /proc/sys/net/ipv4/ip_forward begins with.
  pub ip_forward : Option ℕ
  -- The address is one, and the acceptor can be opened, bound and set to listen.
  pub listens : Bool

-- `loads`: neither file is refused, which would throw.
unfoldable pub setup_tls : Bool → Server → Outcome Server
setup_tls loads s =
    if s.config.tls_enabled
    then if loads
      then returned (record s { tls_files = some (s.config.tls_cert_path, s.config.tls_key_path) })
      else escaped tls_failure s
    else returned s

-- `create_tun_device` and `open` in `run`.
unfoldable pub open_tun : Bool → Server → Server
open_tun opens s = record s { tun = some opens; tun_opened = s.tun_opened ++ (tun_config ∷ []) }
  where
    tun_config : TunConfig
    tun_config = record {
      name = codes "kirdi0";
      address = s.config.tun_server_ip;
      peer_address = [];
      netmask = s.config.tun_mask;
      mtu = s.config.mtu;
    }

-- The commands of `ensure_system_config` and the thread of `tun_read_loop`.
unfoldable pub start_tun : Option ℕ → Server → Server
start_tun ip_forward s = record s {
  commands = ensure_system_config s.machine ip_forward s.commands;
  tun_threads = s.tun_threads + 1;
}

-- The acceptor and the first `do_accept`.
unfoldable pub listen : Bool → Server → Outcome Server
unfolding do_accept
listen listens s =
    if listens
    then returned
        (do_accept (record s { listening = some (s.config.listen_addr, s.config.listen_port) }))
    else escaped socket_failure s

-- `run` behind `setup_tls`. If the TUN device cannot be opened, it returns.
unfoldable pub start : Startup → Server → Outcome Server
unfolding open_tun start_tun listen
start boot s =
    let s' = open_tun boot.opens s in
    if boot.opens then listen boot.listens (start_tun boot.ip_forward s') else returned s'

-- `run`, up to the event loop.
unfoldable pub run : Startup → Server → Outcome Server
unfolding setup_tls start
run boot s = elim (setup_tls boot.tls_loads s) [
  | returned s' ↦ start boot s'
  | escaped e s' ↦ escaped e s'
  | endless s' ↦ endless s'
]

-- What `run` does to the rest of the state does not matter to the tables.
abbrev pub IsQuiet : Server → Server → Type 0
IsQuiet s s' =
    (s'.config ≡ s.config)
    × (s'.sessions ≡ s.sessions)
    × (s'.ip_to_session ≡ s.ip_to_session)
    × (s'.next_session_id ≡ s.next_session_id)
    × (s'.next_client_ip_offset ≡ s.next_client_ip_offset)
    × (s'.tun_written ≡ s.tun_written)

start-IsQuiet : (boot : Startup) (s : Server) → IsQuiet s (state_of (start boot s))
unfolding start open_tun start_tun listen do_accept
start-IsQuiet boot s = ground arith

pub run-IsQuiet : (boot : Startup) (s : Server) → IsQuiet s (state_of (run boot s))
unfolding run setup_tls
run-IsQuiet boot s =
    let loaded : Server = record s {
      tls_files = some (s.config.tls_cert_path, s.config.tls_key_path);
    } in
    ground (arith, start-IsQuiet boot s, start-IsQuiet boot loaded)

-- A server that accepts no connection yet is started, and then accepts one. So its device is open
-- with the configured address, mask and MTU and has its thread; the firewall commands were run; it
-- listens at the configured address and port; and if TLS is on, the configured certificate and key
-- are loaded. The exceptions and the early return of `run` accept nothing.
pub run-accepting :
    (boot : Startup) (s : Server)
    → s.accepting ≡ false
    → (state_of (run boot s)).accepting ≡ true
    → let s' = state_of (run boot s) in
      (run boot s ≡ returned s')
      × (s'.tun ≡ some true)
      × (s'.tun_opened
          ≡ s.tun_opened
            ++ (record {
              name = codes "kirdi0";
              address = s.config.tun_server_ip;
              peer_address = [];
              netmask = s.config.tun_mask;
              mtu = s.config.mtu;
            }
                ∷ []))
      × (s'.tun_threads ≡ s.tun_threads + 1)
      × (s'.commands ≡ ensure_system_config s.machine boot.ip_forward s.commands)
      × (s'.listening ≡ some (s.config.listen_addr, s.config.listen_port))
      × (s'.tls_files ≡ (
          if s.config.tls_enabled
          then some (s.config.tls_cert_path, s.config.tls_key_path)
          else s.tls_files))
unfolding run setup_tls start open_tun start_tun listen do_accept
run-accepting boot s quiet accepts = ground arith
