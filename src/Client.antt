-- ===== src/Client.antt =====
-- src/client/client.cpp: the client. Its handlers run on the thread of the io_context, and
-- `tun_read_loop` on a thread of its own; each handler and each round of the loop is one step.
pub mod Messages
pub mod Handshake
pub mod EndToEnd
pub mod Reconnect
pub mod Attempt
pub mod Stopping
pub mod Carriage
pub mod Routes
pub mod Dns
pub mod Kept
pub mod Outgoing
pub mod Invariant
pub mod NoLoop
use kirdi.Base.{ℕ, ◌+◌, ◌-◌, ◌*◌, ◌%◌, ◌^◌, min, if◌then◌else◌, ◌&&◌, ◌||◌, not, Bool, true, false}
use kirdi.Base.{Bytes, Text, codes, is_empty, List, [], ◌∷◌, ◌++◌, Option, none, some, Result, ok}
use kirdi.Base.{thrown, or_throw, ◌>>=◌, json_failure, Exception}
use kirdi.Config.{ClientConfig}
use kirdi.Crypto.{build_auth_token}
use kirdi.Json.{JsonLib, value}
use kirdi.Network.{Machine, resolve_host, get_default_gateway, setup_routes, teardown_routes}
use kirdi.Network.{setup_dns, teardown_dns}
use kirdi.Protocol.{MsgType, PacketHeader, build_packet, build_keepalive, build_ip_packet}
use kirdi.Server.Device.{TunPoll}
use kirdi.Session.{Outcome, returned, escaped, endless}
use kirdi.Transport.{dispatch_packet}
use kirdi.Transport.ClientTransport.{WsClientTransport}
use kirdi.Tun.{TunConfig}
use kirdi.Transport.ClientTransport

pub record Client : Type 0 where
  -- The machine it runs on.
  pub machine : Machine
  pub config : ClientConfig
  pub ws : Option WsClientTransport
  -- `tun_`: none if it is null, else whether the device is open.
  pub tun : Option Bool
  -- The configurations the devices were opened with, and the packets given to `write_packet`.
  pub tun_opened : List TunConfig
  pub tun_written : List Bytes
  pub tun_threads : ℕ
  -- The shell commands that were run, in order.
  pub commands : List Text
  pub running : Bool
  pub connected : Bool
  pub virtual_ip : Text
  pub server_ip : Text
  pub original_gateway : Text
  pub reconnect_attempt : ℕ
  -- The seconds of each reconnect timer that was started, and how many timers have not expired.
  pub delays : List ℕ
  pub waiting : ℕ
  pub ioc_stopped : Bool

unfoldable pub new_client : Machine → ClientConfig → Client
new_client machine config = record {
  machine = machine;
  config = config;
  ws = none;
  tun = none;
  tun_opened = [];
  tun_written = [];
  tun_threads = 0;
  commands = [];
  running = false;
  connected = false;
  virtual_ip = [];
  server_ip = [];
  original_gateway = [];
  reconnect_attempt = 0;
  delays = [];
  waiting = 0;
  ioc_stopped = false;
}

-- A new transport that connects to the configured server.
unfoldable pub connect_transport : Client → Client
connect_transport c = record c {
  ws = some (
      ClientTransport.connect c.config.server_host c.config.server_port c.config.ws_path
        ClientTransport.construct);
}

-- `run`, up to the event loop.
unfoldable pub run : Client → Client
unfolding connect_transport
run c = connect_transport (record c {
  running = true;
  server_ip = resolve_host c.machine c.config.server_host;
  original_gateway = get_default_gateway c.machine;
})

-- `if (config_.auto_route) { setup_routes(); setup_dns(); }`, with a device opened for each of the
-- configurations.
unfoldable pub configure_network : List TunConfig → Client → List Text
configure_network devices c =
    if c.config.auto_route
    then setup_dns c.machine c.config.dns_server (
        setup_routes c.machine (c.machine.interface_name devices) c.server_ip c.original_gateway
          c.commands)
    else c.commands

-- `teardown_dns(); teardown_routes();`
unfoldable pub restore_network : Client → List Text
restore_network c =
    teardown_routes c.machine c.config.auto_route c.server_ip
      (teardown_dns c.machine c.config.dns_server c.commands)

unfoldable pub close_tun : Option Bool → Option Bool
close_tun none = none
close_tun (some is_open) = some false

unfoldable pub close_ws : Option WsClientTransport → Option WsClientTransport
close_ws none = none
close_ws (some w) = some (ClientTransport.close w)

unfoldable pub stop : Client → Client
unfolding close_tun close_ws restore_network
stop c =
    if c.running
    then record c {
      running = false;
      ws = close_ws c.ws;
      ioc_stopped = true;
      commands = restore_network c;
      tun = close_tun c.tun;
    }
    else c

-- `1u << min(attempt - 1, 5u)`, at most 60, for the attempt just counted.
unfoldable pub reconnect_delay : ℕ → ℕ
reconnect_delay attempt = min (2 ^ min ((attempt + 2 ^ 32 - 1) % 2 ^ 32) 5) 60

unfoldable pub schedule_reconnect : Client → Client
unfolding reconnect_delay
schedule_reconnect c =
    let attempt = (c.reconnect_attempt + 1) % 2 ^ 32 in
    record c {
      reconnect_attempt = attempt;
      delays = c.delays ++ (reconnect_delay attempt ∷ []);
      waiting = c.waiting + 1;
    }

unfoldable pub on_error : Client → Client
unfolding schedule_reconnect restore_network
on_error c =
    let down : Client = record c { connected = false; commands = restore_network c; tun = none } in
    if c.connected then if c.running then schedule_reconnect down else down else c

-- A reconnect timer expires; `cancelled`: the error code is set.
unfoldable pub on_timer : Bool → Client → Client
unfolding connect_transport
on_timer cancelled c =
    let rest : Client = record c { waiting = c.waiting - 1 } in
    if cancelled || not c.running then rest else connect_transport rest

-- `ws_->send(…)` of a packet that may not be built; a null pointer is no case: the callers run after
-- `run`.
unfoldable pub send : Bytes → Client → Client
send pkt c = elim c.ws [ none ↦ c | some w ↦ record c { ws = some (ClientTransport.send pkt w) } ]

unfoldable pub send_built : Result Bytes → Client → Outcome Client
unfolding send
send_built (ok pkt) c = returned (send pkt c)
send_built (thrown e) c = escaped e c

-- `ws_ && ws_->is_connected()`
unfoldable pub ws_is_connected : Client → Bool
ws_is_connected c = elim c.ws [ none ↦ false | some w ↦ w.connected ]

unfoldable pub tun_is_open : Client → Bool
tun_is_open c = elim c.tun [ some true ↦ true | _ ↦ false ]

-- A round of `tun_read_loop` and the test before it; an exception ends the thread.
unfoldable pub tun_round : TunPoll → Client → Outcome Client
unfolding send ws_is_connected tun_is_open
tun_round TunPoll.quiet c = returned c
tun_round TunPoll.failed c = returned c
tun_round (TunPoll.readable bytes) c =
    if c.running && tun_is_open c && not (is_empty bytes)
    then elim (build_ip_packet bytes) [
      | thrown e ↦ escaped e c
      | ok pkt ↦ returned (if ws_is_connected c then send pkt c else c)
    ]
    else returned c

unfoldable pub write_tun : Bytes → Client → Client
unfolding tun_is_open
write_tun packet c =
    if tun_is_open c then record c { tun_written = c.tun_written ++ (packet ∷ []) } else c

-- A handler of the transport has ended, and called `on_error_` or not.
unfoldable pub called_back : WsClientTransport × Bool → Client → Client
unfolding on_error
called_back (w, true) c = on_error (record c { ws = some w })
called_back (w, false) c = record c { ws = some w }

-- The transport's read fails, or its write ends.
unfoldable pub on_read_failed : Client → Client
unfolding called_back
on_read_failed c = elim c.ws [ none ↦ c | some w ↦ called_back (ClientTransport.read_failed w) c ]

unfoldable pub on_write : Bool → Client → Client
unfolding called_back
on_write failed c = elim c.ws [
  | none ↦ c
  | some w ↦ called_back (ClientTransport.on_write failed w) c
]

unfoldable pub run_posted : Client → Client
run_posted c = elim c.ws [
  | none ↦ c
  | some w ↦ record c { ws = some (ClientTransport.run_posted w) }
]

-- `do_read` behind a callback that returned.
unfoldable pub read_again : Outcome Client → Outcome Client
read_again (returned c) =
    returned (elim c.ws [ none ↦ c | some w ↦ record c { ws = some (ClientTransport.do_read w) } ])
read_again (escaped e c) = escaped e c
read_again (endless c) = endless c
