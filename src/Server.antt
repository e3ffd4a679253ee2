-- ===== src/Server.antt =====
-- src/server/server.cpp: the server's state, and its handlers as steps. What runs under the mutex
-- or on a connection's strand is one step.
pub mod Address
pub mod Boot
pub mod Device
pub mod Capacity
pub mod Invariant
pub mod Steps
pub mod Outgoing
pub mod Kept
pub mod History
pub mod Routing
pub mod Earned
pub mod Tunnel
use kirdi.Base.{ℕ, ◌+◌, ◌*◌, ◌%◌, ◌^◌, ltb, ◌==◌, if◌then◌else◌, Bool, true, false, Bytes, Text}
use kirdi.Base.{length, is_empty, List, [], ◌∷◌, ◌++◌, map, Option, none, some, Exception}
use kirdi.Base.Maps.{lookup, insert}
use kirdi.Config.{ServerConfig}
use kirdi.Inet.{Inet, ntohl, htonl}
use kirdi.Json.{JsonLib}
use kirdi.Network.{Machine}
use kirdi.Protocol.{Endian, ip4_dst}
use kirdi.Session.{Link, ClientSession, Outcome, returned, escaped, endless, new_session}
use kirdi.Session.{send_ip_packet, on_read}
use kirdi.Transport.ServerSession.{WsServerSession, construct}
use kirdi.Tun.{TunConfig}
use kirdi.Session
use kirdi.Transport.ServerSession

-- A connection between `on_accept` and `register_session`. `secure`: its TLS handshake is done, or
-- there is none to do.
pub record Handshake : Type 0 where
  pub sid : ℕ
  pub client_ip : Text
  pub secure : Bool

pub record Server : Type 0 where
  -- The machine it runs on.
  pub machine : Machine
  pub config : ServerConfig
  -- The certificate and the key that `ssl_ctx_` has.
  pub tls_files : Option (Text × Text)
  -- The shell commands that were run, in order.
  pub commands : List Text
  -- `tun_`: none before `run`, else whether the device is open.
  pub tun : Option Bool
  -- The configurations the devices were opened with, and the packets given to `write_packet`.
  pub tun_opened : List TunConfig
  pub tun_written : List Bytes
  pub tun_threads : ℕ
  -- The address and the port of the acceptor.
  pub listening : Option (Text × ℕ)
  pub sessions : List (ℕ × Link)
  pub ip_to_session : List (ℕ × ℕ)
  pub next_session_id : ℕ
  pub next_client_ip_offset : ℕ
  pub accepting : Bool
  pub stopped : Bool

unfoldable pub new_server : Machine → ServerConfig → Server
new_server machine config = record {
  machine = machine;
  config = config;
  tls_files = none;
  commands = [];
  tun = none;
  tun_opened = [];
  tun_written = [];
  tun_threads = 0;
  listening = none;
  sessions = [];
  ip_to_session = [];
  next_session_id = 1;
  next_client_ip_offset = 2;
  accepting = false;
  stopped = false;
}

-- `struct in_addr addr{}; inet_pton(AF_INET, text, &addr);`
unfoldable pub parse_address : Inet → Text → ℕ
parse_address inet text = elim (inet.inet_pton text) [ none ↦ 0 | some addr ↦ addr ]

unfoldable pub do_accept : Server → Server
do_accept s = record s { accepting = true }

-- `fetch_add(1)` on the uint32_t counter, and the address at that offset in the subnet.
unfoldable pub allocate_client_ip : Inet → Server → Text × Server
unfolding parse_address
allocate_client_ip inet s =
    let offset = s.next_client_ip_offset in
    let base = parse_address inet s.config.tun_subnet in
    let ip_host = (ntohl inet.endian base + offset) % 2 ^ 32 in
    (
      inet.inet_ntop (htonl inet.endian ip_host),
      record s { next_client_ip_offset = (offset + 1) % 2 ^ 32 },
    )

-- `on_accept`; `failed`: the error code is set. A handshake that begins is the second result.
unfoldable pub on_accept : Inet → Bool → Server → Server × Option Handshake
unfolding allocate_client_ip do_accept
on_accept inet true s = (do_accept s, none)
on_accept inet false s =
    let s1 : Server = record s { next_session_id = (s.next_session_id + 1) % 2 ^ 32 } in
    let (client_ip, s2) = allocate_client_ip inet s1 in
    (
      do_accept s2,
      some (record {
        sid = s.next_session_id;
        client_ip = client_ip;
        secure = if s.config.tls_enabled then false else true;
      }),
    )

unfoldable pub register_session : Inet → ℕ → Text → Server → Server
unfolding parse_address
register_session inet sid client_ip s = record s {
  sessions = insert sid (Session.start link) s.sessions;
  ip_to_session = insert (parse_address inet client_ip) sid s.ip_to_session;
}
  where
    fresh : ClientSession
    fresh = new_session inet.inet_pton sid client_ip

    link : Link
    link = record {
      ws = construct sid;
      client = record fresh {
        tun_info = record {
          server_ip = s.config.tun_server_ip;
          mask = s.config.tun_mask;
          mtu = s.config.mtu;
        };
        auth_secret = s.config.auth_secret;
        has_ip_callback = true;
      };
      passed = [];
    }

-- The end of one stage of a handshake: TLS, then WebSocket. A failure drops the connection.
unfoldable pub on_handshake : Inet → Bool → Handshake → Server → Server × Option Handshake
unfolding register_session
on_handshake inet true h s = (s, none)
on_handshake inet false h s =
    if h.secure
    then (register_session inet h.sid h.client_ip s, none)
    else (s, some (record h { secure = true }))

-- The callback that `register_session` sets, on the packets that one message passes on.
unfoldable pub write_tun : List (ℕ × Bytes) → Server → Server
write_tun packets s = elim s.tun [
  | some true ↦ record s { tun_written = s.tun_written ++ map (λ p. p.1) packets }
  | _ ↦ s
]

-- A session after its callbacks have run.
unfoldable pub store : ℕ → Link → Server → Server
unfolding write_tun
store sid l s =
    write_tun l.passed (record s { sessions = insert sid (record l { passed = [] }) s.sessions })

unfoldable pub store_outcome : ℕ → Server → Outcome Link → Outcome Server
unfolding store
store_outcome sid s (returned l) = returned (store sid l s)
store_outcome sid s (escaped e l) = escaped e (store sid l s)
store_outcome sid s (endless l) = endless (store sid l s)

-- A message of session `sid` has been read.
unfoldable pub session_read :
    (j : JsonLib) (hmac : Bytes → Bytes → Option Bytes)
    → ℕ
    → ℕ
    → ℕ
    → Bytes
    → Server
    → Outcome Server
unfolding store_outcome
session_read j hmac fuel now sid buf s = elim (lookup sid s.sessions) [
  | none ↦ returned s
  | some l ↦ store_outcome sid s (on_read j hmac fuel now buf l)
]

-- What the executor and the stream do to a transport without calling anything back: a posted task
-- runs, a write ends, a read fails.
pub data TransportEvent : Type 0 where
  task : TransportEvent
  write_ends : Bool → TransportEvent
  read_fails : TransportEvent

unfoldable pub transport_event : TransportEvent → WsServerSession → WsServerSession
transport_event task w = ServerSession.run_posted w
transport_event (write_ends failed) w = ServerSession.complete_write failed w
transport_event read_fails w = ServerSession.read_failed w

unfoldable pub session_event : TransportEvent → ℕ → Server → Server
session_event event sid s = elim (lookup sid s.sessions) [
  | none ↦ s
  | some l ↦ record s {
    sessions = insert sid (record l { ws = transport_event event l.ws }) s.sessions;
  }
]

unfoldable pub close_tun : Option Bool → Option Bool
close_tun none = none
close_tun (some is_open) = some false

unfoldable pub stop : Server → Server
unfolding close_tun
stop s = record s { stopped = true; tun = close_tun s.tun }
