-- ===== src/Examples/Server.antt =====
-- Examples for src/server/server.cpp.
use kirdi.Base.{ℕ, ◌+◌, ◌^◌, ◌<◌, ◌≡◌, ◌≢◌, ◌⊎◌, refl, arith, true, false, Bytes, [], ◌∷◌, ◌++◌}
use kirdi.Base.{Option, some, length, codes}
use kirdi.Base.Maps.{lookup, insert}
use kirdi.Config.{ServerConfig, default_server_config}
use kirdi.Examples.{hmac, json, inet, inet-InetLaws}
use kirdi.Examples.Network.{laptop}
use kirdi.Examples.Session.{secret}
use kirdi.Inet.{ntohl, htonl}
use kirdi.Network.Firewall.{ensure_system_config}
use kirdi.Protocol.{MsgType, ip4_dst, zeros, little}
use kirdi.Protocol.Packet.{packet_bytes}
use kirdi.Server.{Server, Handshake, new_server, on_accept, on_handshake, parse_address}
use kirdi.Server.{register_session}
use kirdi.Server.Address.{address}
use kirdi.Server.Boot.{Startup, run, run-accepting, setup_tls, start, open_tun, start_tun, listen}
use kirdi.Server.Device.{tun_round, readable}
use kirdi.Server.History.{History, History-IsGood}
use kirdi.Server.Invariant.{IsValid, stored-IsValid}
use kirdi.Server.Kept.{Picks, IsGood, listed}
use kirdi.Server.Routing.{IsRouted, sent_to, tun_round-delivers, tun_round-isolated}
use kirdi.Server.Steps.{stored}
use kirdi.Session.{Link, returned}
use kirdi.Session.Gate.{state_of}
use kirdi.Transport.{dispatch_packet}
use kirdi.Session
use kirdi.Transport.ServerSession

-- The subnet 10.8.0.0, as the address functions of the examples read it.
abbrev pub config : ServerConfig
config = record default_server_config { auth_secret = secret; tun_subnet = 2058 ∷ [] }

-- Everything works when the server starts.
abbrev startup : Startup
startup = record { tls_loads = true; opens = true; ip_forward = some 1; listens = true }

abbrev server_up : Server
server_up = state_of (run startup (new_server laptop config))

abbrev pub server_accepted : Server
server_accepted = (on_accept inet false server_up).0

-- The first connection: session 1 with the address 10.8.0.2.
abbrev pub first_client : Handshake
first_client = record { sid = 1; client_ip = 33556490 ∷ []; secure = true }

abbrev pub server_joined : Server
server_joined = (on_handshake inet false first_client server_accepted).0

first_client-Picks : Picks (listed (on_accept inet false server_up).1 ++ []) first_client []
unfolding on_accept run setup_tls start open_tun start_tun listen new_server htonl ntohl
first_client-Picks = Picks.first

small_count : server_up.next_session_id + 3 < 2 ^ 32
unfolding run setup_tls start open_tun start_tun listen new_server
small_count = omega arith

module _ (mac : Bytes → Bytes → Option Bytes) where
  pub joined-History :
      History inet json mac 62 config server_joined
        (listed (on_handshake inet false first_client server_accepted).1 ++ [])
  joined-History =
      History.shook false first_client [] first_client-Picks
        (History.accepted false small_count (History.ran startup (History.begun laptop)))

History-IsGood_example :
    IsGood inet config server_joined
      (listed (on_handshake inet false first_client server_accepted).1 ++ [])
History-IsGood_example = History-IsGood inet json hmac 62 config inet-InetLaws (joined-History hmac)

joined-IsValid : IsValid inet server_joined
joined-IsValid = (History-IsGood inet json hmac 62 config inet-InetLaws (joined-History hmac)).valid

-- The session as it was registered, and once it is authenticated.
abbrev first_link : Link
first_link = record {
  ws = ServerSession.start (ServerSession.on_packet (ServerSession.construct 1));
  client = record {
    id = 1;
    virtual_ip = 33556490 ∷ [];
    virtual_ip_n = some 33556490;
    authenticated = false;
    has_ip_callback = true;
    tun_info = record {
      server_ip = config.tun_server_ip;
      mask = config.tun_mask;
      mtu = config.mtu;
    };
    auth_secret = secret;
  };
  passed = [];
}

first_found : lookup 1 server_joined.sessions ≡ some first_link
unfolding on_handshake on_accept run setup_tls start open_tun start_tun listen new_server
    register_session lookup insert Session.start Session.new_session
first_found = refl

abbrev pub admitted : Link
admitted = record first_link { client = record (first_link.client) { authenticated = true } }

abbrev pub server_admitted : Server
server_admitted = stored 1 admitted server_joined

pub admitted-IsValid : IsValid inet server_admitted
admitted-IsValid =
    stored-IsValid inet 1 first_link admitted true server_joined joined-IsValid first_found refl

pub admitted_found : lookup 1 server_admitted.sessions ≡ some admitted
unfolding on_handshake on_accept run setup_tls start open_tun start_tun listen new_server
    register_session lookup insert
admitted_found = refl

-- An IPv4 header to 10.8.0.2.
abbrev pub ip_packet : Bytes
ip_packet = zeros 16 ++ (10 ∷ (8 ∷ (0 ∷ (2 ∷ []))))

pub ip_packet_dst : ip4_dst little ip_packet ≡ address inet server_admitted.config 2
unfolding ip4_dst zeros on_handshake on_accept run setup_tls start open_tun start_tun listen
    new_server register_session ntohl htonl parse_address
ip_packet_dst = refl

admitted_connected : admitted.ws.connected ≡ true
unfolding ServerSession.start ServerSession.on_packet ServerSession.construct
admitted_connected = refl

tun_round-delivers_example :
    (s' : Server) × (tun_round little (readable ip_packet) server_admitted ≡ returned s')
    × (lookup 1 s'.sessions ≡ some (sent_to inet ip_packet 1 admitted server_admitted))
    × ((sent_to inet ip_packet 1 admitted server_admitted).ws.write_queue
        ≡ admitted.ws.write_queue ++ (packet_bytes MsgType.ip_packet ip_packet ∷ []))
    × ((sent_to inet ip_packet 1 admitted server_admitted).ws.writing ≡ true)
    × ((k : ℕ) → k ≢ 1 → lookup k s'.sessions ≡ lookup k server_admitted.sessions)
    × (s'.tun_written ≡ server_admitted.tun_written)
    × (dispatch_packet true (packet_bytes MsgType.ip_packet ip_packet)
        ≡ some (record { type = MsgType.ip_packet; length = length ip_packet }, ip_packet))
unfolding zeros
tun_round-delivers_example =
    tun_round-delivers inet ip_packet 1 admitted server_admitted admitted-IsValid admitted_found
      refl admitted_connected ip_packet_dst (omega arith) (omega arith)

tun_round-isolated_example :
    (l' : Link) × (lookup 1
        (state_of (tun_round little (readable ip_packet) server_admitted)).sessions
      ≡ some l')
    × ((l' ≡ admitted) ⊎ IsRouted inet (readable ip_packet) server_admitted 1 admitted l')
tun_round-isolated_example =
    tun_round-isolated inet (readable ip_packet) 1 admitted server_admitted admitted-IsValid
      admitted_found

-- The same server, without a proxy in front.
abbrev secure_config : ServerConfig
secure_config = record config {
  tls_enabled = true;
  tls_cert_path = codes "cert.pem";
  tls_key_path = codes "key.pem";
}

abbrev secure_up : Server
secure_up = state_of (run startup (new_server laptop secure_config))

run-accepting_example :
    (run startup (new_server laptop secure_config) ≡ returned secure_up)
    × (secure_up.tun ≡ some true)
    × (secure_up.tun_opened
        ≡ record {
          name = codes "kirdi0";
          address = secure_config.tun_server_ip;
          peer_address = [];
          netmask = secure_config.tun_mask;
          mtu = secure_config.mtu;
        }
          ∷ [])
    × (secure_up.tun_threads ≡ 1)
    × (secure_up.commands ≡ ensure_system_config laptop (some 1) [])
    × (secure_up.listening ≡ some (secure_config.listen_addr, secure_config.listen_port))
    × (secure_up.tls_files ≡ some (secure_config.tls_cert_path, secure_config.tls_key_path))
unfolding run setup_tls start open_tun start_tun listen new_server
run-accepting_example = run-accepting startup (new_server laptop secure_config) refl refl

pub admitted_open : server_admitted.tun ≡ some true
unfolding on_handshake on_accept run setup_tls start open_tun start_tun listen new_server
    register_session
admitted_open = refl
