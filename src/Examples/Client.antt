-- ===== src/Examples/Client.antt =====
-- Examples for src/client/client.cpp.
use kirdi.Base.{◌+◌, ◌≤◌, ◌≡◌, ◌≢◌, refl, arith, true, false, Bytes, codes, [], ◌∷◌, ◌++◌, some}
use kirdi.Base.{length, ok}
use kirdi.Client.{Client, new_client, run, connect_transport, configure_network, on_error, stop}
use kirdi.Client.Attempt.{IsConnecting, connect_step-IsConnecting}
use kirdi.Client.EndToEnd.{handshake, greeted}
use kirdi.Client.Handshake.{device_of}
use kirdi.Client.Invariant.{History, Step}
use kirdi.Client.Messages.{on_connected, on_packet, auth_request, connect_step, auth_json}
use kirdi.Client.Messages.{open_tunnel}
use kirdi.Client.Reconnect.{IsFlat, History-IsFlat}
use kirdi.Client.Routes.{open_tunnel-undone}
use kirdi.Config.{ClientConfig, default_client_config}
use kirdi.Crypto.{hex_encode, build_auth_token, hmac_sha256, auth_message}
use kirdi.Examples.{hmac, hmac-HmacWorks, json, json-JsonLaws, entries}
use kirdi.Examples.Network.{laptop, always, iface, server_ip, gateway, dns_server, table}
use kirdi.Examples.Network.{table_empty, laptop-RouteLaws}
use kirdi.Examples.Session.{joined, secret, moment}
use kirdi.Network.{low_half, high_half}
use kirdi.Network.Table.{server_route}
use kirdi.Protocol.{MsgType, zeros, max_payload}
use kirdi.Protocol.Packet.{packet_bytes}
use kirdi.Session.{Link, returned, on_read, auth_response}
use kirdi.Transport.{dispatch_packet}
use kirdi.Transport.ClientTransport.{WsClientTransport, connect, construct, idle, just_connected}
use kirdi.Transport.ClientTransport.{do_resolve}
use kirdi.Transport.ServerSession.Order.{contents}
use kirdi.Tun.{TunConfig}
use kirdi.Transport.ServerSession

abbrev config : ClientConfig
config = record default_client_config { auth_user = codes "alice"; auth_token = secret }

abbrev client : Client
client = new_client laptop config

abbrev pub request : Bytes
request = auth_json json hmac config (hex_encode (48 ∷ zeros 31)) moment

abbrev answer : Bytes
answer = auth_response json hmac 62 0 true joined.client

request_built : auth_request json hmac (new_client laptop config).config moment ≡ ok request
unfolding auth_request build_auth_token hmac_sha256 auth_message hmac new_client
request_built = refl

request_fits : length request ≤ max_payload
unfolding auth_json entries hex_encode zeros
request_fits = omega arith

answer_fits : length answer ≤ max_payload
unfolding auth_response entries
answer_fits = omega arith

joined_ready : (joined.ws.connected ≡ true) × (joined.ws.has_packet_callback ≡ true)
unfolding ServerSession.start ServerSession.on_packet ServerSession.construct
joined_ready = (refl, refl)

answer_written :
    json.dump (auth_response json hmac 62 0 true (record (joined.client) { authenticated = true }))
    ≡ some answer
unfolding auth_response
answer_written = refl

-- The server's clock is at the epoch's start.
handshake_example :
    (on_connected json hmac moment client ≡ returned (greeted request client))
    × ((l' : Link) × (on_read json hmac 62 0 (packet_bytes MsgType.auth_request request) joined
          ≡ returned l')
        × (l'.client ≡ record (joined.client) { authenticated = true })
        × (l'.ws.connected ≡ true)
        × (contents l'.ws ≡ contents joined.ws ++ (packet_bytes MsgType.auth_response answer ∷ [])))
    × (dispatch_packet true (packet_bytes MsgType.auth_response answer)
        ≡ some (record { type = MsgType.auth_response; length = length answer }, answer))
    × (on_packet json hmac true
          (record { type = MsgType.auth_response; length = length answer })
          answer
          client
        ≡ returned (record client {
          virtual_ip = joined.client.virtual_ip;
          tun = some true;
          tun_opened = client.tun_opened ++ (device_of joined.client ∷ []);
          commands = configure_network (client.tun_opened ++ (device_of joined.client ∷ [])) client;
          tun_threads = client.tun_threads + 1;
        }))
unfolding new_client
handshake_example =
    handshake json json-JsonLaws hmac 62 moment 0 client client joined request answer hmac-HmacWorks
      (omega arith) refl (omega arith) (omega arith) refl (omega arith) joined_ready.0
      joined_ready.1 request_built request_fits answer_written answer_fits

History-IsFlat_example : IsFlat (on_error (run client))
History-IsFlat_example =
    History-IsFlat json hmac laptop config
      (History.followed Step.reported (History.ran History.begun))

-- A client that resolves again, and fails to.
abbrev lonely : Client
lonely = connect_transport (record client { running = true })

abbrev resolving : WsClientTransport
resolving = connect config.server_host config.server_port config.ws_path construct

lonely-IsConnecting : IsConnecting lonely resolving
unfolding connect_transport new_client connect construct do_resolve
lonely-IsConnecting = record {
  transport = refl;
  attempt = record {
    off = refl;
    not_closing = refl;
    unread = refl;
    unwritten = refl;
    unposted = refl;
  };
  disconnected = refl;
  no_timer = refl;
}

resolving_busy : resolving.stage ≢ idle
unfolding connect construct do_resolve
resolving_busy e = cc

resolving_fails : just_connected resolving.stage true ≡ false
unfolding connect construct do_resolve just_connected
resolving_fails = refl

connect_step-IsConnecting_example :
    (c' : Client) × (w' : WsClientTransport) × (connect_step json hmac 0 true true lonely
      ≡ returned c')
    × (IsConnecting c' w')
    × (c'.running ≡ lonely.running)
    × (c'.delays ≡ lonely.delays)
    × (true ≡ true → w'.stage ≡ idle)
    × (true ≡ false → true ≡ true → w'.stage ≢ idle)
connect_step-IsConnecting_example =
    connect_step-IsConnecting json hmac 0 true true lonely resolving lonely-IsConnecting
      resolving_busy resolving_fails

-- A client in its tunnel.
abbrev tunnelled : Client
tunnelled = record client {
  config = record config { auto_route = true; dns_server = dns_server };
  ws = some (record construct { connected = true });
  tun = some true;
  running = true;
  connected = true;
  server_ip = server_ip;
  original_gateway = gateway;
}

abbrev tun_config : TunConfig
tun_config = device_of joined.client

open_tunnel-undone_example :
    (table (stop (open_tunnel json hmac true tun_config tunnelled)).commands low_half
      ≡ table [] low_half)
    × (table (on_error (open_tunnel json hmac true tun_config tunnelled)).commands low_half
        ≡ table [] low_half)
unfolding new_client
open_tunnel-undone_example =
    open_tunnel-undone json hmac table always tun_config tunnelled low_half
      (laptop-RouteLaws iface dns_server) refl refl refl refl (table_empty low_half)
      (table_empty high_half) (table_empty (server_route server_ip))
      (record { low = λ done e. refl; high = λ done e. refl; exclusion = λ done e. refl })
