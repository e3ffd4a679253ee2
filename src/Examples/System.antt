-- ===== src/Examples/System.antt =====
-- An example of a client of src/client/client.cpp and a server of src/server/server.cpp: the client
-- is admitted, and a packet crosses to the server.
use kirdi.Base.{◌≡◌, refl, ◌∙◌, sym, ap, true, false, Bytes, [], ◌∷◌, ◌++◌, some, codes, ℕ, List}
use kirdi.Client.{Client, new_client, tun_round, run_posted, on_write}
use kirdi.Client.Messages.{connect_step, auth_json}
use kirdi.Config.{default_client_config, default_server_config}
use kirdi.Crypto.{hex_encode}
use kirdi.Examples.{hmac, json, inet, find, entries}
use kirdi.Examples.Network.{laptop}
use kirdi.Protocol.{MsgType, zeros}
use kirdi.Protocol.Packet.{packet_bytes}
use kirdi.Server.{Server, new_server, register_session, session_read}
use kirdi.Server.Device.{TunPoll}
use kirdi.Session.{Outcome, returned}
use kirdi.Session.Gate.{state_of}
use kirdi.System.{unused, ClientStep, Life}
use kirdi.System.InOrder.{Life-InOrder}
use kirdi.Transport.ClientTransport.{WsClientTransport, ws_handshake, construct, idle}
use mathlib.Core.List.{Sublist}

abbrev moment : ℕ
moment = 1700000000

-- A packet to 10.8.0.1.
abbrev packet : Bytes
packet = 69 ∷ 0 ∷ 0 ∷ 20 ∷ []

-- The last handshake of a connection of a client whose device is open.
abbrev handshaking : WsClientTransport
handshaking = record construct { has_stream = true; stage = ws_handshake }

abbrev joining : Client
joining = record (new_client laptop default_client_config) {
  ws = some handshaking;
  tun = some true;
  running = true;
}

abbrev server : Server
server = record (new_server laptop default_server_config) { tun = some true }

abbrev registered : Server
registered = register_session inet 1 (7 ∷ []) server

abbrev joined : Client
joined = state_of (connect_step json hmac moment false true joining)

abbrev greeted : Client
greeted = on_write false (run_posted joined)

abbrev hello : Bytes
hello =
    packet_bytes MsgType.auth_request
      (auth_json json hmac default_client_config (hex_encode (48 ∷ zeros 31)) moment)

abbrev admitted : Server
admitted = state_of (session_read json hmac 62 0 1 hello registered)

abbrev sending : Client
sending = state_of (tun_round (TunPoll.readable packet) greeted)

abbrev sent : Client
sent = on_write false (run_posted sending)

abbrev received : Server
received = state_of (session_read json hmac 62 0 1 (packet_bytes MsgType.ip_packet packet) admitted)

joined_next : connect_step json hmac moment false true joining ≡ returned joined
unfolding connect_step kirdi.Transport.ClientTransport.just_connected kirdi.Crypto.build_auth_token
    hmac kirdi.Protocol.build_packet entries kirdi.Transport.ClientTransport.advance new_client
joined_next = refl

transport : (w : WsClientTransport) × ((run_posted joined).ws ≡ some w) × (w.in_flight ≡ true)
unfolding connect_step run_posted kirdi.Transport.ClientTransport.just_connected
    kirdi.Crypto.build_auth_token hmac kirdi.Protocol.build_packet entries
    kirdi.Transport.ClientTransport.advance new_client kirdi.Transport.ClientTransport.run_posted
    kirdi.Transport.ClientTransport.do_read kirdi.Transport.ClientTransport.send construct
transport = (_, refl, refl)

hello_written : (w : WsClientTransport) × (greeted.ws ≡ some w) × (w.wire ≡ hello ∷ [])
unfolding connect_step on_write run_posted kirdi.Transport.ClientTransport.just_connected
    kirdi.Crypto.build_auth_token hmac kirdi.Protocol.build_packet entries
    kirdi.Transport.ClientTransport.advance new_client kirdi.Transport.ClientTransport.on_write
    kirdi.Transport.ClientTransport.run_posted kirdi.Transport.ClientTransport.do_read
    kirdi.Transport.ClientTransport.send construct
hello_written = (_, refl, refl)

admitted_next :
    (session_read json hmac 62 0 1 hello registered ≡ returned admitted)
    × (admitted.tun_written ≡ [])
unfolding kirdi.Server.session_read kirdi.Base.Maps.lookup register_session kirdi.Base.Maps.insert
    new_server kirdi.Session.on_read kirdi.Transport.dispatch_packet kirdi.Session.start
    kirdi.Transport.ServerSession.start kirdi.Transport.ServerSession.on_packet auth_json entries
    hex_encode zeros kirdi.Protocol.deserialize_header kirdi.Protocol.to_byte kirdi.Json.value find
    kirdi.Base.same_bytes kirdi.Protocol.build_packet kirdi.Protocol.from_byte
    kirdi.Protocol.read_length kirdi.Protocol.serialize_header kirdi.Server.parse_address
    kirdi.Server.store kirdi.Server.store_outcome kirdi.Server.write_tun kirdi.Session.answer_auth
    kirdi.Session.auth_ok kirdi.Session.auth_response kirdi.Session.check_credentials
    kirdi.Session.close_unless kirdi.Session.handle_auth_request kirdi.Session.handle_ip_packet
    kirdi.Session.handle_packet kirdi.Session.new_session kirdi.Session.or_false
    kirdi.Session.read_again kirdi.Session.read_credentials kirdi.Session.response_packet
    kirdi.Session.send kirdi.Session.send_packet kirdi.Transport.ServerSession.construct
    kirdi.Transport.ServerSession.do_read kirdi.Transport.ServerSession.send
admitted_next = (refl, refl)

sending_next : tun_round (TunPoll.readable packet) greeted ≡ returned sending
unfolding connect_step tun_round on_write run_posted kirdi.Transport.ClientTransport.just_connected
    kirdi.Crypto.build_auth_token hmac kirdi.Protocol.build_packet entries
    kirdi.Transport.ClientTransport.advance new_client kirdi.Transport.ClientTransport.on_write
    kirdi.Protocol.build_ip_packet
sending_next = refl

transport_again :
    (w : WsClientTransport) × ((run_posted sending).ws ≡ some w) × (w.in_flight ≡ true)
unfolding connect_step run_posted tun_round on_write kirdi.Transport.ClientTransport.just_connected
    kirdi.Crypto.build_auth_token hmac kirdi.Protocol.build_packet entries
    kirdi.Transport.ClientTransport.advance new_client kirdi.Transport.ClientTransport.on_write
    kirdi.Protocol.build_ip_packet kirdi.Transport.ClientTransport.run_posted
    kirdi.Transport.ClientTransport.do_read kirdi.Transport.ClientTransport.send construct
transport_again = (_, refl, refl)

packet_written :
    (w : WsClientTransport) × (sent.ws ≡ some w)
    × (w.wire ≡ hello ∷ (packet_bytes MsgType.ip_packet packet ∷ []))
unfolding connect_step on_write run_posted tun_round kirdi.Transport.ClientTransport.just_connected
    kirdi.Crypto.build_auth_token hmac kirdi.Protocol.build_packet entries
    kirdi.Transport.ClientTransport.advance new_client kirdi.Transport.ClientTransport.on_write
    kirdi.Protocol.build_ip_packet kirdi.Transport.ClientTransport.run_posted
    kirdi.Transport.ClientTransport.do_read kirdi.Transport.ClientTransport.send construct
packet_written = (_, refl, refl)

received_next :
    (session_read json hmac 62 0 1 (packet_bytes MsgType.ip_packet packet) admitted
      ≡ returned received)
    × (received.tun_written ≡ packet ∷ [])
unfolding kirdi.Server.session_read kirdi.Base.Maps.lookup register_session kirdi.Base.Maps.insert
    new_server kirdi.Session.on_read kirdi.Transport.dispatch_packet kirdi.Session.start
    kirdi.Transport.ServerSession.start kirdi.Transport.ServerSession.on_packet auth_json entries
    hex_encode zeros kirdi.Protocol.deserialize_header kirdi.Protocol.to_byte kirdi.Json.value find
    kirdi.Base.same_bytes kirdi.Protocol.build_packet kirdi.Protocol.from_byte
    kirdi.Protocol.read_length kirdi.Protocol.serialize_header kirdi.Server.parse_address
    kirdi.Server.store kirdi.Server.store_outcome kirdi.Server.write_tun kirdi.Session.answer_auth
    kirdi.Session.auth_ok kirdi.Session.auth_response kirdi.Session.check_credentials
    kirdi.Session.close_unless kirdi.Session.handle_auth_request kirdi.Session.handle_ip_packet
    kirdi.Session.handle_packet kirdi.Session.new_session kirdi.Session.or_false
    kirdi.Session.read_again kirdi.Session.read_credentials kirdi.Session.response_packet
    kirdi.Session.send kirdi.Session.send_packet kirdi.Transport.ServerSession.construct
    kirdi.Transport.ServerSession.do_read kirdi.Transport.ServerSession.send
received_next = (refl, refl)

joining-Life : Life inet json hmac 62 1 joining registered unused unused
unfolding construct
joining-Life = Life.opened joining handshaking server (7 ∷ []) refl refl refl refl

greeted-Life : Life inet json hmac 62 1 greeted registered unused unused
greeted-Life =
    let (w, e, h) = transport in
    Life.client_stepped (ClientStep.wrote w false e h) (
      Life.client_stepped ClientStep.posted
        (Life.client_stepped (ClientStep.advanced moment false true joined_next) joining-Life))

admitted-Life :
    Life inet json hmac 62 1 greeted admitted (record unused { read = hello ∷ [] }) unused
unfolding register_session new_server
admitted-Life =
    let (w, e, wire) = hello_written in
    Life.server_read 0 w hello [] [] e wire admitted_next.0 admitted_next.1 greeted-Life

sent-Life :
    Life inet json hmac 62 1 sent admitted
      (record unused { sent = packet ∷ []; read = hello ∷ [] })
      unused
sent-Life =
    let (w, e, h) = transport_again in
    Life.client_stepped (ClientStep.wrote w false e h)
      (Life.client_stepped ClientStep.posted (Life.client_polled packet sending_next admitted-Life))

received-Life :
    Life inet json hmac 62 1 sent received
      (record {
        sent = packet ∷ [];
        read = hello ∷ (packet_bytes MsgType.ip_packet packet ∷ []);
        written = packet ∷ [];
      })
      unused
received-Life =
    let (w, e, wire) = packet_written in
    Life.server_read 0 w (packet_bytes MsgType.ip_packet packet) [] (packet ∷ []) e wire
      received_next.0 (received_next.1 ∙ sym (ap (λ x. x ++ (packet ∷ [])) admitted_next.1))
      sent-Life

Life-InOrder_example : Sublist (packet ∷ []) (packet ∷ []) × Sublist {A = Bytes} [] []
Life-InOrder_example = Life-InOrder inet json hmac 62 1 received-Life
