-- ===== src/Examples/Tunnel.antt =====
-- An example of a session of src/server/server.cpp that is admitted and then sends a packet.
use kirdi.Base.{◌≡◌, refl, ◌++◌, Bytes, [], ◌∷◌, false}
use kirdi.Client.Messages.{auth_json}
use kirdi.Crypto.{hex_encode}
use kirdi.Examples.{hmac, json, inet, inet-InetLaws, find, entries}
use kirdi.Examples.Client.{request}
use kirdi.Examples.Server.{config, server_joined, joined-History, server_accepted, first_client}
use kirdi.Inet.{ntohl, htonl}
use kirdi.Protocol.{MsgType, zeros}
use kirdi.Protocol.Packet.{packet_bytes}
use kirdi.Server.{Server, new_server, register_session, session_read, on_accept, on_handshake}
use kirdi.Server.Boot.{run, setup_tls, start, open_tun, start_tun, listen}
use kirdi.Server.Earned.{IsEarned}
use kirdi.Server.History.{History}
use kirdi.Server.Kept.{listed}
use kirdi.Server.Tunnel.{Admitted, Sent, History-IsEarned}
use kirdi.Session.{returned}
use kirdi.Session.Gate.{state_of}

abbrev hello : Bytes
hello = packet_bytes MsgType.auth_request request

-- A packet to 10.8.0.1.
abbrev packet : Bytes
packet = 69 ∷ 0 ∷ 0 ∷ 20 ∷ []

abbrev admitted : Server
admitted = state_of (session_read json hmac 62 0 1 hello server_joined)

abbrev received : Server
received = state_of (session_read json hmac 62 0 1 (packet_bytes MsgType.ip_packet packet) admitted)

admitted_next : session_read json hmac 62 0 1 hello server_joined ≡ returned admitted
unfolding kirdi.Server.session_read kirdi.Base.Maps.lookup register_session kirdi.Base.Maps.insert
    new_server kirdi.Session.on_read kirdi.Transport.dispatch_packet kirdi.Session.start
    kirdi.Transport.ServerSession.start kirdi.Transport.ServerSession.on_packet auth_json entries
    hex_encode zeros kirdi.Protocol.deserialize_header kirdi.Protocol.to_byte kirdi.Json.value find
    kirdi.Base.same_bytes kirdi.Protocol.build_packet kirdi.Protocol.from_byte
    kirdi.Protocol.read_length kirdi.Protocol.serialize_header kirdi.Server.parse_address
    kirdi.Server.store kirdi.Server.store_outcome kirdi.Server.write_tun kirdi.Session.answer_auth
    kirdi.Session.auth_ok kirdi.Session.auth_response kirdi.Session.check_credentials
    kirdi.Session.close_unless kirdi.Session.handle_auth_request kirdi.Session.handle_ip_packet
    kirdi.Session.handle_packet kirdi.Session.new_session kirdi.Session.or_false
    kirdi.Session.read_again kirdi.Session.read_credentials kirdi.Session.response_packet
    kirdi.Session.send kirdi.Session.send_packet kirdi.Transport.ServerSession.construct
    kirdi.Transport.ServerSession.do_read kirdi.Transport.ServerSession.send on_accept on_handshake
    run setup_tls start open_tun start_tun listen htonl ntohl kirdi.Server.allocate_client_ip
    kirdi.Server.do_accept kirdi.Crypto.verify_auth_token kirdi.Crypto.verify_loop
    kirdi.Crypto.build_auth_token hmac
admitted_next = refl

received_next :
    (session_read json hmac 62 0 1 (packet_bytes MsgType.ip_packet packet) admitted
      ≡ returned received)
    × (received.tun_written ≡ packet ∷ [])
unfolding kirdi.Server.session_read kirdi.Base.Maps.lookup register_session kirdi.Base.Maps.insert
    new_server kirdi.Session.on_read kirdi.Transport.dispatch_packet kirdi.Session.start
    kirdi.Transport.ServerSession.start kirdi.Transport.ServerSession.on_packet auth_json entries
    hex_encode zeros kirdi.Protocol.deserialize_header kirdi.Protocol.to_byte kirdi.Json.value find
    kirdi.Base.same_bytes kirdi.Protocol.build_packet kirdi.Protocol.from_byte
    kirdi.Protocol.read_length kirdi.Protocol.serialize_header kirdi.Server.parse_address
    kirdi.Server.store kirdi.Server.store_outcome kirdi.Server.write_tun kirdi.Session.answer_auth
    kirdi.Session.auth_ok kirdi.Session.auth_response kirdi.Session.check_credentials
    kirdi.Session.close_unless kirdi.Session.handle_auth_request kirdi.Session.handle_ip_packet
    kirdi.Session.handle_packet kirdi.Session.new_session kirdi.Session.or_false
    kirdi.Session.read_again kirdi.Session.read_credentials kirdi.Session.response_packet
    kirdi.Session.send kirdi.Session.send_packet kirdi.Transport.ServerSession.construct
    kirdi.Transport.ServerSession.do_read kirdi.Transport.ServerSession.send on_accept on_handshake
    run setup_tls start open_tun start_tun listen htonl ntohl kirdi.Server.allocate_client_ip
    kirdi.Server.do_accept kirdi.Crypto.verify_auth_token kirdi.Crypto.verify_loop
    kirdi.Crypto.build_auth_token hmac
received_next = (refl, refl)

received-History :
    History inet json hmac 62 config received
      (listed (on_handshake inet false first_client server_accepted).1 ++ [])
received-History =
    History.received 0 1 (packet_bytes MsgType.ip_packet packet) received_next.0
      (History.received 0 1 hello admitted_next (joined-History hmac))

History-IsEarned_example :
    IsEarned
      (λ sid. Admitted inet json hmac 62 config sid received-History)
      (λ sent. Sent inet json hmac 62 config sent received-History)
      received
History-IsEarned_example = History-IsEarned inet json hmac 62 config inet-InetLaws received-History
