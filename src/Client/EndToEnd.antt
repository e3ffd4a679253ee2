-- ===== src/Client/EndToEnd.antt =====
-- The whole handshake between src/client/client.cpp and src/server/session.cpp, frames included.
use kirdi.Base.{ℕ, ◌+◌, ◌^◌, ◌≤◌, ◌<◌, ◌≡◌, refl, ap, ◌∙◌, arith, true, false, Bytes, is_empty}
use kirdi.Base.{length, [], ◌∷◌, ◌++◌, Option, some, ok, if◌then◌else◌}
use kirdi.Client.{Client, send, send_built, configure_network}
use kirdi.Client.Handshake.{auth_request-accepted, auth_response-read, device_of}
use kirdi.Client.Messages.{auth_request, on_connected, on_packet, send_auth}
use kirdi.Crypto.Token.{HmacWorks}
use kirdi.Json.{JsonLib, JsonLaws}
use kirdi.Protocol.{MsgType, max_payload, PacketHeader}
use kirdi.Protocol.Packet.{packet_bytes, build_packet_fits}
use kirdi.Session.{Link, returned, auth_response, on_read, response_packet, read_again}
use kirdi.Session.{handle_packet, auth_ok}
use kirdi.Session.Refusal.{acceptance_queued}
use kirdi.Transport.{dispatch_packet}
use kirdi.Transport.Dispatch.{dispatch-packet}
use kirdi.Transport.ServerSession.{WsServerSession}
use kirdi.Transport.ServerSession.Order.{contents, send-contents}
use kirdi.Transport.ServerSession

-- What a client sends once it is connected, and the device and threads that it has afterwards.
abbrev pub greeted : Bytes → Client → Client
greeted text c =
    send (packet_bytes MsgType.auth_request text)
      (record c { connected = true; reconnect_attempt = 0 })

send_queued :
    (m : Bytes) (w : WsServerSession)
    → w.connected ≡ true
    → ((ServerSession.send m w).connected ≡ true)
      × (contents (ServerSession.send m w) ≡ contents w ++ (m ∷ []))
send_queued m w on = (
  unfold ServerSession.send in ground (arith, on),
  send-contents m w ∙ ap (λ b. contents w ++ (if b then m ∷ [] else [])) on,
)

module _ (j : JsonLib) (laws : JsonLaws j) (hmac : Bytes → Bytes → Option Bytes)
    (fuel now server_now : ℕ) where
  on_connected-greeted :
      (c : Client) (text : Bytes)
      → auth_request j hmac c.config now ≡ ok text
      → length text ≤ max_payload
      → on_connected j hmac now c ≡ returned (greeted text c)
  unfolding on_connected send_built
  on_connected-greeted c text e fits =
      rw (e, send_auth) (rw (build_packet_fits MsgType.auth_request text fits) refl)

  response_packet_fits :
      (l : Link) (answer : Bytes)
      → j.dump
          (auth_response j hmac fuel server_now true (record (l.client) { authenticated = true }))
        ≡ some answer
      → length answer ≤ max_payload
      → response_packet j hmac fuel server_now true (record (l.client) { authenticated = true })
        ≡ ok (packet_bytes MsgType.auth_response answer)
  unfolding response_packet
  response_packet_fits l answer e fits = rw e (build_packet_fits MsgType.auth_response answer fits)

  on_read_handled :
      (buf : Bytes) (l l' : Link) (hdr : PacketHeader) (payload : Bytes)
      → dispatch_packet l.ws.has_packet_callback buf ≡ some (hdr, payload)
      → handle_packet j hmac fuel server_now hdr payload l ≡ returned l'
      → on_read j hmac fuel server_now buf l
        ≡ returned (record l' { ws = ServerSession.do_read l'.ws })
  unfolding on_read
  on_read_handled buf l l' hdr payload e e' = rw (e, on_read) (rw (e', read_again) refl)

  -- A client and a server that share a secret complete the handshake, where the JSON library
  -- and HMAC behave as documented and there is fuel for 62 rounds. The client sends one packet
  -- when its transport is connected; the server's session, which has its callback and is
  -- connected, reads it, is authenticated, and puts one answer behind what it has to send; the
  -- client's transport reads that answer as an AuthResponse, and the client opens a device with
  -- the address of the session. The secret is not empty, the client's clock is not within 30
  -- seconds of an end of uint64_t, the MTU is a uint32_t, and the two JSON texts can be written
  -- and are within the maximal payload.
  pub handshake :
      (c c' : Client) (l : Link) (text answer : Bytes)
      → HmacWorks hmac
      → 61 < fuel
      → is_empty c.config.auth_token ≡ false
      → 30 ≤ now
      → now + 31 < 2 ^ 64
      → l.client.auth_secret ≡ c.config.auth_token
      → l.client.tun_info.mtu < 2 ^ 32
      → l.ws.connected ≡ true
      → l.ws.has_packet_callback ≡ true
      → auth_request j hmac c.config now ≡ ok text
      → length text ≤ max_payload
      → j.dump
          (auth_response j hmac fuel server_now true (record (l.client) { authenticated = true }))
        ≡ some answer
      → length answer ≤ max_payload
      → (on_connected j hmac now c ≡ returned (greeted text c))
        × ((l' : Link) × (on_read j hmac fuel server_now (packet_bytes MsgType.auth_request text) l
              ≡ returned l')
            × (l'.client ≡ record (l.client) { authenticated = true })
            × (l'.ws.connected ≡ true)
            × (contents l'.ws ≡ contents l.ws ++ (packet_bytes MsgType.auth_response answer ∷ [])))
        × (dispatch_packet true (packet_bytes MsgType.auth_response answer)
            ≡ some (record { type = MsgType.auth_response; length = length answer }, answer))
        × (on_packet j hmac true
              (record { type = MsgType.auth_response; length = length answer })
              answer
              c'
            ≡ returned (record c' {
              virtual_ip = l.client.virtual_ip;
              tun = some true;
              tun_opened = c'.tun_opened ++ (device_of l.client ∷ []);
              commands = configure_network (c'.tun_opened ++ (device_of l.client ∷ [])) c';
              tun_threads = c'.tun_threads + 1;
            }))
  unfolding on_packet ServerSession.do_read
  handshake c c' l text answer works f s lo hi secret w on called e fits e' fits' =
      let no_secret_lost : auth_ok j hmac fuel server_now l.client.auth_secret text ≡ some true =
        rw secret
          (auth_request-accepted j laws hmac fuel server_now now c.config text works f s lo hi e) in
      let (l', handled, same, _, queued) =
        acceptance_queued j hmac fuel server_now (length text) text
          (packet_bytes MsgType.auth_response answer) l on no_secret_lost
          (response_packet_fits l answer e' fits') in
      (
        on_connected-greeted c text e fits,
        (
          record l' { ws = ServerSession.do_read l'.ws },
          on_read_handled (packet_bytes MsgType.auth_request text) l l' _ text
              (rw called (dispatch-packet MsgType.auth_request text tt fits)) handled,
          same,
          ap (λ x. x.connected) queued
              ∙ (send_queued (packet_bytes MsgType.auth_response answer) l.ws on).0,
          ap (λ x. contents x) queued
              ∙ (send_queued (packet_bytes MsgType.auth_response answer) l.ws on).1,
        ),
        dispatch-packet MsgType.auth_response answer tt fits',
        ap returned (auth_response-read j laws hmac fuel server_now _ true answer c' w e'),
      )
