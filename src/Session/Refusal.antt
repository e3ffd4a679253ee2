-- ===== src/Session/Refusal.antt =====
-- The answers of `handle_packet` in src/server/session.cpp, and which of them are sent.
use kirdi.Base.{ℕ, ◌≤◌, ◌≡◌, ◌⊎◌, inl, inr, refl, ◌∙◌, arith, true, false, Bytes, List, [], ◌∷◌}
use kirdi.Base.{◌++◌, length, some, ok, Option}
use kirdi.Json.{JsonLib}
use kirdi.Protocol.{MsgType, build_keepalive, max_payload}
use kirdi.Protocol.Packet.{build_packet_fits, packet_bytes}
use kirdi.Session.{Link, returned, handle_packet, handle_auth_request, auth_ok, answer_auth}
use kirdi.Session.{response_packet, send_packet, send, close}
use kirdi.Transport.{dispatch_packet}
use kirdi.Transport.Dispatch.{dispatch-packet}
use kirdi.Transport.ServerSession.{WsServerSession}
use kirdi.Transport.ServerSession.Closing.{Runs-IsOver, IsOver, close-send}
use kirdi.Transport.ServerSession.Order.{Runs, flying}
use mathlib.Core.Path.{ap₂}
use kirdi.Transport.ServerSession

module _ (j : JsonLib) (hmac : Bytes → Bytes → Option Bytes) (fuel now : ℕ) where
  -- A request that fails leaves the session disconnected, with what was on the wire before.
  refused_link :
      (size : ℕ) (payload pkt : Bytes) (l : Link)
      → l.ws.connected ≡ true
      → auth_ok j hmac fuel now l.client.auth_secret payload ≡ some false
      → response_packet j hmac fuel now false (record (l.client) { authenticated = false }) ≡ ok pkt
      → (l' : Link) × (handle_packet j hmac fuel now
            (record { type = MsgType.auth_request; length = size })
            payload
            l
          ≡ returned l')
        × (l'.client.authenticated ≡ false)
        × (l'.ws.connected ≡ false)
        × (l'.ws.write_queue ≡ l.ws.write_queue ++ (pkt ∷ []))
        × (l'.ws.wire ≡ l.ws.wire)
        × (flying l'.ws ≡ flying l.ws)
  unfolding handle_packet handle_auth_request answer_auth send close
  refused_link size payload pkt l on no_auth built = (
    close (send pkt (record l { client = record (l.client) { authenticated = false } })),
    ground (arith, no_auth, built),
    refl,
    closed.0,
    closed.1,
    closed.2,
    closed.3,
  )
    where
      closed :
          let w' = ServerSession.close (ServerSession.send pkt l.ws) in
          (w'.connected ≡ false)
          × (w'.write_queue ≡ l.ws.write_queue ++ (pkt ∷ []))
          × (w'.wire ≡ l.ws.wire)
          × (flying w' ≡ flying l.ws)
      closed = close-send pkt l.ws on

  -- The answer to a request that fails, of a connected session, is put into the queue, where it
  -- can be built, and never sent: after it nothing that the transport may still do adds to the
  -- wire, but for the message that was under way before.
  pub refusal_unsent :
      (size : ℕ) (payload pkt : Bytes) (l : Link)
      → l.ws.connected ≡ true
      → auth_ok j hmac fuel now l.client.auth_secret payload ≡ some false
      → response_packet j hmac fuel now false (record (l.client) { authenticated = false }) ≡ ok pkt
      → (l' : Link) × (handle_packet j hmac fuel now
            (record { type = MsgType.auth_request; length = size })
            payload
            l
          ≡ returned l')
        × (l'.ws.write_queue ≡ l.ws.write_queue ++ (pkt ∷ []))
        × ((w : WsServerSession) (ms : List Bytes)
            → Runs l'.ws w ms
            → (w.wire ≡ l.ws.wire) ⊎ (w.wire ≡ l.ws.wire ++ flying l.ws))
  refusal_unsent size payload pkt l on no_auth built =
      let (l', e, _, off, queued, same, same_flying) =
        refused_link size payload pkt l on no_auth built in
      (l', e, queued, λ w ms r. later l' w same same_flying (Runs-IsOver off r).0)
    where
      later :
          (l' : Link) (w : WsServerSession)
          → l'.ws.wire ≡ l.ws.wire
          → flying l'.ws ≡ flying l.ws
          → IsOver l'.ws w
          → (w.wire ≡ l.ws.wire) ⊎ (w.wire ≡ l.ws.wire ++ flying l.ws)
      later l' w same same_flying o = elim o.wire [
        | inl (e, _, _, _) ↦ inl (e ∙ same)
        | inr (_, inl e) ↦ inl (e ∙ same)
        | inr (_, inr e) ↦ inr (e ∙ ap₂ (λ x y. x ++ y) same same_flying)
      ]

  -- An accepted request authenticates the session and puts its answer behind the queue; the session
  -- stays connected.
  pub acceptance_queued :
      (size : ℕ) (payload pkt : Bytes) (l : Link)
      → l.ws.connected ≡ true
      → auth_ok j hmac fuel now l.client.auth_secret payload ≡ some true
      → response_packet j hmac fuel now true (record (l.client) { authenticated = true }) ≡ ok pkt
      → (l' : Link) × (handle_packet j hmac fuel now
            (record { type = MsgType.auth_request; length = size })
            payload
            l
          ≡ returned l')
        × (l'.client ≡ record (l.client) { authenticated = true })
        × (l'.passed ≡ l.passed)
        × (l'.ws ≡ ServerSession.send pkt l.ws)
  unfolding handle_packet handle_auth_request answer_auth send
  acceptance_queued size payload pkt l on auth built = (
    send pkt (record l { client = record (l.client) { authenticated = true } }),
    ground (arith, auth, built),
    refl,
    refl,
    refl,
  )

  -- A Ping with a payload within the maximal size is answered with a Pong that carries the same
  -- payload, and a Keepalive with a Keepalive: the answer is given to `send` of the transport,
  -- and a receiver's `dispatch_packet` reads it.
  pub echo :
      (payload : Bytes) (l : Link)
      → length payload ≤ max_payload
      → (pong keepalive : Bytes) × (handle_packet j hmac fuel now
            (record { type = MsgType.ping; length = length payload })
            payload
            l
          ≡ returned (record l { ws = ServerSession.send pong l.ws }))
        × (handle_packet j hmac fuel now
              (record { type = MsgType.keepalive; length = length payload })
              payload
              l
            ≡ returned (record l { ws = ServerSession.send keepalive l.ws }))
        × (dispatch_packet true pong
            ≡ some (record { type = MsgType.pong; length = length payload }, payload))
        × (dispatch_packet true keepalive
            ≡ some (record { type = MsgType.keepalive; length = 0 }, []))
  unfolding handle_packet send_packet send build_keepalive
  echo payload l h = (
    packet_bytes MsgType.pong payload,
    packet_bytes MsgType.keepalive [],
    rw (build_packet_fits MsgType.pong payload h),
    refl,
    dispatch-packet MsgType.pong payload tt h,
    dispatch-packet MsgType.keepalive [] tt (omega arith),
  )
