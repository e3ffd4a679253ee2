-- ===== src/Session/Outgoing.antt =====
-- What the handlers of src/server/session.cpp give to the transport, as IP packets.
use kirdi.Base.{◌≡◌, ◌≢◌, refl, arith, Bool, true, false, Bytes, List, [], ◌∷◌, Option-cases, inl}
use kirdi.Base.{inr, Result, ok, thrown, or_throw, json_failure, Result-cases, ℕ, Option}
use kirdi.Json.{JsonLib}
use kirdi.Protocol.{MsgType, build_packet, build_keepalive, build_ip_packet}
use kirdi.Protocol.Header.{IsMsgType}
use kirdi.Session.{Link, Outcome, returned, escaped, endless, send_packet, send_ip_packet}
use kirdi.Session.{response_packet, auth_response, close_unless, close, answer_auth}
use kirdi.Session.{handle_auth_request, auth_ok, handle_ip_packet, handle_packet, read_again}
use kirdi.Session.{on_read, ClientSession}
use kirdi.Session.Gate.{state_of}
use kirdi.Transport.{dispatch_packet}
use kirdi.Transport.Mail.{Post, Flows, Flows-trans, kept, refused, packet_in}
use kirdi.Transport.Mail.{packet_in-build_packet, packet_in-build_ip_packet}
use kirdi.Transport.ServerSession.Posting.{post_of, send-Flows, close-Flows, do_read-Flows}
use mathlib.Core.Path.{subst}
use kirdi.Transport.ServerSession

-- What the transport of a session has written, and what waits in it.
abbrev pub outgoing : Link → Post
outgoing l = post_of l.ws

send_packet-Flows :
    (new : List Bytes) (r : Result Bytes) (l : Link)
    → ((pkt : Bytes) → r ≡ ok pkt → packet_in pkt ≡ new)
    → Flows new (outgoing l) (outgoing (state_of (send_packet r l)))
unfolding send_packet
send_packet-Flows new (ok pkt) l h =
    subst (λ n. Flows n (post_of l.ws) (post_of (ServerSession.send pkt l.ws))) (h pkt refl)
      (send-Flows pkt l.ws)
send_packet-Flows new (thrown e) l h = refused new _ _

pub send_ip_packet-Flows :
    (packet : Bytes) (l : Link)
    → Flows (packet ∷ []) (outgoing l) (outgoing (state_of (send_ip_packet packet l)))
unfolding send_ip_packet
send_ip_packet-Flows packet l =
    send_packet-Flows (packet ∷ []) (build_ip_packet packet) l
      (λ pkt e. packet_in-build_ip_packet packet pkt e)

-- A packet of another type.
send_packet-same :
    (type : MsgType) (payload : Bytes) (l : Link)
    → IsMsgType type
    → type ≢ MsgType.ip_packet
    → Flows [] (outgoing l) (outgoing (state_of (send_packet (build_packet type payload) l)))
send_packet-same type payload l t other =
    send_packet-Flows [] (build_packet type payload) l
      (λ pkt e. packet_in-build_packet type payload pkt t other e)

module _ (j : JsonLib) (hmac : Bytes → Bytes → Option Bytes) (fuel now : ℕ) where
  response_packet-in :
      (accepted : Bool) (c : ClientSession) (pkt : Bytes)
      → response_packet j hmac fuel now accepted c ≡ ok pkt
      → packet_in pkt ≡ []
  unfolding response_packet
  response_packet-in accepted c pkt e =
      elim (Result-cases
        (or_throw (j.dump (auth_response j hmac fuel now accepted c)) json_failure)) [
          | inr (x, h) ↦ cc
          | inl (text, h) ↦ packet_in-build_packet MsgType.auth_response text pkt tt (λ x. cc) (cc)
        ]

  close_unless-Flows :
      (p : Post) (accepted : Bool) (r : Outcome Link)
      → Flows [] p (outgoing (state_of r))
      → Flows [] p (outgoing (state_of (close_unless j hmac fuel now accepted r)))
  unfolding close_unless close
  close_unless-Flows p true r f = f
  close_unless-Flows p false (returned l) f =
      Flows-trans [] [] p (outgoing l) _ f (close-Flows l.ws)
  close_unless-Flows p false (escaped e l) f = f
  close_unless-Flows p false (endless l) f = f

  handle_auth_request-Flows :
      (payload : Bytes) (l : Link)
      → Flows [] (outgoing l) (outgoing (state_of (handle_auth_request j hmac fuel now payload l)))
  unfolding handle_auth_request answer_auth
  handle_auth_request-Flows payload l =
      elim (Option-cases (auth_ok j hmac fuel now l.client.auth_secret payload)) [
        | inl e ↦ rw (e, handle_auth_request) (kept _ _)
        | inr (accepted, e) ↦
            rw (e, handle_auth_request)
              (close_unless-Flows (outgoing l) accepted _
                (send_packet-Flows [] _ _ (λ pkt h. response_packet-in accepted _ pkt h)))
      ]

  handle_ip_packet-ws :
      (payload : Bytes) (l : Link) → (handle_ip_packet j hmac fuel now payload l).ws ≡ l.ws
  unfolding handle_ip_packet
  handle_ip_packet-ws payload l = ground arith

  handle_packet-Flows :
      (type : MsgType) (size : ℕ) (payload : Bytes) (l : Link)
      → Flows [] (outgoing l) (
          outgoing (
            state_of
              (handle_packet j hmac fuel now (record { type = type; length = size }) payload l)))
  unfolding handle_packet build_keepalive close
  handle_packet-Flows MsgType.auth_request size payload l = handle_auth_request-Flows payload l
  handle_packet-Flows MsgType.ip_packet size payload l =
      rw (handle_ip_packet-ws payload l) (kept _ _)
  handle_packet-Flows MsgType.keepalive size payload l =
      send_packet-same MsgType.keepalive [] l tt (λ x. cc)
  handle_packet-Flows MsgType.ping size payload l =
      send_packet-same MsgType.pong payload l tt (λ x. cc)
  handle_packet-Flows MsgType.disconnect size payload l = close-Flows l.ws
  handle_packet-Flows _ size payload l = kept _ _

  read_again-Flows :
      (p : Post) (r : Outcome Link)
      → Flows [] p (outgoing (state_of r))
      → Flows [] p (outgoing (state_of (read_again j hmac fuel now r)))
  unfolding read_again
  read_again-Flows p (returned l) f = Flows-trans [] [] p (outgoing l) _ f (do_read-Flows l.ws)
  read_again-Flows p (escaped e l) f = f
  read_again-Flows p (endless l) f = f

  -- No message makes the session send an IP packet.
  pub on_read-Flows :
      (buf : Bytes) (l : Link)
      → Flows [] (outgoing l) (outgoing (state_of (on_read j hmac fuel now buf l)))
  unfolding on_read
  on_read-Flows buf l = elim (Option-cases (dispatch_packet l.ws.has_packet_callback buf)) [
    | inl e ↦ rw (e, on_read) (read_again-Flows (outgoing l) (returned l) (kept _ _))
    | inr ((hdr, payload), e) ↦
        rw (e, on_read)
          (read_again-Flows (outgoing l) (handle_packet j hmac fuel now hdr payload l)
            (handle_packet-Flows hdr.type hdr.length payload l))
  ]
