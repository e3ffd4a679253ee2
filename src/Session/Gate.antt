-- ===== src/Session/Gate.antt =====
-- What a client of src/server/session.cpp gets past `handle_packet`: which packets reach the tunnel.
use kirdi.Base.{ℕ, ◌≡◌, arith, Bool, true, false, Bytes, Option, ok, thrown, Result, Option-cases}
use kirdi.Base.{sym, none, ◌⊎◌, some, ◌++◌, List, inl, ◌∙◌, [], inr, if◌then◌else◌, refl, ◌&&◌, ◌∷◌}
use kirdi.Json.{JsonLib}
use kirdi.Protocol.{build_keepalive, build_packet, PacketHeader, MsgType}
use kirdi.Session.{Link, Outcome, returned, escaped, endless, answer_auth, send_packet}
use kirdi.Session.{close_unless, handle_auth_request, auth_ok, handle_packet, on_read, read_again}
use kirdi.Session.{dispatch_packet, handle_ip_packet, close}
use mathlib.Core.List.{append-nil}

-- The state in which a handler leaves the session, however it ends.
abbrev pub state_of {ℓ} : {S : Type ℓ} → Outcome S → S
state_of (returned l) = l
state_of (escaped e l) = l
state_of (endless l) = l

-- What a handler of another message leaves alone.
pub record IsGated (before after : Link) : Type 0 where
  pub same_client : after.client ≡ before.client
  pub same_passed : after.passed ≡ before.passed

pub send_packet-IsGated : (r : Result Bytes) (l : Link) → IsGated l (state_of (send_packet r l))
unfolding send_packet
send_packet-IsGated (ok pkt) l = ground arith
send_packet-IsGated (thrown e) l = ground arith

module _ (j : JsonLib) (hmac : Bytes → Bytes → Option Bytes) (fuel now : ℕ) where
  close_unless-IsGated :
      (accepted : Bool) (l : Link) (r : Outcome Link)
      → IsGated l (state_of r)
      → IsGated l (state_of (close_unless j hmac fuel now accepted r))
  unfolding close_unless
  close_unless-IsGated true l r g = g
  close_unless-IsGated false l (returned l') g = ground arith
  close_unless-IsGated false l (escaped e l') g = g
  close_unless-IsGated false l (endless l') g = g

  -- The flag is the answer of the check, and nothing else of the client changes.
  pub answer_auth_client :
      (accepted : Bool) (l : Link)
      → IsGated
          (record l { client = record (l.client) { authenticated = accepted } })
          (state_of (answer_auth j hmac fuel now accepted l))
  unfolding answer_auth
  answer_auth_client accepted l = close_unless-IsGated accepted _ _ (send_packet-IsGated _ _)

  handle_auth_request-client :
      (payload : Bytes) (l : Link)
      → let l' = state_of (handle_auth_request j hmac fuel now payload l) in
        (l'.passed ≡ l.passed)
        × (l'.client ≡ record (l.client) { authenticated = l'.client.authenticated })
        × (l'.client.authenticated ≡ true
            → (l.client.authenticated ≡ true)
              ⊎ (auth_ok j hmac fuel now l.client.auth_secret payload ≡ some true))
  unfolding handle_auth_request
  handle_auth_request-client payload l =
      ground (arith, answer_auth_client true l, answer_auth_client false l)

  -- The calls of `on_ip_packet_` that one message brings about.
  abbrev pub handed : Bytes → Link → List (ℕ × Bytes)
  handed buf l = elim (dispatch_packet l.ws.has_packet_callback buf) [
    | none ↦ []
    | some (hdr, payload) ↦ elim hdr.type [
      | MsgType.ip_packet ↦
          if l.client.authenticated && l.client.has_ip_callback
          then (l.client.id, payload) ∷ []
          else []
      | _ ↦ []
    ]
  ]

  -- The message is an AuthRequest whose check succeeds.
  abbrev pub Admits : Bytes → Link → Type 0
  Admits buf l =
      (hdr : PacketHeader) × (payload : Bytes) × (dispatch_packet l.ws.has_packet_callback buf
        ≡ some (hdr, payload))
      × (hdr.type ≡ MsgType.auth_request)
      × (auth_ok j hmac fuel now l.client.auth_secret payload ≡ some true)

  pub record IsRead (buf : Bytes) (l l' : Link) : Type 0 where
    pub passes : l'.passed ≡ l.passed ++ handed buf l
    pub same_client : l'.client ≡ record (l.client) { authenticated = l'.client.authenticated }
    pub admits : l'.client.authenticated ≡ true → (l.client.authenticated ≡ true) ⊎ Admits buf l

  handle_packet-IsRead :
      (type : MsgType) (size : ℕ) (buf payload : Bytes) (l : Link)
      → let hdr : PacketHeader = record { type = type; length = size } in
        dispatch_packet l.ws.has_packet_callback buf ≡ some (hdr, payload)
        → IsRead buf l (state_of (handle_packet j hmac fuel now hdr payload l))
  unfolding handle_packet
  handle_packet-IsRead MsgType.auth_request size buf payload l e =
      let (passed, same, admits) = handle_auth_request-client payload l in
      record {
        passes = rw (e, handed) (passed ∙ sym (append-nil l.passed));
        same_client = same;
        admits = λ h. ground (arith, admits h);
      }
  handle_packet-IsRead MsgType.ip_packet size buf payload l e =
      unfold handle_ip_packet in ground (arith, append-nil l.passed)
  handle_packet-IsRead MsgType.keepalive size buf payload l e =
      ground (arith, append-nil l.passed, send_packet-IsGated build_keepalive l)
  handle_packet-IsRead MsgType.ping size buf payload l e =
      ground (arith, append-nil l.passed, send_packet-IsGated (build_packet MsgType.pong payload) l)
  handle_packet-IsRead MsgType.disconnect size buf payload l e =
      unfold close in ground (arith, append-nil l.passed)
  handle_packet-IsRead _ size buf payload l e = ground (arith, append-nil l.passed)

  read_again-state :
      (r : Outcome Link)
      → ((state_of (read_again j hmac fuel now r)).client ≡ (state_of r).client)
        × ((state_of (read_again j hmac fuel now r)).passed ≡ (state_of r).passed)
  unfolding read_again
  read_again-state (returned l) = (refl, refl)
  read_again-state (escaped e l) = (refl, refl)
  read_again-state (endless l) = (refl, refl)

  -- One message from the client, whatever its bytes and however its handler ends: the packets that
  -- it sends to the tunnel are its payload if it is an IpPacket of an authenticated session whose
  -- callback is set, and none otherwise; nothing of the client changes but its `authenticated` flag;
  -- and the session is authenticated afterwards only if it was before or the message is an
  -- AuthRequest whose check succeeds.
  pub on_read-IsRead :
      (buf : Bytes) (l : Link) → IsRead buf l (state_of (on_read j hmac fuel now buf l))
  unfolding on_read
  on_read-IsRead buf l = elim (Option-cases (dispatch_packet l.ws.has_packet_callback buf)) [
    | inl e ↦ rw (e, on_read) (unfold read_again in ground (arith, e, append-nil l.passed))
    | inr ((hdr, payload), e) ↦
        rw (e, on_read)
          (ground (
            arith,
            handle_packet-IsRead hdr.type hdr.length buf payload l e,
            read_again-state (handle_packet j hmac fuel now hdr payload l),
          ))
  ]
