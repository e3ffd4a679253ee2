-- ===== src/Server/Tunnel.antt =====
-- What reaches the TUN device of src/server/server.cpp.
use kirdi.Base.{ℕ, ◌≡◌, inl, inr, refl, ap, ◌∙◌, Bool, true, false, Bytes, List, [], ◌++◌, Option}
use kirdi.Base.{some, map, Option-cases, Bool-cases, arith, ◌∷◌, ◌&&◌, All, sym, ◌⊎◌}
use kirdi.Base.Maps.{lookup, lookup-insert_cases}
use kirdi.Config.{ServerConfig}
use kirdi.Inet.{Inet, InetLaws}
use kirdi.Json.{JsonLib}
use kirdi.Protocol.{PacketHeader, MsgType}
use kirdi.Server.{Server, Handshake, session_read}
use kirdi.Server.Earned.{IsEarned, All-map, All-written, begun-IsEarned, run-IsEarned}
use kirdi.Server.Earned.{accept-IsEarned, shake-IsEarned, event-IsEarned, poll-IsEarned}
use kirdi.Server.Earned.{stop-IsEarned}
use kirdi.Server.History.{History, History-IsGood}
use kirdi.Server.Invariant.{IsValid}
use kirdi.Server.Kept.{IsGood}
use kirdi.Server.Steps.{written, session_read-found, session_read-stored}
use kirdi.Session.{Link, auth_ok}
use kirdi.Session.Gate.{state_of, on_read-IsRead, handed}
use kirdi.Transport.{dispatch_packet}
use mathlib.Core.Path.{subst}

-- One message of a session in the table, in a valid state: the device, if it is open, is given
-- the payload of the message if that is an IpPacket and the session is authenticated, and nothing
-- otherwise; if it is not open, it is given nothing.
pub session_read-tun_written :
    (inet : Inet) (j : JsonLib) (hmac : Bytes → Bytes → Option Bytes) (fuel now sid : ℕ)
    (buf : Bytes) (l : Link) (s : Server)
    → IsValid inet s
    → lookup sid s.sessions ≡ some l
    → (state_of (session_read j hmac fuel now sid buf s)).tun_written
      ≡ written s.tun s.tun_written (map (λ p. p.1) (handed j hmac fuel now buf l))
session_read-tun_written inet j hmac fuel now sid buf l s v found =
    ap (λ x. x.tun_written) (session_read-found j hmac fuel now sid buf l s found)
    ∙ ap (λ x. written s.tun s.tun_written (map (λ p. p.1) x))
        ((on_read-IsRead j hmac fuel now buf l).passes
          ∙ ap (λ x. x ++ handed j hmac fuel now buf l) (v.numbers sid l found).1.flushed)

dispatched :
    (callback : Bool) (buf : Bytes) (x : PacketHeader × Bytes)
    → dispatch_packet callback buf ≡ some x
    → dispatch_packet true buf ≡ some x
unfolding dispatch_packet
dispatched true buf x e = e
dispatched false buf x e = absurd (cc)

module _ (inet : Inet) (j : JsonLib) (hmac : Bytes → Bytes → Option Bytes) (fuel : ℕ)
    (config : ServerConfig) where
  -- The bytes are a message with an AuthRequest that passes the check for the configured secret.
  abbrev pub IsRequest : ℕ → Bytes → Type 0
  IsRequest now buf =
      (hdr : PacketHeader) × (payload : Bytes) × (dispatch_packet true buf ≡ some (hdr, payload))
      × (hdr.type ≡ MsgType.auth_request)
      × (auth_ok j hmac fuel now config.auth_secret payload ≡ some true)

  -- The bytes are a message with this IP packet.
  abbrev pub IsIpPacket : Bytes → Bytes → Type 0
  IsIpPacket packet buf =
      (hdr : PacketHeader) × (dispatch_packet true buf ≡ some (hdr, packet))
      × (hdr.type ≡ MsgType.ip_packet)

  -- What a message adds to what the sessions have earned and sent.
  abbrev NowEarned : (ℕ → Type 0) → ℕ → ℕ → Bytes → ℕ → Type 0
  NowEarned Earned now k buf sid = ((k ≡ sid) × IsRequest now buf) ⊎ Earned sid

  abbrev NowSent : (ℕ → Type 0) → (Bytes → Type 0) → ℕ → Bytes → Bytes → Type 0
  NowSent Earned Sent k buf packet = (IsIpPacket packet buf × Earned k) ⊎ Sent packet

  -- In a history, the session has sent an AuthRequest that passed the check when it was read.
  unfoldable pub Admitted :
      ℕ → {s : Server} {hs : List Handshake} → History inet j hmac fuel config s hs → Type 0
  Admitted sid (History.begun machine) = ⊥
  Admitted sid (History.ran boot r) = Admitted sid r
  Admitted sid (History.accepted failed w r) = Admitted sid r
  Admitted sid (History.shook failed h hs' k r) = Admitted sid r
  Admitted sid (History.received now k buf e r) = NowEarned (λ i. Admitted i r) now k buf sid
  Admitted sid (History.transported event k r) = Admitted sid r
  Admitted sid (History.polled poll e r) = Admitted sid r
  Admitted sid (History.halted r) = Admitted sid r

  -- In a history, a session that was admitted before has sent the packet.
  unfoldable pub Sent :
      Bytes → {s : Server} {hs : List Handshake} → History inet j hmac fuel config s hs → Type 0
  unfolding Admitted
  Sent packet (History.begun machine) = ⊥
  Sent packet (History.ran boot r) = Sent packet r
  Sent packet (History.accepted failed w r) = Sent packet r
  Sent packet (History.shook failed h hs' k r) = Sent packet r
  Sent packet (History.received now k buf e r) =
      NowSent (λ i. Admitted i r) (λ p. Sent p r) k buf packet
  Sent packet (History.transported event k r) = Sent packet r
  Sent packet (History.polled poll e r) = Sent packet r
  Sent packet (History.halted r) = Sent packet r

  -- What a message hands on: nothing, or an IP packet of an authenticated session.
  handed-cases :
      (now : ℕ) (buf : Bytes) (l : Link)
      → (handed j hmac fuel now buf l ≡ [])
        ⊎ ((packet : Bytes) × IsIpPacket packet buf
            × (l.client.authenticated ≡ true)
            × (handed j hmac fuel now buf l ≡ (l.client.id, packet) ∷ []))
  handed-cases now buf l = elim (Option-cases (dispatch_packet l.ws.has_packet_callback buf)) [
    | inl e ↦ inl (ground (arith, e))
    | inr ((hdr, payload), e) ↦ go hdr.type hdr payload e refl
  ]
    where
      go :
          (type : MsgType) (hdr : PacketHeader) (payload : Bytes)
          → dispatch_packet l.ws.has_packet_callback buf ≡ some (hdr, payload)
          → hdr.type ≡ type
          → (handed j hmac fuel now buf l ≡ [])
            ⊎ ((packet : Bytes) × IsIpPacket packet buf
                × (l.client.authenticated ≡ true)
                × (handed j hmac fuel now buf l ≡ (l.client.id, packet) ∷ []))
      go MsgType.ip_packet hdr payload e t =
          elim (Bool-cases (l.client.authenticated && l.client.has_ip_callback)) [
            | inr off ↦ inl (ground (arith, e, t, off))
            | inl on ↦ inr (
              payload,
              (hdr, dispatched l.ws.has_packet_callback buf _ e, t),
              ground arith,
              ground (arith, e, t, on),
            )
          ]
      go _ hdr payload e t = inl (ground (arith, e, t))

  handed-sent :
      (Earned : ℕ → Type 0) (Before : Bytes → Type 0) (now k : ℕ) (buf : Bytes) (l : Link)
      → (l.client.authenticated ≡ true → Earned k)
      → (ps : List (ℕ × Bytes)) → ps ≡ handed j hmac fuel now buf l
      → All (NowSent Earned Before k buf) (map (λ p. p.1) ps)
  handed-sent Earned Before now k buf l had ps e = elim (handed-cases now buf l) [
    | inl none_handed ↦
        subst (λ x. All (NowSent Earned Before k buf) (map (λ p. p.1) x)) (sym (e ∙ none_handed)) tt
    | inr (packet, is, on, one) ↦
        subst (λ x. All (NowSent Earned Before k buf) (map (λ p. p.1) x)) (sym (e ∙ one))
          (inl (is, had on), tt)
  ]

  read-IsEarned :
      (Earned : ℕ → Type 0) (Before : Bytes → Type 0) (now k : ℕ) (buf : Bytes) (s : Server)
      (hs : List Handshake)
      → IsGood inet config s hs
      → IsEarned Earned Before s
      → IsEarned
          (NowEarned Earned now k buf)
          (NowSent Earned Before k buf)
          (state_of (session_read j hmac fuel now k buf s))
  read-IsEarned Earned Before now k buf s hs g c =
      elim (session_read-stored j hmac fuel now k buf s) [
        | inl e ↦ rw e (record {
          earned = λ i x e' on. inr (c.earned i x e' on);
          sent = All-map (λ p h. inr h) s.tun_written c.sent;
        })
        | inr (l, found, e) ↦
            let is = (g.valid.numbers k l found).1 in
            let r = on_read-IsRead j hmac fuel now buf l in
            let same = r.passes ∙ ap (λ x. x ++ handed j hmac fuel now buf l) is.flushed in
            rw e (record {
              earned = λ i x e' on. elim (lookup-insert_cases k i _ x s.sessions e') [
                | inr (_, e'') ↦ inr (c.earned i x e'' on)
                | inl (here, q) ↦
                    elim (r.admits (subst (λ y. y.client.authenticated ≡ true) (sym q) on)) [
                      | inl before ↦ inr (subst Earned here (c.earned k l found before))
                      | inr (hdr, payload, read, request, good) ↦ inl (
                        here,
                        (
                          hdr,
                          payload,
                          dispatched l.ws.has_packet_callback buf _ read,
                          request,
                          subst (λ x. auth_ok j hmac fuel now x payload ≡ some true)
                              (is.secret ∙ ap (λ x. x.auth_secret) g.same_config) good,
                        ),
                      )
                    ]
              ];
              sent =
                  All-written (NowSent Earned Before k buf) s.tun s.tun_written _
                    (All-map (λ p h. inr h) s.tun_written c.sent)
                    (handed-sent Earned Before now k buf l (c.earned k l found) _ same);
            })
      ]

  -- In every history of the server, where addresses that are printed read back: each session that
  -- is authenticated has sent an AuthRequest that passed the check for the configured secret when
  -- it was read, and each packet that was written to the TUN device was the payload of an IpPacket
  -- that such a session sent after its AuthRequest.
  pub History-IsEarned :
      {s : Server} {hs : List Handshake}
      → InetLaws inet
      → (r : History inet j hmac fuel config s hs)
      → IsEarned (λ sid. Admitted sid r) (λ packet. Sent packet r) s
  unfolding Admitted Sent
  History-IsEarned laws (History.begun machine) = begun-IsEarned inet config _ _ machine
  History-IsEarned laws (History.ran {s} boot r) =
      run-IsEarned inet config _ _ boot s (History-IsEarned laws r)
  History-IsEarned laws (History.accepted {s} failed w r) =
      accept-IsEarned inet config _ _ failed s (History-IsEarned laws r)
  History-IsEarned laws (History.shook {s} failed h hs' k r) =
      shake-IsEarned inet config _ _ failed h s (History-IsEarned laws r)
  History-IsEarned laws (History.received {s} {hs = hs} now k buf e r) =
      subst
        (λ o.
          IsEarned (NowEarned (λ i. Admitted i r) now k buf)
            (NowSent (λ i. Admitted i r) (λ p. Sent p r) k buf) (state_of o))
        e
        (read-IsEarned _ _ now k buf s hs (History-IsGood inet j hmac fuel config laws r)
          (History-IsEarned laws r))
  History-IsEarned laws (History.transported {s} event sid r) =
      event-IsEarned inet config _ _ event sid s (History-IsEarned laws r)
  History-IsEarned laws (History.polled {s} poll e r) =
      subst (λ o. IsEarned (λ i. Admitted i r) (λ p. Sent p r) (state_of o)) e
        (poll-IsEarned inet config _ _ poll s (History-IsGood inet j hmac fuel config laws r).valid
          (History-IsEarned laws r))
  History-IsEarned laws (History.halted {s} r) =
      stop-IsEarned inet config _ _ s (History-IsEarned laws r)
