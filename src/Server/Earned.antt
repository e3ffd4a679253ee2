-- ===== src/Server/Earned.antt =====
-- The handlers of src/server/server.cpp and what their sessions earn: a predicate of sessions and one
-- of packets that each handler but the reading of a message keeps.
use kirdi.Base.{ℕ, ◌≡◌, inl, inr, refl, ap, ◌∙◌, Bool, true, false, Bytes, List, [], Option, some}
use kirdi.Base.{map, Option-cases, Bool-cases, none, ◌∷◌, All, All-join, sym}
use kirdi.Base.Maps.{lookup, lookup-insert_cases}
use kirdi.Config.{ServerConfig}
use kirdi.Inet.{Inet}
use kirdi.Network.{Machine}
use kirdi.Server.{Server, Handshake, TransportEvent, new_server, on_accept, stop, on_handshake}
use kirdi.Server.{session_event}
use kirdi.Server.Boot.{Startup, run, run-IsQuiet}
use kirdi.Server.Device.{TunPoll, tun_round}
use kirdi.Server.Invariant.{IsValid}
use kirdi.Server.Steps.{written-nil, stored, written, send_ip_packet-passed, forward-stored}
use kirdi.Server.Steps.{tun_round-forward}
use kirdi.Session.{Link, Outcome, returned, auth_ok, on_read, send_ip_packet}
use kirdi.Session.Gate.{state_of}
use mathlib.Core.Path.{subst}
use kirdi.Session

pub All-written :
    (P : Bytes → Type 0) (tun : Option Bool) (old new : List Bytes)
    → All P old
    → All P new
    → All P (written tun old new)
All-written P (some true) old new h k = All-join P old new h k
All-written P (some false) old new h k = h
All-written P none old new h k = h

pub All-map :
    {P Q : Bytes → Type 0} → ((p : Bytes) → P p → Q p) → (ps : List Bytes) → All P ps → All Q ps
All-map f [] h = tt
All-map f (p ∷ ps) (h, hs) = (f p h, All-map f ps hs)

-- Each authenticated session has `Earned` it, and each packet that was written to the device was
-- `Sent`.
pub record IsEarned (Earned : ℕ → Type 0) (Sent : Bytes → Type 0) (s : Server) : Type 0 where
  pub earned :
      (sid : ℕ) (l : Link)
      → lookup sid s.sessions ≡ some l
      → l.client.authenticated ≡ true
      → Earned sid
  pub sent : All Sent s.tun_written

module _ (inet : Inet) (config : ServerConfig) (Earned : ℕ → Type 0) (Sent : Bytes → Type 0) where
  -- A session that is stored again without packets, and that had earned it if it is authenticated.
  stored-IsEarned :
      (sid : ℕ) (l : Link) (s : Server)
      → IsEarned Earned Sent s
      → l.passed ≡ []
      → (l.client.authenticated ≡ true → Earned sid)
      → IsEarned Earned Sent (stored sid l s)
  stored-IsEarned sid l s c p had = record {
    earned = λ k x e on. elim (lookup-insert_cases sid k _ x s.sessions e) [
      | inl (same, q) ↦
          subst Earned same (had (subst (λ y. y.client.authenticated ≡ true) (sym q) on))
      | inr (_, e') ↦ c.earned k x e' on
    ];
    sent =
        subst (All Sent)
          (sym (
            ap (λ x. written s.tun s.tun_written (map (λ p. p.1) x)) p
            ∙ written-nil s.tun s.tun_written))
          c.sent;
  }

  pub poll-IsEarned :
      (poll : TunPoll) (s : Server)
      → IsValid inet s
      → IsEarned Earned Sent s
      → IsEarned Earned Sent (state_of (tun_round inet.endian poll s))
  poll-IsEarned poll s v c = elim (tun_round-forward inet.endian poll s) [
    | inl e ↦ rw e c
    | inr (sid, bytes, _, _, e) ↦ elim (forward-stored sid bytes s) [
      | inl e' ↦ rw (e, e') c
      | inr (l, found, on, e') ↦
          rw (e, e')
            (stored-IsEarned sid _ s c
              (send_ip_packet-passed bytes l ∙ (v.numbers sid l found).1.flushed)
              (λ _. c.earned sid l found on))
    ]
  ]

  pub event-IsEarned :
      (event : TransportEvent) (sid : ℕ) (s : Server)
      → IsEarned Earned Sent s
      → IsEarned Earned Sent (session_event event sid s)
  unfolding session_event
  event-IsEarned event sid s c = elim (Option-cases (lookup sid s.sessions)) [
    | inl e ↦ rw (e, session_event) c
    | inr (l, e) ↦
        rw (e, session_event)
          (record {
            sent = c.sent;
            earned = λ k x e' on. elim (lookup-insert_cases sid k _ x s.sessions e') [
              | inl (same, q) ↦
                  subst Earned same
                    (c.earned sid l e (subst (λ y. y.client.authenticated ≡ true) (sym q) on))
              | inr (_, e'') ↦ c.earned k x e'' on
            ];
          })
  ]

  pub shake-IsEarned :
      (failed : Bool) (h : Handshake) (s : Server)
      → IsEarned Earned Sent s
      → IsEarned Earned Sent (on_handshake inet failed h s).0
  unfolding on_handshake Session.start Session.new_session
  shake-IsEarned true h s c = c
  shake-IsEarned false h s c = elim (Bool-cases h.secure) [
    | inr todo ↦ simp todo c
    | inl done ↦ simp done (record {
      sent = c.sent;
      earned = λ k x e on. elim (lookup-insert_cases h.sid k _ x s.sessions e) [
        | inl (_, q) ↦ let off = subst (λ y. y.client.authenticated ≡ false) q refl in absurd (cc)
        | inr (_, e') ↦ c.earned k x e' on
      ];
    })
  ]

  pub accept-IsEarned :
      (failed : Bool) (s : Server)
      → IsEarned Earned Sent s
      → IsEarned Earned Sent (on_accept inet failed s).0
  unfolding on_accept
  accept-IsEarned true s c = record { earned = c.earned; sent = c.sent }
  accept-IsEarned false s c = record { earned = c.earned; sent = c.sent }

  pub run-IsEarned :
      (boot : Startup) (s : Server)
      → IsEarned Earned Sent s
      → IsEarned Earned Sent (state_of (run boot s))
  run-IsEarned boot s c =
      let (_, t, _, _, _, w) = run-IsQuiet boot s in
      record { sent = rw w c.sent; earned = rw t c.earned }

  pub stop-IsEarned : (s : Server) → IsEarned Earned Sent s → IsEarned Earned Sent (stop s)
  unfolding stop
  stop-IsEarned s c = record { earned = c.earned; sent = c.sent }

  pub begun-IsEarned : (machine : Machine) → IsEarned Earned Sent (new_server machine config)
  unfolding new_server lookup
  begun-IsEarned machine = record { sent = tt; earned = λ sid l e on. absurd (cc) }
