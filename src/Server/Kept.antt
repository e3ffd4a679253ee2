-- ===== src/Server/Kept.antt =====
-- What every handler of src/server/server.cpp keeps, with the connections that are shaking hands.
use kirdi.Base.{ℕ, ◌+◌, ◌^◌, ◌≤◌, ◌<◌, ◌≡◌, inl, inr, refl, ap, arith, Bool, true, false, Bytes}
use kirdi.Base.{List, [], ◌∷◌, ◌++◌, Option, none, some, All, Option-cases, Bool-cases, ◌∙◌}
use kirdi.Base.Maps.{lookup}
use kirdi.Config.{ServerConfig}
use kirdi.Inet.{Inet, InetLaws}
use kirdi.Json.{JsonLib}
use kirdi.Network.{Machine}
use kirdi.Server.{Server, Handshake, TransportEvent, new_server, on_accept, stop, on_handshake}
use kirdi.Server.{session_read, session_event, do_accept}
use kirdi.Server.Address.{address}
use kirdi.Server.Boot.{Startup, run, run-IsQuiet}
use kirdi.Server.Device.{TunPoll, tun_round, forward}
use kirdi.Server.Invariant.{stored-IsValid, IsValid-same, register_session-IsValid, IsValid}
use kirdi.Server.Invariant.{IsPending, new_server-IsValid, store_session-IsValid}
use kirdi.Server.Steps.{stored, session_read-stored, forward-stored, send_ip_packet-client}
use kirdi.Server.Steps.{tun_round-forward}
use kirdi.Session.{Link}
use kirdi.Session.Gate.{state_of, on_read-IsRead}

abbrev pub listed : Option Handshake → List Handshake
listed none = []
listed (some h) = h ∷ []

-- `h` is one of the connections, and `rest` are the others.
pub data Picks : List Handshake → Handshake → List Handshake → Type 0 where
  first : {h : Handshake} {rest : List Handshake} → Picks (h ∷ rest) h rest
  later :
      {g h : Handshake} {hs rest : List Handshake} → Picks hs h rest → Picks (g ∷ hs) h (g ∷ rest)

module _ (inet : Inet) (config : ServerConfig) where
  IsPending-same :
      (s t : Server) (hs : List Handshake)
      → t.config ≡ s.config
      → s.next_session_id ≤ t.next_session_id
      → All (IsPending inet s) hs
      → All (IsPending inet t) hs
  IsPending-same s t [] e h p = tt
  IsPending-same s t (x ∷ hs) e h (p, ps) =
      (record { number = omega (arith, p.number); ip = rw e (p.ip) }, IsPending-same s t hs e h ps)

  picked :
      (s : Server) {hs rest : List Handshake} {h : Handshake}
      → Picks hs h rest
      → All (IsPending inet s) hs
      → IsPending inet s h × All (IsPending inet s) rest
  picked s Picks.first (p, ps) = (p, ps)
  picked s (Picks.later k) (p, ps) = let (q, qs) = picked s k ps in (q, (p, qs))

  -- What every handler keeps.
  pub record IsGood (s : Server) (hs : List Handshake) : Type 0 where
    pub valid : IsValid inet s
    pub pending : All (IsPending inet s) hs
    pub same_config : s.config ≡ config
    pub small : s.next_session_id + 2 < 2 ^ 32

  pub accept-IsGood :
      (failed : Bool) (s : Server) (hs : List Handshake)
      → s.next_session_id + 3 < 2 ^ 32
      → IsGood s hs
      → IsGood (on_accept inet failed s).0 (listed (on_accept inet failed s).1 ++ hs)
  unfolding on_accept
  accept-IsGood true s hs w g =
      unfold do_accept in
      record {
        valid = IsValid-same inet s _ refl refl refl refl refl g.valid;
        pending = IsPending-same s _ hs refl (omega arith) g.pending;
        same_config = g.same_config;
        small = g.small;
      }
  accept-IsGood false s hs w g =
      unfold do_accept in
      record {
        valid = record {
          counters = omega (arith, g.valid.counters);
          numbers = λ sid l e. let (h, is) = g.valid.numbers sid l e in (omega (arith, h), is);
          routes = g.valid.routes;
          routed = g.valid.routed;
        };
        pending = (
          record {
            number = omega arith;
            ip = ap (λ n. inet.inet_ntop (address inet s.config n)) g.valid.counters;
          },
          IsPending-same s _ hs refl (omega arith) g.pending,
        );
        same_config = g.same_config;
        small = omega arith;
      }

  pub shake-IsGood :
      (failed : Bool) (h : Handshake) (s : Server) (hs rest : List Handshake)
      → InetLaws inet
      → Picks hs h rest
      → IsGood s hs
      → IsGood (on_handshake inet failed h s).0 (listed (on_handshake inet failed h s).1 ++ rest)
  unfolding on_handshake
  shake-IsGood true h s hs rest laws k g = record {
    valid = g.valid;
    pending = (picked s k g.pending).1;
    same_config = g.same_config;
    small = g.small;
  }
  shake-IsGood false h s hs rest laws k g =
      let (p, ps) = picked s k g.pending in
      elim (Bool-cases h.secure) [
        | inl done ↦
            simp (done, p.ip)
              (record {
                valid =
                    register_session-IsValid inet h.sid s laws g.valid p.number
                      (omega (arith, g.small));
                pending = IsPending-same s _ rest refl (omega arith) ps;
                same_config = g.same_config;
                small = g.small;
              })
        | inr todo ↦ simp todo (record {
          valid = g.valid;
          pending = (record { number = p.number; ip = p.ip }, ps);
          same_config = g.same_config;
          small = g.small;
        })
      ]

  stored-IsGood :
      (sid : ℕ) (l l' : Link) (b : Bool) (s : Server) (hs : List Handshake)
      → IsGood s hs
      → lookup sid s.sessions ≡ some l
      → l'.client ≡ record (l.client) { authenticated = b }
      → IsGood (stored sid l' s) hs
  stored-IsGood sid l l' b s hs g found e = record {
    valid = stored-IsValid inet sid l l' b s g.valid found e;
    pending = IsPending-same s _ hs refl (omega arith) g.pending;
    same_config = g.same_config;
    small = g.small;
  }

  pub read-IsGood :
      (j : JsonLib) (hmac : Bytes → Bytes → Option Bytes) (fuel now sid : ℕ) (buf : Bytes)
      (s : Server) (hs : List Handshake)
      → IsGood s hs
      → IsGood (state_of (session_read j hmac fuel now sid buf s)) hs
  read-IsGood j hmac fuel now sid buf s hs g =
      elim (session_read-stored j hmac fuel now sid buf s) [
        | inl e ↦ rw e g
        | inr (l, found, e) ↦
            let r = on_read-IsRead j hmac fuel now buf l in
            rw e (stored-IsGood sid l _ _ s hs g found r.same_client)
      ]

  forward-IsGood :
      (sid : ℕ) (packet : Bytes) (s : Server) (hs : List Handshake)
      → IsGood s hs
      → IsGood (state_of (forward sid packet s)) hs
  forward-IsGood sid packet s hs g = elim (forward-stored sid packet s) [
    | inl e ↦ rw e g
    | inr (l, found, _, e) ↦
        rw e (stored-IsGood sid l _ _ s hs g found (send_ip_packet-client packet l))
  ]

  pub poll-IsGood :
      (poll : TunPoll) (s : Server) (hs : List Handshake)
      → IsGood s hs
      → IsGood (state_of (tun_round inet.endian poll s)) hs
  poll-IsGood poll s hs g = elim (tun_round-forward inet.endian poll s) [
    | inl e ↦ rw e g
    | inr (sid, packet, _, _, e) ↦ rw e (forward-IsGood sid packet s hs g)
  ]

  pub event-IsGood :
      (event : TransportEvent) (sid : ℕ) (s : Server) (hs : List Handshake)
      → IsGood s hs
      → IsGood (session_event event sid s) hs
  unfolding session_event
  event-IsGood event sid s hs g = elim (Option-cases (lookup sid s.sessions)) [
    | inl e ↦ rw (e, session_event) g
    | inr (l, e) ↦
        let is = (g.valid.numbers sid l e).1 in
        rw (e, session_event)
          (record {
            valid = store_session-IsValid inet sid _ l s g.valid e (record {
              id = is.id;
              ip = is.ip;
              secret = is.secret;
              callback = is.callback;
              flushed = is.flushed;
            });
            pending = IsPending-same s _ hs refl (omega arith) g.pending;
            same_config = g.same_config;
            small = g.small;
          })
  ]

  pub run-IsGood :
      (boot : Startup) (s : Server) (hs : List Handshake)
      → IsGood s hs
      → IsGood (state_of (run boot s)) hs
  run-IsGood boot s hs g =
      let (c, t, r, n, o, _) = run-IsQuiet boot s in
      record {
        valid = IsValid-same inet s _ c t r n o g.valid;
        pending = IsPending-same s _ hs c (omega (arith, n)) g.pending;
        same_config = c ∙ g.same_config;
        small = omega (arith, n, g.small);
      }

  pub stop-IsGood : (s : Server) (hs : List Handshake) → IsGood s hs → IsGood (stop s) hs
  unfolding stop
  stop-IsGood s hs g = record {
    valid = IsValid-same inet s _ refl refl refl refl refl g.valid;
    pending = IsPending-same s _ hs refl (omega arith) g.pending;
    same_config = g.same_config;
    small = g.small;
  }

  pub begun-IsGood : (machine : Machine) → IsGood (new_server machine config) []
  unfolding new_server
  begun-IsGood machine = record {
    valid = new_server-IsValid inet machine config;
    pending = tt;
    same_config = refl;
    small = omega arith;
  }
