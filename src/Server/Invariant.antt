-- ===== src/Server/Invariant.antt =====
-- The tables of src/server/server.cpp agree with one another in every history.
use kirdi.Base.{ℕ, ◌+◌, ◌^◌, ◌<◌, ◌≡◌, inl, inr, refl, ap, sym, ◌∙◌, arith, true, [], some, Bool}
use kirdi.Base.Maps.{lookup, insert, lookup-insert_cases, lookup-insert_self, lookup-insert_ne}
use kirdi.Base.Maps.{lookup-insert_found}
use kirdi.Config.{ServerConfig}
use kirdi.Inet.{Inet, InetLaws}
use kirdi.Network.{Machine}
use kirdi.Server.{Server, new_server, register_session, Handshake}
use kirdi.Server.Address.{address, address-injective, parse_address-ntop, address-lt}
use kirdi.Server.Steps.{stored}
use kirdi.Session.{Link, ClientSession, Outcome, returned, escaped, endless}
use mathlib.Core.Path.{subst, subst₂}
use kirdi.Session

module _ (inet : Inet) where
  -- The state of a session that was registered as number `sid`.
  pub record IsSession (config : ServerConfig) (sid : ℕ) (l : Link) : Type 0 where
    pub id : l.client.id ≡ sid
    pub ip : l.client.virtual_ip ≡ inet.inet_ntop (address inet config (sid + 1))
    pub secret : l.client.auth_secret ≡ config.auth_secret
    pub callback : l.client.has_ip_callback ≡ true
    pub flushed : l.passed ≡ []

  -- The counters run together, and each number below `next_session_id` stands for one address.
  pub record IsValid (s : Server) : Type 0 where
    pub counters : s.next_client_ip_offset ≡ s.next_session_id + 1
    pub numbers :
        (sid : ℕ) (l : Link)
        → lookup sid s.sessions ≡ some l
        → (sid < s.next_session_id) × IsSession s.config sid l
    pub routes :
        (a sid : ℕ)
        → lookup a s.ip_to_session ≡ some sid
        → (a ≡ address inet s.config (sid + 1)) × (l : Link) × (lookup sid s.sessions ≡ some l)
    pub routed :
        (sid : ℕ) (l : Link)
        → lookup sid s.sessions ≡ some l
        → lookup (address inet s.config (sid + 1)) s.ip_to_session ≡ some sid

  pub new_server-IsValid :
      (machine : Machine) (config : ServerConfig) → IsValid (new_server machine config)
  unfolding new_server lookup
  new_server-IsValid machine config = record {
    counters = refl;
    numbers = λ sid l e. absurd (cc);
    routes = λ a sid e. absurd (cc);
    routed = λ sid l e. absurd (cc);
  }

  -- What is not a table, a counter or the configuration does not matter.
  pub IsValid-same :
      (s t : Server)
      → t.config ≡ s.config
      → t.sessions ≡ s.sessions
      → t.ip_to_session ≡ s.ip_to_session
      → t.next_session_id ≡ s.next_session_id
      → t.next_client_ip_offset ≡ s.next_client_ip_offset
      → IsValid s
      → IsValid t
  IsValid-same s t c m r n o v = record {
    counters = o ∙ v.counters ∙ ap (λ x. x + 1) (sym n);
    numbers = λ sid l e. rw (n, c) (v.numbers sid l (rw m at e));
    routes = λ a sid e. rw (c, m) (v.routes a sid (rw r at e));
    routed = λ sid l e. rw (c, r) (v.routed sid l (rw m at e));
  }

  -- A session is stored again under its number.
  pub store_session-IsValid :
      (sid : ℕ) (l old : Link) (s : Server)
      → IsValid s
      → lookup sid s.sessions ≡ some old
      → IsSession s.config sid l
      → IsValid (record s { sessions = insert sid l s.sessions })
  store_session-IsValid sid l old s v found is = record {
    counters = v.counters;
    numbers = λ k x e. elim (lookup-insert_cases sid k l x s.sessions e) [
      | inl (p, q) ↦
          subst₂ (λ n y. (n < s.next_session_id) × IsSession s.config n y) p q
            ((v.numbers sid old found).0, is)
      | inr (_, e') ↦ v.numbers k x e'
    ];
    routes = λ a k e.
        let (p, x, e') = v.routes a k e in
        let (y, found') = lookup-insert_found sid k l x s.sessions e' in (p, y, found');
    routed = λ k x e. elim (lookup-insert_cases sid k l x s.sessions e) [
      | inl (p, _) ↦
          subst (λ n. lookup (address inet s.config (n + 1)) s.ip_to_session ≡ some n) p
            (v.routed sid old found)
      | inr (_, e') ↦ v.routed k x e'
    ];
  }

  -- A new session is entered under its number and its address.
  enter-IsValid :
      (sid : ℕ) (l : Link) (s : Server)
      → IsValid s
      → sid < s.next_session_id
      → s.next_session_id < 2 ^ 32
      → IsSession s.config sid l
      → IsValid (record s {
        sessions = insert sid l s.sessions;
        ip_to_session = insert (address inet s.config (sid + 1)) sid s.ip_to_session;
      })
  enter-IsValid sid l s v h w is = record {
    counters = v.counters;
    numbers = λ k x e. elim (lookup-insert_cases sid k l x s.sessions e) [
      | inl (p, q) ↦ subst₂ (λ n y. (n < s.next_session_id) × IsSession s.config n y) p q (h, is)
      | inr (_, e') ↦ v.numbers k x e'
    ];
    routes = λ a k e. elim (lookup-insert_cases own a sid k s.ip_to_session e) [
      | inl (p, q) ↦ (
        sym p ∙ ap (λ n. address inet s.config (n + 1)) q,
        l,
        lookup-insert_self sid k l s.sessions q,
      )
      | inr (_, e') ↦
          let (p, x, e'') = v.routes a k e' in
          let (y, found) = lookup-insert_found sid k l x s.sessions e'' in (p, y, found)
    ];
    routed = λ k x e. elim (lookup-insert_cases sid k l x s.sessions e) [
      | inl (p, _) ↦
          lookup-insert_self own (address inet s.config (k + 1)) sid s.ip_to_session
            (ap (λ n. address inet s.config (n + 1)) p)
          ∙ ap some p
      | inr (other, e') ↦
          lookup-insert_ne own (address inet s.config (k + 1)) sid s.ip_to_session (λ same. other (
            omega (
              arith,
              address-injective inet s.config (sid + 1) (k + 1) (omega arith)
                  (omega (arith, (v.numbers k x e').0)) same,
            )))
          ∙ v.routed k x e'
    ];
  }
    where
      own : ℕ
      own = address inet s.config (sid + 1)

  pub register_session-IsValid :
      (sid : ℕ) (s : Server)
      → InetLaws inet
      → IsValid s
      → sid < s.next_session_id
      → s.next_session_id < 2 ^ 32
      → IsValid (register_session inet sid (inet.inet_ntop (address inet s.config (sid + 1))) s)
  unfolding register_session Session.start Session.new_session
  register_session-IsValid sid s laws v h w =
      rw
        (parse_address-ntop inet laws (address inet s.config (sid + 1))
          (address-lt inet s.config (sid + 1)))
        (enter-IsValid sid _ s v h w
          (record { id = refl; ip = refl; secret = refl; callback = refl; flushed = refl }))

  -- A connection that is still shaking hands has its own number and the address that goes with it.
  pub record IsPending (s : Server) (h : Handshake) : Type 0 where
    pub number : h.sid < s.next_session_id
    pub ip : h.client_ip ≡ inet.inet_ntop (address inet s.config (h.sid + 1))

  -- A session with the client of a registered one, its packets passed on.
  pub IsSession-same :
      (config : ServerConfig) (sid : ℕ) (l l' : Link) (b : Bool)
      → IsSession config sid l
      → l'.client ≡ record (l.client) { authenticated = b }
      → IsSession config sid (record l' { passed = [] })
  IsSession-same config sid l l' b is e = record {
    id = ap (λ c. c.id) e ∙ is.id;
    ip = ap (λ c. c.virtual_ip) e ∙ is.ip;
    secret = ap (λ c. c.auth_secret) e ∙ is.secret;
    callback = ap (λ c. c.has_ip_callback) e ∙ is.callback;
    flushed = refl;
  }

  pub stored-IsValid :
      (sid : ℕ) (l l' : Link) (b : Bool) (s : Server)
      → IsValid s
      → lookup sid s.sessions ≡ some l
      → l'.client ≡ record (l.client) { authenticated = b }
      → IsValid (stored sid l' s)
  stored-IsValid sid l l' b s v found e =
      let is = IsSession-same s.config sid l l' b (v.numbers sid l found).1 e in
      let u = store_session-IsValid sid (record l' { passed = [] }) l s v found is in
      record { counters = u.counters; numbers = u.numbers; routes = u.routes; routed = u.routed }
