-- ===== src/Server/Steps.antt =====
-- The steps of src/server/server.cpp as changes of the session table and of what was written to
-- the TUN device.
use kirdi.Base.{ℕ, ◌≡◌, ◌⊎◌, inl, inr, arith, Bool, true, false, Bytes, List, [], ◌++◌, Option}
use kirdi.Base.{none, some, map, Option-cases, Bool-cases, refl, ltb, length, ◌∷◌}
use kirdi.Base.Maps.{lookup, insert}
use kirdi.Json.{JsonLib}
use kirdi.Protocol.{Endian, ip4_dst, build_ip_packet}
use kirdi.Server.{Server, write_tun, store, store_outcome, session_read}
use kirdi.Server.Device.{TunPoll, quiet, failed, readable, tun_round, route_to_client, forward}
use kirdi.Session.{Link, Outcome, returned, escaped, endless, on_read, send_ip_packet}
use kirdi.Session.Gate.{state_of, send_packet-IsGated}
use mathlib.Core.List.{append-nil}

-- What the device has been given once some packets are written to it: it takes them if it is open.
abbrev pub written : Option Bool → List Bytes → List Bytes → List Bytes
written (some true) old new = old ++ new
written (some false) old new = old
written none old new = old

pub written-nil : (tun : Option Bool) (old : List Bytes) → written tun old [] ≡ old
written-nil (some true) old = append-nil old
written-nil (some false) old = refl
written-nil none old = refl

-- The server with a session stored again, its packets passed on.
abbrev pub stored : ℕ → Link → Server → Server
stored sid l s = record s {
  sessions = insert sid (record l { passed = [] }) s.sessions;
  tun_written = written s.tun s.tun_written (map (λ p. p.1) l.passed);
}

pub store_lem : (sid : ℕ) (l : Link) (s : Server) → store sid l s ≡ stored sid l s
unfolding store write_tun
store_lem sid l s = ground arith

state_of-store_outcome :
    (sid : ℕ) (s : Server) (r : Outcome Link)
    → state_of (store_outcome sid s r) ≡ stored sid (state_of r) s
unfolding store_outcome
state_of-store_outcome sid s (returned l) = store_lem sid l s
state_of-store_outcome sid s (escaped e l) = store_lem sid l s
state_of-store_outcome sid s (endless l) = store_lem sid l s

pub session_read-found :
    (j : JsonLib) (hmac : Bytes → Bytes → Option Bytes) (fuel now sid : ℕ) (buf : Bytes) (l : Link)
    (s : Server)
    → lookup sid s.sessions ≡ some l
    → state_of (session_read j hmac fuel now sid buf s)
      ≡ stored sid (state_of (on_read j hmac fuel now buf l)) s
unfolding session_read
session_read-found j hmac fuel now sid buf l s e =
    rw (e, session_read) (state_of-store_outcome sid s _)

-- A message of a session, and a packet for one, change nothing where the number is not in the
-- table, and store the session again where it is.
pub session_read-stored :
    (j : JsonLib) (hmac : Bytes → Bytes → Option Bytes) (fuel now sid : ℕ) (buf : Bytes)
    (s : Server)
    → (state_of (session_read j hmac fuel now sid buf s) ≡ s)
      ⊎ ((l : Link) × (lookup sid s.sessions ≡ some l)
          × (state_of (session_read j hmac fuel now sid buf s)
              ≡ stored sid (state_of (on_read j hmac fuel now buf l)) s))
unfolding session_read
session_read-stored j hmac fuel now sid buf s = elim (Option-cases (lookup sid s.sessions)) [
  | inl e ↦ inl (rw (e, session_read))
  | inr (l, e) ↦ inr (l, e, session_read-found j hmac fuel now sid buf l s e)
]

pub forward-stored :
    (sid : ℕ) (packet : Bytes) (s : Server)
    → (state_of (forward sid packet s) ≡ s)
      ⊎ ((l : Link) × (lookup sid s.sessions ≡ some l)
          × (l.client.authenticated ≡ true)
          × (state_of (forward sid packet s) ≡ stored sid (state_of (send_ip_packet packet l)) s))
unfolding forward
forward-stored sid packet s = elim (Option-cases (lookup sid s.sessions)) [
  | inl e ↦ inl (rw (e, forward))
  | inr (l, e) ↦ elim (Bool-cases l.client.authenticated) [
    | inr off ↦ inl (rw (e, forward) (simp off))
    | inl on ↦ inr (l, e, on, rw (e, forward) (simp on (state_of-store_outcome sid s _)))
  ]
]

pub send_ip_packet-client :
    (packet : Bytes) (l : Link)
    → (state_of (send_ip_packet packet l)).client
      ≡ record (l.client) { authenticated = l.client.authenticated }
unfolding send_ip_packet
send_ip_packet-client packet l = (send_packet-IsGated (build_ip_packet packet) l).same_client

pub send_ip_packet-passed :
    (packet : Bytes) (l : Link) → (state_of (send_ip_packet packet l)).passed ≡ l.passed
unfolding send_ip_packet
send_ip_packet-passed packet l = (send_packet-IsGated (build_ip_packet packet) l).same_passed

-- A round of the loop either does nothing, or forwards a packet of 20 bytes or more to the session
-- that the table has for its destination.
pub tun_round-forward :
    (e : Endian) (poll : TunPoll) (s : Server)
    → (state_of (tun_round e poll s) ≡ s)
      ⊎ ((sid : ℕ) × (bytes : Bytes) × (poll ≡ readable bytes)
          × (lookup (ip4_dst e bytes) s.ip_to_session ≡ some sid)
          × (state_of (tun_round e poll s) ≡ state_of (forward sid bytes s)))
unfolding tun_round
tun_round-forward e quiet s = inl refl
tun_round-forward e failed s = inl refl
tun_round-forward e (readable []) s = inl refl
tun_round-forward e (readable (b ∷ bs)) s = elim (Bool-cases (ltb (length (b ∷ bs)) 20)) [
  | inl short ↦ inl (rw (short, route_to_client))
  | inr long ↦ elim (Option-cases (lookup (ip4_dst e (b ∷ bs)) s.ip_to_session)) [
    | inl missing ↦ inl (rw (long, route_to_client) (rw (missing, route_to_client)))
    | inr (sid, found) ↦
        inr (sid, b ∷ bs, refl, found, rw (long, route_to_client) (rw (found, route_to_client)))
  ]
]
