-- ===== src/Server/Outgoing.antt =====
-- The IP packets between one session and the device of src/server/server.cpp.
use kirdi.Base.{if◌then◌else◌, ℕ, ◌≡◌, ◌≢◌, refl, ap, ◌∙◌, sym, arith, Bool, true, false, Bytes}
use kirdi.Base.{List, [], ◌∷◌, ◌++◌, Option, none, some, map, Option-cases, Bool-cases, inl, inr}
use kirdi.Base.{◌==◌, ◌&&◌}
use kirdi.Base.Maps.{lookup, lookup-insert_ne, lookup-insert_self}
use kirdi.Inet.{Inet}
use kirdi.Json.{JsonLib}
use kirdi.Protocol.{PacketHeader, MsgType, Endian}
use kirdi.Server.{do_accept, register_session, Server, Handshake, TransportEvent, on_accept}
use kirdi.Server.{on_handshake, session_read, session_event, transport_event, stop}
use kirdi.Server.Boot.{Startup, run, run-IsQuiet}
use kirdi.Server.Device.{readable, tun_round, forward}
use kirdi.Server.Steps.{stored, written, session_read-found, session_read-stored, forward-stored}
use kirdi.Server.Steps.{tun_round-forward}
use kirdi.Session.{Link}
use kirdi.Session.Gate.{state_of, on_read-IsRead, handed}
use kirdi.Session.Outgoing.{outgoing, on_read-Flows, send_ip_packet-Flows}
use kirdi.Transport.{dispatch_packet}
use kirdi.Transport.Mail.{Post, Flows, packet_in, packet_of, refused}
use kirdi.Transport.ServerSession.{WsServerSession}
use kirdi.Transport.ServerSession.Posting.{post_of, run_posted-Flows, complete_write-Flows}
use kirdi.Transport.ServerSession.Posting.{read_failed-Flows}
use mathlib.Core.List.{append-nil, Sublist, nil-sublist}
use mathlib.Core.Path.{subst}
use mathlib.Core.List.Sublist

-- Session `sid` is in the table, and its transport got the new packets behind those it had.
pub record IsAt (new : List Bytes) (sid : ℕ) (p : Post) (s : Server) : Type 0 where
  pub link : Link
  pub found : lookup sid s.sessions ≡ some link
  pub flushed : link.passed ≡ []
  pub flows : Flows new p (outgoing link)

-- The stream ends a write only while one is under way.
abbrev pub MayOccur : TransportEvent → WsServerSession → Type 0
MayOccur (TransportEvent.write_ends failed) w = w.in_flight ≡ true
MayOccur _ w = Unit {0}

transport_event-Flows :
    (event : TransportEvent) (w : WsServerSession)
    → MayOccur event w
    → Flows [] (post_of w) (post_of (transport_event event w))
unfolding transport_event
transport_event-Flows TransportEvent.task w h = run_posted-Flows w
transport_event-Flows (TransportEvent.write_ends failed) w h = complete_write-Flows failed w h
transport_event-Flows TransportEvent.read_fails w h = read_failed-Flows w

written-given :
    (tun : Option Bool) (old new : List Bytes)
    → (given : List Bytes) × (written tun old new ≡ old ++ given) × Sublist given new
written-given (some true) old new = (new, refl, Sublist.refl new)
written-given (some false) old new = ([], sym (append-nil old), nil-sublist new)
written-given none old new = ([], sym (append-nil old), nil-sublist new)

-- What a session passes on of a message is the packet in it.
module _ (j : JsonLib) (hmac : Bytes → Bytes → Option Bytes) (fuel now : ℕ) (l : Link) where
  abbrev handed_of : Option (PacketHeader × Bytes) → List (ℕ × Bytes)
  handed_of d = elim d [
    | none ↦ []
    | some (hdr, payload) ↦ elim hdr.type [
      | MsgType.ip_packet ↦
          if l.client.authenticated && l.client.has_ip_callback
          then (l.client.id, payload) ∷ []
          else []
      | _ ↦ []
    ]
  ]

  handed-type :
      (type : MsgType) (size : ℕ) (payload : Bytes)
      → Sublist
          (map (λ p. p.1) (handed_of (some (record { type = type; length = size }, payload))))
          (packet_of type payload)
  handed-type MsgType.ip_packet size payload =
      elim (Bool-cases (l.client.authenticated && l.client.has_ip_callback)) [
        | inl e ↦ rw e (Sublist.refl (payload ∷ []))
        | inr e ↦ rw e (nil-sublist (payload ∷ []))
      ]
  handed-type _ size payload = Sublist.refl []

  handed-packets :
      (buf : Bytes) → Sublist (map (λ p. p.1) (handed j hmac fuel now buf l)) (packet_in buf)
  unfolding dispatch_packet
  handed-packets buf =
      elim l.ws.has_packet_callback
        as (λ b. Sublist (map (λ p. p.1) (handed_of (dispatch_packet b buf))) (packet_in buf)) [
          | false ↦ nil-sublist (packet_in buf)
          | true ↦
              elim (dispatch_packet true buf)
                as (λ d.
                  Sublist (map (λ p. p.1) (handed_of d))
                    (elim d [ none ↦ [] | some (hdr, payload) ↦ packet_of hdr.type payload ])) [
                      | none ↦ Sublist.refl []
                      | some (hdr, payload) ↦ handed-type hdr.type hdr.length payload
                    ]
        ]

module _ (sid : ℕ) (l : Link) (s : Server) (found : lookup sid s.sessions ≡ some l)
    (flushed : l.passed ≡ []) where
  -- A step that leaves the session alone.
  unmoved :
      (new : List Bytes) (s' : Server)
      → lookup sid s'.sessions ≡ some l
      → IsAt new sid (outgoing l) s'
  unmoved new s' e = record { link = l; found = e; flushed = flushed; flows = refused new _ _ }

  stored_here :
      (new : List Bytes) (l' : Link)
      → Flows new (outgoing l) (outgoing l')
      → IsAt new sid (outgoing l) (stored sid l' s)
  stored_here new l' f = record {
    link = record l' { passed = [] };
    found = lookup-insert_self sid sid (record l' { passed = [] }) s.sessions refl;
    flushed = refl;
    flows = f;
  }

  stored_other :
      (new : List Bytes) (k : ℕ) (l' : Link) → k ≢ sid → IsAt new sid (outgoing l) (stored k l' s)
  stored_other new k l' n =
      unmoved new _ (lookup-insert_ne k sid (record l' { passed = [] }) s.sessions n ∙ found)

  pub forward-IsAt :
      (k : ℕ) (packet : Bytes) → IsAt (packet ∷ []) sid (outgoing l) (state_of (forward k packet s))
  forward-IsAt k packet = elim (forward-stored k packet s) [
    | inl e ↦ rw e (unmoved (packet ∷ []) s found)
    | inr (m, at, _, e) ↦ elim (Bool-cases (k == sid)) [
      | inr other ↦ rw e (stored_other (packet ∷ []) k _ (ground (arith, other)))
      | inl here ↦
          let same : k ≡ sid = ground (arith, here) in
          let link : m ≡ l = cc in
          rw (e, same, link) (stored_here (packet ∷ []) _ (send_ip_packet-Flows packet l))
    ]
  ]

  -- A packet from the device goes behind what waits in one session, or nowhere.
  pub poll-IsAt :
      (endian : Endian) (packet : Bytes)
      → IsAt (packet ∷ []) sid (outgoing l) (state_of (tun_round endian (readable packet) s))
  poll-IsAt endian packet = elim (tun_round-forward endian (readable packet) s) [
    | inl e ↦ rw e (unmoved (packet ∷ []) s found)
    | inr (k, bytes, is, _, e) ↦
        let same : bytes ≡ packet = cc in rw (e, same) (forward-IsAt k packet)
  ]

  pub event-IsAt :
      (event : TransportEvent) (k : ℕ)
      → ((m : Link) → lookup k s.sessions ≡ some m → MayOccur event m.ws)
      → IsAt [] sid (outgoing l) (session_event event k s)
  unfolding session_event
  event-IsAt event k may = elim (Option-cases (lookup k s.sessions)) [
    | inl e ↦ rw (e, session_event) (unmoved [] s found)
    | inr (m, e) ↦ elim (Bool-cases (k == sid)) [
      | inr other ↦
          rw (e, session_event)
            (unmoved [] _ (lookup-insert_ne k sid _ s.sessions (ground (arith, other)) ∙ found))
      | inl here ↦
          let same : k ≡ sid = ground (arith, here) in
          let link : m ≡ l = cc in
          rw (e, session_event)
            (record {
              link = record m { ws = transport_event event m.ws };
              found = lookup-insert_self k sid _ s.sessions same;
              flushed = ap (λ x. x.passed) link ∙ flushed;
              flows =
                  subst (λ x. Flows [] (outgoing x) (post_of (transport_event event m.ws))) link
                    (transport_event-Flows event m.ws (may m e));
            })
    ]
  ]

  pub accept-IsAt :
      (inet : Inet) (failed : Bool) → IsAt [] sid (outgoing l) (on_accept inet failed s).0
  unfolding on_accept
  accept-IsAt inet true = unfold do_accept in unmoved [] _ found
  accept-IsAt inet false = unfold do_accept in unmoved [] _ found

  pub shake-IsAt :
      (inet : Inet) (failed : Bool) (h : Handshake)
      → h.sid ≢ sid
      → IsAt [] sid (outgoing l) (on_handshake inet failed h s).0
  unfolding on_handshake
  shake-IsAt inet true h n = unmoved [] s found
  shake-IsAt inet false h n = elim (Bool-cases h.secure) [
    | inr todo ↦ simp todo (unmoved [] s found)
    | inl done ↦ simp done (
        unfold register_session in unmoved [] _ (lookup-insert_ne h.sid sid _ s.sessions n ∙ found))
  ]

  pub run-IsAt : (boot : Startup) → IsAt [] sid (outgoing l) (state_of (run boot s))
  run-IsAt boot =
      let (_, same, _, _, _, _) = run-IsQuiet boot s in
      unmoved [] _ (ap (λ t. lookup sid t) same ∙ found)

  pub stop-IsAt : IsAt [] sid (outgoing l) (stop s)
  unfolding stop
  stop-IsAt = unmoved [] _ found

  module _ (j : JsonLib) (hmac : Bytes → Bytes → Option Bytes) (fuel now : ℕ) (buf : Bytes) where
    pub read_other-IsAt :
        (k : ℕ)
        → k ≢ sid
        → IsAt [] sid (outgoing l) (state_of (session_read j hmac fuel now k buf s))
    read_other-IsAt k n = elim (session_read-stored j hmac fuel now k buf s) [
      | inl e ↦ rw e (unmoved [] s found)
      | inr (m, _, e) ↦ rw e (stored_other [] k _ n)
    ]

    pub read-IsAt : IsAt [] sid (outgoing l) (state_of (session_read j hmac fuel now sid buf s))
    read-IsAt =
        rw (session_read-found j hmac fuel now sid buf l s found)
          (stored_here [] _ (on_read-Flows j hmac fuel now buf l))

    -- The device is given the packet of the message, or nothing.
    pub session_read-given :
        (given : List Bytes) × ((state_of (session_read j hmac fuel now sid buf s)).tun_written
          ≡ s.tun_written ++ given)
        × Sublist given (packet_in buf)
    session_read-given =
        let (given, gave, among) =
          written-given s.tun s.tun_written (map (λ p. p.1) (handed j hmac fuel now buf l)) in
        let passed =
          (on_read-IsRead j hmac fuel now buf l).passes
          ∙ ap (λ x. x ++ handed j hmac fuel now buf l) flushed in
        (
          given,
          ap (λ x. x.tun_written) (session_read-found j hmac fuel now sid buf l s found)
              ∙ ap (λ x. written s.tun s.tun_written (map (λ p. p.1) x)) passed
              ∙ gave,
          Sublist.trans among (handed-packets j hmac fuel now l buf),
        )
