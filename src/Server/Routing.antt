-- ===== src/Server/Routing.antt =====
-- `route_to_client` of src/server/server.cpp: which session a packet of the TUN device goes to.
use kirdi.Base.{ℕ, ◌+◌, ◌≤◌, ◌≡◌, ◌≢◌, ◌⊎◌, inl, inr, refl, ap, sym, ◌∙◌, arith, true, Bytes, some}
use kirdi.Base.{length, map, [], Bool-cases, ◌==◌, ◌++◌, ◌∷◌}
use kirdi.Base.Maps.{lookup, lookup-insert_self, lookup-insert_ne}
use kirdi.Inet.{Inet}
use kirdi.Protocol.{MsgType, max_payload, ip4_dst, build_ip_packet}
use kirdi.Protocol.Packet.{packet_bytes, build_packet_fits}
use kirdi.Server.{Server, store_outcome}
use kirdi.Server.Address.{address}
use kirdi.Server.Device.{TunPoll, readable, tun_round, route_to_client, forward}
use kirdi.Server.Invariant.{IsValid}
use kirdi.Server.Steps.{stored, store_lem, written, written-nil, forward-stored, tun_round-forward}
use kirdi.Server.Steps.{send_ip_packet-client}
use kirdi.Session.{Link, returned, send_ip_packet, send_packet, send}
use kirdi.Session.Gate.{state_of}
use kirdi.Transport.{dispatch_packet}
use kirdi.Transport.Dispatch.{dispatch-packet}
use kirdi.Transport.ServerSession

module _ (inet : Inet) (packet : Bytes) (sid : ℕ) (l : Link) (s : Server) where
  -- The session with the packet behind its queue.
  abbrev pub sent_to : Link
  sent_to = record l { ws = ServerSession.send (packet_bytes MsgType.ip_packet packet) l.ws }

  pub forward-returned :
      lookup sid s.sessions ≡ some l
      → l.client.authenticated ≡ true
      → length packet ≤ max_payload
      → forward sid packet s ≡ returned (stored sid sent_to s)
  unfolding forward send_ip_packet build_ip_packet send_packet send store_outcome
  forward-returned found on fits =
      rw (found, forward)
        (simp on (
          rw (build_packet_fits MsgType.ip_packet packet fits)
            (ap returned (store_lem sid sent_to s))))

  pub tun_round-forwards :
      20 ≤ length packet
      → lookup (ip4_dst inet.endian packet) s.ip_to_session ≡ some sid
      → tun_round inet.endian (readable packet) s ≡ forward sid packet s
  unfolding tun_round route_to_client
  tun_round-forwards size found = ground (arith, found)

  queued :
      l.ws.connected ≡ true
      → (sent_to.ws.write_queue ≡ l.ws.write_queue ++ (packet_bytes MsgType.ip_packet packet ∷ []))
        × (sent_to.ws.writing ≡ true)
  unfolding ServerSession.send
  queued up = ground (arith, up)

  -- In a valid state, a packet from the TUN device, of 20 bytes or more and within the maximal
  -- payload, whose destination is the address of an authenticated session that is connected, is put
  -- at the end of that session's queue, which is marked as being written, in a packet that the
  -- receiver's `dispatch_packet` reads back; no other session changes, and nothing is written to the
  -- device.
  pub tun_round-delivers :
      IsValid inet s
      → lookup sid s.sessions ≡ some l
      → l.client.authenticated ≡ true
      → l.ws.connected ≡ true
      → ip4_dst inet.endian packet ≡ address inet s.config (sid + 1)
      → 20 ≤ length packet
      → length packet ≤ max_payload
      → (s' : Server) × (tun_round inet.endian (readable packet) s ≡ returned s')
        × (lookup sid s'.sessions ≡ some sent_to)
        × (sent_to.ws.write_queue
            ≡ l.ws.write_queue ++ (packet_bytes MsgType.ip_packet packet ∷ []))
        × (sent_to.ws.writing ≡ true)
        × ((k : ℕ) → k ≢ sid → lookup k s'.sessions ≡ lookup k s.sessions)
        × (s'.tun_written ≡ s.tun_written)
        × (dispatch_packet true (packet_bytes MsgType.ip_packet packet)
            ≡ some (record { type = MsgType.ip_packet; length = length packet }, packet))
  tun_round-delivers v found on up dst size fits = (
    stored sid sent_to s,
    tun_round-forwards size (ap (λ a. lookup a s.ip_to_session) dst ∙ v.routed sid l found)
        ∙ forward-returned found on fits,
    lookup-insert_self sid sid _ s.sessions refl
        ∙ ap (λ x. some (record sent_to { passed = x })) (sym (v.numbers sid l found).1.flushed),
    (queued up).0,
    (queued up).1,
    λ k other. lookup-insert_ne sid k _ s.sessions (λ e. other (sym e)),
    ap (λ x. written s.tun s.tun_written (map (λ p. p.1) x)) (v.numbers sid l found).1.flushed
        ∙ written-nil s.tun s.tun_written,
    dispatch-packet MsgType.ip_packet packet tt fits,
  )

same_or_other : (m n : ℕ) → (m ≡ n) ⊎ (m ≢ n)
same_or_other m n = elim (Bool-cases (m == n)) [
  | inl e ↦ inl (ground arith)
  | inr e ↦ inr (λ p. ground arith)
]

-- What a round of the loop may do to session `k`, which was `l`.
abbrev pub IsRouted : Inet → TunPoll → Server → ℕ → Link → Link → Type 0
IsRouted inet poll s k l l' =
    (packet : Bytes) × (poll ≡ readable packet)
    × (l.client.authenticated ≡ true)
    × (ip4_dst inet.endian packet ≡ address inet s.config (k + 1))
    × (l'.client ≡ l.client)

-- In a valid state, a round of the loop, whatever the device gives and however the round ends,
-- keeps every session in the table, and changes only a session that is authenticated and has the
-- destination of the packet that was read for its address; the client's state of that session
-- does not change.
pub tun_round-isolated :
    (inet : Inet) (poll : TunPoll) (k : ℕ) (l : Link) (s : Server)
    → IsValid inet s
    → lookup k s.sessions ≡ some l
    → (l' : Link) × (lookup k (state_of (tun_round inet.endian poll s)).sessions ≡ some l')
      × ((l' ≡ l) ⊎ IsRouted inet poll s k l l')
tun_round-isolated inet poll k l s v found = elim (tun_round-forward inet.endian poll s) [
  | inl e ↦ (l, rw e found, inl refl)
  | inr (sid, packet, given, routed, e) ↦ elim (forward-stored sid packet s) [
    | inl e' ↦ (l, rw (e, e') found, inl refl)
    | inr (m, found', on, e') ↦ elim (same_or_other sid k) [
      | inr other ↦ (l, rw (e, e') (lookup-insert_ne sid k _ s.sessions other ∙ found), inl refl)
      | inl same ↦
          let both : some m ≡ some l = sym found' ∙ ap (λ i. lookup i s.sessions) same ∙ found in
          let held : m ≡ l = cc in
          (
            record (state_of (send_ip_packet packet m)) { passed = [] },
            rw (e, e') (lookup-insert_self sid k _ s.sessions same),
            inr (
              packet,
              given,
              ap (λ x. x.client.authenticated) (sym held) ∙ on,
              (v.routes _ sid routed).0 ∙ ap (λ i. address inet s.config (i + 1)) same,
              send_ip_packet-client packet m ∙ ap (λ x. x.client) held,
            ),
          )
    ]
  ]
]
