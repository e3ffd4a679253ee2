-- ===== src/System/Download.antt =====
-- A burst of packets from the device of src/server/server.cpp to that of src/client/client.cpp.
use kirdi.Server.Device
use kirdi.Base.{ℕ, zero, suc, ◌≤◌, ◌≡◌, refl, ap, ◌∙◌, sym, arith, true, false, Bytes, List, []}
use kirdi.Base.{◌∷◌, ◌++◌, Option, some, length, All}
use kirdi.Base.Maps.{insert, lookup, lookup-insert_self}
use kirdi.Client.{Client, write_tun, read_again, tun_is_open}
use kirdi.Client.Messages.{on_read, on_packet}
use kirdi.Inet.{Inet}
use kirdi.Json.{JsonLib}
use kirdi.Protocol.{MsgType, max_payload, ip4_dst}
use kirdi.Protocol.Packet.{packet_bytes}
use kirdi.Server.{Server, TransportEvent, session_event, transport_event}
use kirdi.Server.Device.{TunPoll}
use kirdi.Server.Routing.{sent_to, forward-returned, tun_round-forwards}
use kirdi.Server.Steps.{stored}
use kirdi.Session.{Link, Outcome, returned}
use kirdi.Session.Gate.{state_of}
use kirdi.System.Upload.{frames, length-frames}
use kirdi.Transport.Dispatch.{dispatch-packet}
use kirdi.Transport.ServerSession.{WsServerSession, run_posted, complete_write}
use kirdi.Transport.ServerSession.Burst.{IsIdle, sends, ends, burst}
use mathlib.Core.List.{append-nil, append_assoc}
use mathlib.Core.Path.{subst}
use kirdi.Transport.ServerSession

-- The messages that the client reads, as long as its handler returns.
unfoldable pub reads :
    (j : JsonLib) (hmac : Bytes → Bytes → Option Bytes) → List Bytes → Client → Outcome Client
reads j hmac [] c = returned c
reads j hmac (m ∷ ms) c = elim (on_read j hmac true m c) [
  | returned c' ↦ reads j hmac ms c'
  | stuck ↦ stuck
]

-- So many writes of a session end well.
unfoldable pub writes : ℕ → ℕ → Server → Server
writes zero sid s = s
writes (suc n) sid s = writes n sid (session_event (TransportEvent.write_ends false) sid s)

module _ (inet : Inet) (sid : ℕ) where
  -- The rounds of the server's TUN thread for some packets, as long as they return.
  unfoldable pub polls : List Bytes → Server → Outcome Server
  polls [] s = returned s
  polls (p ∷ ps) s = elim (Device.tun_round inet.endian (TunPoll.readable p) s) [
    | returned s' ↦ polls ps s'
    | stuck ↦ stuck
  ]

  -- The routing table leads the packet, which has a header and can be sent, to the session.
  abbrev pub IsFor : Server → Bytes → Type 0
  IsFor s p =
      (20 ≤ length p)
      × (length p ≤ max_payload)
      × (lookup (ip4_dst inet.endian p) s.ip_to_session ≡ some sid)

  -- The session is authenticated, and has this transport, which is connected.
  pub record IsReady (w : WsServerSession) (s : Server) : Type 0 where
    pub link : Link
    pub found : lookup sid s.sessions ≡ some link
    pub authenticated : link.client.authenticated ≡ true
    pub transport : link.ws ≡ w

  polls-sends :
      (ps : List Bytes) (w : WsServerSession) (s : Server)
      → IsReady w s
      → All (IsFor s) ps
      → (s' : Server) × (polls ps s ≡ returned s') × IsReady (sends (frames ps) w) s'
  unfolding polls sends insert
  polls-sends [] w s v fits = (s, refl, v)
  polls-sends (p ∷ ps) w s v ((size, small, to), fits) =
      let (s', e, u) =
        polls-sends ps (ServerSession.send (packet_bytes MsgType.ip_packet p) w)
          (stored sid (sent_to inet p sid v.link s) s)
          (record {
            link = record (sent_to inet p sid v.link s) { passed = [] };
            found = lookup-insert_self sid sid _ s.sessions refl;
            authenticated = v.authenticated;
            transport = ap (ServerSession.send (packet_bytes MsgType.ip_packet p)) v.transport;
          })
          fits in
      (
        s',
        rw (tun_round-forwards inet p sid v.link s size to, polls)
            (rw (forward-returned inet p sid v.link s v.found v.authenticated small, polls) e),
        u,
      )

  event-IsReady :
      (event : TransportEvent) (w : WsServerSession) (s : Server)
      → IsReady w s
      → IsReady (transport_event event w) (session_event event sid s)
  unfolding session_event
  event-IsReady event w s v =
      rw (v.found, session_event)
        (record {
          link = record (v.link) { ws = transport_event event v.link.ws };
          found = lookup-insert_self sid sid _ s.sessions refl;
          authenticated = v.authenticated;
          transport = ap (transport_event event) v.transport;
        })

  writes-ends :
      (n : ℕ) (w : WsServerSession) (s : Server) → IsReady w s → IsReady (ends n w) (writes n sid s)
  unfolding writes ends transport_event
  writes-ends zero w s v = v
  writes-ends (suc n) w s v =
      writes-ends n (complete_write false w) _
        (event-IsReady (TransportEvent.write_ends false) w s v)

module _ (j : JsonLib) (hmac : Bytes → Bytes → Option Bytes) where
  on_read-writes :
      (p : Bytes) (c : Client)
      → length p ≤ max_payload
      → c.tun ≡ some true
      → (c' : Client) × (on_read j hmac true (packet_bytes MsgType.ip_packet p) c ≡ returned c')
        × (c'.tun ≡ some true)
        × (c'.tun_written ≡ c.tun_written ++ (p ∷ []))
  unfolding on_read on_packet read_again write_tun tun_is_open
  on_read-writes p c small opened =
      let given : Client = record c { tun_written = c.tun_written ++ (p ∷ []) } in
      (
        state_of (read_again (returned given)),
        ground (arith, dispatch-packet MsgType.ip_packet p tt small),
        ground (arith, opened),
        ground arith,
      )

  reads-written :
      (ps : List Bytes) (c : Client)
      → All (λ p. length p ≤ max_payload) ps
      → c.tun ≡ some true
      → (c' : Client) × (reads j hmac (frames ps) c ≡ returned c')
        × (c'.tun_written ≡ c.tun_written ++ ps)
  unfolding reads
  reads-written [] c fits opened = (c, refl, sym (append-nil c.tun_written))
  reads-written (p ∷ ps) c (small, fits) opened =
      let (d, e, still, one) = on_read-writes p c small opened in
      let (c', e', more) = reads-written ps d fits still in
      (c', rw (e, reads) e', more ∙ ap (λ x. x ++ ps) one ∙ append_assoc c.tun_written (p ∷ []) ps)

sizes :
    (inet : Inet) (sid : ℕ) (s : Server) (ps : List Bytes)
    → All (IsFor inet sid s) ps
    → All (λ p. length p ≤ max_payload) ps
sizes inet sid s [] h = tt
sizes inet sid s (p ∷ ps) ((_, small, _), h) = (small, sizes inet sid s ps h)

-- Everything arrives while nothing fails. A session is authenticated, and its transport is connected
-- with nothing to write. The server's device yields packets that its routing table leads to the
-- session, each with a header and within the maximal payload, and then the session's transport writes
-- what it has. All rounds return, the wire has gained some messages, and the transport is idle again.
-- A client with an open device that reads these messages returns each time, and its device has then
-- been given exactly the packets, in order.
pub download :
    (inet : Inet) (j : JsonLib) (hmac : Bytes → Bytes → Option Bytes) (sid : ℕ) (ps : List Bytes)
    (w : WsServerSession) (s : Server) (c : Client)
    → IsReady inet sid w s
    → IsIdle w
    → c.tun ≡ some true
    → All (IsFor inet sid s) ps
    → (new : List Bytes) × (s' : Server) × (w' : WsServerSession) × (c' : Client) × (polls inet sid
          ps s
        ≡ returned s')
      × IsReady inet sid w' (writes (length ps) sid (session_event TransportEvent.task sid s'))
      × (w'.wire ≡ w.wire ++ new)
      × IsIdle w'
      × (reads j hmac new c ≡ returned c')
      × (c'.tun_written ≡ c.tun_written ++ ps)
unfolding transport_event
download inet j hmac sid ps w s c v idle opened fits =
    let (s', e, u) = polls-sends inet sid ps w s v fits in
    let (c', e', written) = reads-written j hmac ps c (sizes inet sid s ps fits) opened in
    let (idle', wire) = burst (frames ps) w idle in
    let queued = sends (frames ps) w in
    (
      frames ps,
      s',
      ends (length ps) (run_posted queued),
      c',
      e,
      writes-ends inet sid (length ps) (run_posted queued) _
          (event-IsReady inet sid TransportEvent.task queued s' u),
      subst (λ n. (ends n (run_posted queued)).wire ≡ w.wire ++ frames ps) (length-frames ps) wire,
      subst (λ n. IsIdle (ends n (run_posted queued))) (length-frames ps) idle',
      e',
      written,
    )
