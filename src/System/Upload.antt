-- ===== src/System/Upload.antt =====
-- A burst of packets from the device of src/client/client.cpp to that of src/server/server.cpp.
use kirdi.Base.{ℕ, zero, suc, ◌≤◌, ◌<◌, ◌≡◌, refl, ap, ◌∙◌, sym, arith, true, false, Bytes, List}
use kirdi.Base.{[], ◌∷◌, ◌++◌, Option, some, map, length, All}
use kirdi.Base.Maps.{insert, lookup, lookup-insert_self}
use kirdi.Client.{Client, send, run_posted, on_write, called_back}
use kirdi.Client.Carriage.{tun_round-send}
use kirdi.Json.{JsonLib}
use kirdi.Protocol.{MsgType, max_payload}
use kirdi.Protocol.Packet.{packet_bytes}
use kirdi.Server.{Server, session_read, store_outcome}
use kirdi.Server.Device.{TunPoll}
use kirdi.Server.Steps.{stored, store_lem}
use kirdi.Session.{Link, Outcome, returned, on_read, handle_packet, handle_ip_packet, read_again}
use kirdi.Transport.ClientTransport.{WsClientTransport}
use kirdi.Transport.ClientTransport.Burst.{IsIdle, sends, ends, burst}
use kirdi.Transport.Dispatch.{dispatch-packet}
use mathlib.Core.List.{append-nil, append_assoc}
use mathlib.Core.Path.{subst}
use kirdi.Client
use kirdi.Transport.ClientTransport
use kirdi.Transport.ServerSession

-- The messages that carry packets.
abbrev pub frames : List Bytes → List Bytes
frames ps = map (packet_bytes MsgType.ip_packet) ps

abbrev pub Fits : Bytes → Type 0
Fits p = (0 < length p) × (length p ≤ max_payload)

-- The rounds of the client's TUN thread for some packets, as long as they return.
unfoldable pub polls : List Bytes → Client → Outcome Client
polls [] c = returned c
polls (p ∷ ps) c = elim (Client.tun_round (TunPoll.readable p) c) [
  | returned c' ↦ polls ps c'
  | stuck ↦ stuck
]

pub length-frames : (ps : List Bytes) → length (frames ps) ≡ length ps
length-frames [] = refl
length-frames (p ∷ ps) = ap suc (length-frames ps)

-- So many writes of the client's transport end well.
unfoldable pub writes : ℕ → Client → Client
writes zero c = c
writes (suc n) c = writes n (on_write false c)

-- The messages that a session reads, as long as its handler returns.
unfoldable pub reads :
    (j : JsonLib) (hmac : Bytes → Bytes → Option Bytes)
    → ℕ
    → ℕ
    → ℕ
    → List Bytes
    → Server
    → Outcome Server
reads j hmac fuel now sid [] s = returned s
reads j hmac fuel now sid (m ∷ ms) s = elim (session_read j hmac fuel now sid m s) [
  | returned s' ↦ reads j hmac fuel now sid ms s'
  | stuck ↦ stuck
]

-- A client in its tunnel, with a transport that is connected.
pub record IsTunnelled (c : Client) (w : WsClientTransport) : Type 0 where
  pub running : c.running ≡ true
  pub opened : c.tun ≡ some true
  pub linked : c.ws ≡ some w
  pub connected : w.connected ≡ true

abbrev pub with_link : Client → WsClientTransport → Client
with_link c w = record c { ws = some w }

send-linked :
    (m : Bytes) (c : Client) (w : WsClientTransport)
    → c.ws ≡ some w
    → send m c ≡ with_link c (ClientTransport.send m w)
unfolding send
send-linked m c w e = ground (arith, e)

polls-sends :
    (ps : List Bytes) (c : Client) (w : WsClientTransport)
    → IsTunnelled c w
    → All Fits ps
    → polls ps c ≡ returned (with_link c (sends (frames ps) w))
unfolding polls sends
polls-sends [] c w t fits = ap (λ ws. returned (record c { ws = ws })) t.linked
polls-sends (p ∷ ps) c w t ((some_bytes, small), fits) =
    rw (tun_round-send p some_bytes small c w t.running t.opened t.linked t.connected, polls)
      (rw (send-linked (packet_bytes MsgType.ip_packet p) c w t.linked) (
        polls-sends ps (with_link c (ClientTransport.send (packet_bytes MsgType.ip_packet p) w))
          (ClientTransport.send (packet_bytes MsgType.ip_packet p) w)
          (record {
            running = t.running;
            opened = t.opened;
            linked = refl;
            connected = unfold ClientTransport.send in ground arith;
          })
          fits))

writes-ends :
    (n : ℕ) (c : Client) (w : WsClientTransport) → writes n (with_link c w) ≡ with_link c (ends n w)
unfolding writes ends on_write called_back ClientTransport.on_write
writes-ends zero c w = refl
writes-ends (suc n) c w = writes-ends n c (ClientTransport.on_write false w).0

-- A session that is authenticated, with its callbacks, on a server whose device is open.
pub record IsListening (sid : ℕ) (s : Server) : Type 0 where
  pub link : Link
  pub found : lookup sid s.sessions ≡ some link
  pub authenticated : link.client.authenticated ≡ true
  pub has_ip_callback : link.client.has_ip_callback ≡ true
  pub has_packet_callback : link.ws.has_packet_callback ≡ true
  pub flushed : link.passed ≡ []
  pub opened : s.tun ≡ some true

module _ (j : JsonLib) (hmac : Bytes → Bytes → Option Bytes) (fuel now sid : ℕ) where
  -- The session once it has passed a packet on.
  abbrev handed_over : Bytes → Link → Link
  handed_over p l = record l {
    passed = l.passed ++ ((l.client.id, p) ∷ []);
    ws = record (l.ws) { reading = true };
  }

  on_read-handed_over :
      (p : Bytes) (l : Link)
      → length p ≤ max_payload
      → l.client.authenticated ≡ true
      → l.client.has_ip_callback ≡ true
      → l.ws.has_packet_callback ≡ true
      → on_read j hmac fuel now (packet_bytes MsgType.ip_packet p) l ≡ returned (handed_over p l)
  unfolding on_read handle_packet handle_ip_packet read_again ServerSession.do_read
  on_read-handed_over p l small admitted called read_back =
      ground (arith, dispatch-packet MsgType.ip_packet p tt small)

  session_read-IsListening :
      (p : Bytes) (s : Server)
      → length p ≤ max_payload
      → IsListening sid s
      → (s' : Server) × (session_read j hmac fuel now sid (packet_bytes MsgType.ip_packet p) s
          ≡ returned s')
        × IsListening sid s'
        × (s'.tun_written ≡ s.tun_written ++ (p ∷ []))
  unfolding session_read store_outcome insert
  session_read-IsListening p s small v = (
    stored sid (handed_over p v.link) s,
    rw (v.found, session_read)
        (rw
          (
            on_read-handed_over p v.link small v.authenticated v.has_ip_callback
                v.has_packet_callback,
            store_outcome,
          )
          (ap returned (store_lem sid (handed_over p v.link) s))),
    record {
      link = record (handed_over p v.link) { passed = [] };
      found = lookup-insert_self sid sid _ s.sessions refl;
      authenticated = v.authenticated;
      has_ip_callback = v.has_ip_callback;
      has_packet_callback = v.has_packet_callback;
      flushed = refl;
      opened = v.opened;
    },
    rw (v.opened, v.flushed) refl,
  )

  reads-written :
      (ps : List Bytes) (s : Server)
      → All Fits ps
      → IsListening sid s
      → (s' : Server) × (reads j hmac fuel now sid (frames ps) s ≡ returned s')
        × IsListening sid s'
        × (s'.tun_written ≡ s.tun_written ++ ps)
  unfolding reads
  reads-written [] s fits v = (s, refl, v, sym (append-nil s.tun_written))
  reads-written (p ∷ ps) s ((_, small), fits) v =
      let (t, e, u, one) = session_read-IsListening p s small v in
      let (t', e', u', more) = reads-written ps t fits u in
      (
        t',
        rw (e, reads) e',
        u',
        more ∙ ap (λ x. x ++ ps) one ∙ append_assoc s.tun_written (p ∷ []) ps,
      )

  -- Everything arrives while nothing fails. A client is in its tunnel, and its transport is connected
  -- with nothing to write. Its device yields packets, none of them empty or longer than the maximal
  -- payload, and then its transport writes what it has. All rounds return, the wire has gained some
  -- messages, and the transport is idle again. An authenticated session, with its callbacks, that
  -- reads these messages on a server with an open device returns each time, and the device has then
  -- been given exactly the packets, in order.
  pub upload :
      (ps : List Bytes) (c : Client) (w : WsClientTransport) (s : Server)
      → IsTunnelled c w
      → IsIdle w
      → IsListening sid s
      → All Fits ps
      → (new : List Bytes) × (c' : Client) × (w' : WsClientTransport) × (s' : Server) × (polls ps c
          ≡ returned c')
        × ((writes (length ps) (run_posted c')).ws ≡ some w')
        × (w'.wire ≡ w.wire ++ new)
        × IsIdle w'
        × (reads j hmac fuel now sid new s ≡ returned s')
        × (s'.tun_written ≡ s.tun_written ++ ps)
  unfolding run_posted
  upload ps c w s t idle v fits =
      let (s', e, _, written) = reads-written ps s fits v in
      let (idle', wire) = burst (frames ps) w idle in
      let queued = sends (frames ps) w in
      (
        frames ps,
        with_link c queued,
        ends (length ps) (ClientTransport.run_posted queued),
        s',
        polls-sends ps c w t fits,
        ap (λ d. d.ws) (writes-ends (length ps) c (ClientTransport.run_posted queued)),
        subst (λ n. (ends n (ClientTransport.run_posted queued)).wire ≡ w.wire ++ frames ps)
            (length-frames ps) wire,
        subst (λ n. IsIdle (ends n (ClientTransport.run_posted queued))) (length-frames ps) idle',
        e,
        written,
      )
