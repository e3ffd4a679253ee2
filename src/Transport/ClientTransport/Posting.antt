-- ===== src/Transport/ClientTransport/Posting.antt =====
-- WsClientTransport of src/transport/ws_transport.cpp: its operations move packets from the queue to the
-- wire in order.
use kirdi.Base.{◌≡◌, refl, arith, Bool, true, false, Bytes, List, [], ◌∷◌, ◌++◌, ◌-◌, Bool-cases}
use kirdi.Base.{inl, inr}
use kirdi.Transport.ClientTransport.{WsClientTransport, send, close, do_read, do_write, next_write}
use kirdi.Transport.ClientTransport.{run_posted, on_write, read_failed, fail, advance, on_resolved}
use kirdi.Transport.ClientTransport.{on_tcp_connect, on_ssl_handshake, on_ws_handshake}
use kirdi.Transport.ClientTransport.Queue.{flying}
use kirdi.Transport.Mail.{Post, Flows, packet_in, kept, refused, dropped, added, passed_on}
use kirdi.Transport.Mail.{Flows-trans}
use mathlib.Core.List.{append_assoc}

abbrev pub post_of : WsClientTransport → Post
post_of w = record { wire = w.wire; waiting = flying w ++ w.write_queue }

-- An operation that leaves the queue and the wire alone.
abbrev IsAside : WsClientTransport → WsClientTransport → Type 0
IsAside w w' =
    (w'.in_flight ≡ w.in_flight)
    × (w'.write_pending ≡ w.write_pending)
    × (w'.write_queue ≡ w.write_queue)
    × (w'.wire ≡ w.wire)

IsAside-Flows : (w w' : WsClientTransport) → IsAside w w' → Flows [] (post_of w) (post_of w')
IsAside-Flows w w' (f, p, q, o) = rw (f, p, q, o) (kept _ _)

next_write-Flows :
    (queue : List Bytes) (w : WsClientTransport)
    → w.write_queue ≡ queue
    → Flows [] (post_of w) (post_of (next_write queue w))
unfolding next_write
next_write-Flows [] w e = kept _ _
next_write-Flows (m ∷ rest) w e = rw e (dropped w.wire (flying w) (m ∷ rest))

do_write-Flows : (w : WsClientTransport) → Flows [] (post_of w) (post_of (do_write w))
unfolding do_write
do_write-Flows w = elim (Bool-cases w.closing) [
  | inl e ↦ simp e (kept _ _)
  | inr e ↦ simp e (next_write-Flows w.write_queue w refl)
]

taken :
    (m : Bytes) (w : WsClientTransport)
    → Flows
        (packet_in m)
        (post_of w)
        (record { wire = w.wire; waiting = flying w ++ (w.write_queue ++ (m ∷ [])) })
taken m w =
    rw (← append_assoc (flying w) w.write_queue (m ∷ []))
      (added w.wire (flying w ++ w.write_queue) m)

pub send-Flows :
    (m : Bytes) (w : WsClientTransport) → (Flows (packet_in m) (post_of w) (post_of (send m w)))
unfolding send
send-Flows m w = elim (Bool-cases w.closing) [
  | inl off ↦ simp off (refused (packet_in m) _ _)
  | inr on ↦ elim (Bool-cases w.writing) [
    | inl busy ↦ simp (on, busy) (taken m w)
    | inr idle ↦ simp (on, idle) (taken m w)
  ]
]

pub run_posted-Flows : (w : WsClientTransport) → Flows [] (post_of w) (post_of (run_posted w))
unfolding run_posted
run_posted-Flows w = do_write-Flows (record w { posted = w.posted - 1 })

pub close-Flows : (w : WsClientTransport) → Flows [] (post_of w) (post_of (close w))
unfolding close
close-Flows w = IsAside-Flows w (close w) (ground arith)

pub do_read-Flows : (w : WsClientTransport) → Flows [] (post_of w) (post_of (do_read w))
unfolding do_read
do_read-Flows w = IsAside-Flows w (do_read w) (ground arith)

pub read_failed-Flows : (w : WsClientTransport) → Flows [] (post_of w) (post_of (read_failed w).0)
unfolding read_failed fail
read_failed-Flows w = IsAside-Flows w (read_failed w).0 (ground arith)

pub advance-Flows :
    (failed named : Bool) (w : WsClientTransport)
    → Flows [] (post_of w) (post_of (advance failed named w).0)
unfolding advance on_resolved on_tcp_connect on_ssl_handshake on_ws_handshake fail
advance-Flows failed named w = IsAside-Flows w (advance failed named w).0 (ground arith)

lost_write :
    (w : WsClientTransport)
    → w.in_flight ≡ true
    → Flows [] (post_of w) (post_of (record w { in_flight = false }))
lost_write w e = rw e (dropped w.wire (w.write_pending ∷ []) w.write_queue)

pub on_write-Flows :
    (failed : Bool) (w : WsClientTransport)
    → w.in_flight ≡ true
    → Flows [] (post_of w) (post_of (on_write failed w).0)
unfolding on_write
on_write-Flows true w e = elim (Bool-cases w.closing) [
  | inl c ↦ simp c (lost_write w e)
  | inr c ↦ simp c (lost_write w e)
]
on_write-Flows false w e =
    Flows-trans [] [] _ _ _ (rw e (passed_on w.wire w.write_queue w.write_pending))
      (do_write-Flows (record w { in_flight = false; wire = w.wire ++ (w.write_pending ∷ []) }))
