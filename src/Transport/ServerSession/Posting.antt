-- ===== src/Transport/ServerSession/Posting.antt =====
-- WsServerSession of src/transport/ws_transport.cpp: its operations move packets from the queue to the
-- wire in order.
use kirdi.Base.{◌≡◌, refl, arith, Bool, true, false, Bytes, List, [], ◌∷◌, ◌++◌, ◌-◌, Bool-cases}
use kirdi.Base.{inl, inr}
use kirdi.Transport.Mail.{Post, Flows, packet_in, kept, refused, dropped, added, passed_on}
use kirdi.Transport.Mail.{Flows-trans}
use kirdi.Transport.ServerSession.{WsServerSession, send, close, do_read, do_write, next_write}
use kirdi.Transport.ServerSession.{run_posted, on_write, read_failed, complete_write}
use kirdi.Transport.ServerSession.Order.{flying}
use mathlib.Core.List.{append_assoc}

abbrev pub post_of : WsServerSession → Post
post_of w = record { wire = w.wire; waiting = flying w ++ w.write_queue }

-- An operation that leaves the queue and the wire alone.
abbrev IsAside : WsServerSession → WsServerSession → Type 0
IsAside w w' =
    (w'.in_flight ≡ w.in_flight)
    × (w'.write_pending ≡ w.write_pending)
    × (w'.write_queue ≡ w.write_queue)
    × (w'.wire ≡ w.wire)

IsAside-Flows : (w w' : WsServerSession) → IsAside w w' → Flows [] (post_of w) (post_of w')
IsAside-Flows w w' (f, p, q, o) = rw (f, p, q, o) (kept _ _)

next_write-Flows :
    (queue : List Bytes) (w : WsServerSession)
    → w.write_queue ≡ queue
    → Flows [] (post_of w) (post_of (next_write queue w))
unfolding next_write
next_write-Flows [] w e = kept _ _
next_write-Flows (m ∷ rest) w e = rw e (dropped w.wire (flying w) (m ∷ rest))

do_write-Flows : (w : WsServerSession) → Flows [] (post_of w) (post_of (do_write w))
unfolding do_write
do_write-Flows w = elim (Bool-cases w.connected) [
  | inl e ↦ simp e (next_write-Flows w.write_queue w refl)
  | inr e ↦ simp e (kept _ _)
]

taken :
    (m : Bytes) (w : WsServerSession)
    → Flows
        (packet_in m)
        (post_of w)
        (record { wire = w.wire; waiting = flying w ++ (w.write_queue ++ (m ∷ [])) })
taken m w =
    rw (← append_assoc (flying w) w.write_queue (m ∷ []))
      (added w.wire (flying w ++ w.write_queue) m)

pub send-Flows :
    (m : Bytes) (w : WsServerSession) → (Flows (packet_in m) (post_of w) (post_of (send m w)))
unfolding send
send-Flows m w = elim (Bool-cases w.connected) [
  | inr off ↦ simp off (refused (packet_in m) _ _)
  | inl on ↦ elim (Bool-cases w.writing) [
    | inl busy ↦ simp (on, busy) (taken m w)
    | inr idle ↦ simp (on, idle) (taken m w)
  ]
]

pub run_posted-Flows : (w : WsServerSession) → Flows [] (post_of w) (post_of (run_posted w))
unfolding run_posted
run_posted-Flows w = do_write-Flows (record w { posted = w.posted - 1 })

pub close-Flows : (w : WsServerSession) → Flows [] (post_of w) (post_of (close w))
unfolding close
close-Flows w = IsAside-Flows w (close w) (ground arith)

pub do_read-Flows : (w : WsServerSession) → Flows [] (post_of w) (post_of (do_read w))
unfolding do_read
do_read-Flows w = IsAside-Flows w (do_read w) (ground arith)

pub read_failed-Flows : (w : WsServerSession) → Flows [] (post_of w) (post_of (read_failed w))
unfolding read_failed
read_failed-Flows w = IsAside-Flows w (read_failed w) (ground arith)

pub complete_write-Flows :
    (failed : Bool) (w : WsServerSession)
    → w.in_flight ≡ true
    → Flows [] (post_of w) (post_of (complete_write failed w))
unfolding complete_write on_write
complete_write-Flows true w e = rw e (dropped w.wire (w.write_pending ∷ []) w.write_queue)
complete_write-Flows false w e =
    Flows-trans [] [] _ _ _ (rw e (passed_on w.wire w.write_queue w.write_pending))
      (do_write-Flows (record w { in_flight = false; wire = w.wire ++ (w.write_pending ∷ []) }))
