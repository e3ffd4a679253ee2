-- ===== src/Transport/ServerSession/Burst.antt =====
-- WsServerSession of src/transport/ws_transport.cpp while nothing fails: a burst of messages goes out
-- whole.
use kirdi.Base.{ℕ, zero, suc, ◌≡◌, arith, true, false, Bytes, List, [], ◌∷◌, ◌++◌, length}
use kirdi.Transport.ServerSession.{WsServerSession, send, run_posted, complete_write, on_write}
use kirdi.Transport.ServerSession.{do_write, next_write}
use mathlib.Core.List.{append-nil, append_assoc}

-- A connected transport with nothing to write.
pub record IsIdle (w : WsServerSession) : Type 0 where
  pub connected : w.connected ≡ true
  pub quiet : w.writing ≡ false
  pub drained : w.write_queue ≡ []
  pub landed : w.in_flight ≡ false

-- Messages that are sent, one after the other.
unfoldable pub sends : List Bytes → WsServerSession → WsServerSession
sends [] w = w
sends (m ∷ ms) w = sends ms (send m w)

-- So many writes end well.
unfoldable pub ends : ℕ → WsServerSession → WsServerSession
ends zero w = w
ends (suc n) w = ends n (complete_write false w)

-- The messages queue up behind each other, and nothing else happens.
record IsQueued (wire queue : List Bytes) (w : WsServerSession) : Type 0 where
  connected : w.connected ≡ true
  busy : w.writing ≡ true
  queued : w.write_queue ≡ queue
  written : w.wire ≡ wire

sends-IsQueued :
    (ms wire queue : List Bytes) (w : WsServerSession)
    → IsQueued wire queue w
    → IsQueued wire (queue ++ ms) (sends ms w)
unfolding sends send
sends-IsQueued [] wire queue w v = rw (append-nil queue) v
sends-IsQueued (m ∷ ms) wire queue w v =
    rw (← append_assoc queue (m ∷ []) ms)
      (sends-IsQueued ms wire (queue ++ (m ∷ [])) (send m w) (ground arith))

-- A write is under way, with the queue behind it.
record IsWriting (wire : List Bytes) (message : Bytes) (queue : List Bytes) (w : WsServerSession)
    : Type 0 where
  connected : w.connected ≡ true
  flying : w.in_flight ≡ true
  pending : w.write_pending ≡ message
  queued : w.write_queue ≡ queue
  written : w.wire ≡ wire

ends-IsIdle :
    (queue wire : List Bytes) (m : Bytes) (w : WsServerSession)
    → IsWriting wire m queue w
    → IsIdle (ends (suc (length queue)) w)
      × ((ends (suc (length queue)) w).wire ≡ wire ++ (m ∷ queue))
unfolding ends complete_write on_write do_write next_write
ends-IsIdle [] wire m w v = (ground arith, ground arith)
ends-IsIdle (m' ∷ queue) wire m w v =
    rw (← append_assoc wire (m ∷ []) (m' ∷ queue))
      (ends-IsIdle queue (wire ++ (m ∷ [])) m' (complete_write false w) (ground arith))

-- All messages of a burst are written, in order, and the transport is idle again.
pub burst :
    (ms : List Bytes) (w : WsServerSession)
    → IsIdle w
    → let w' = ends (length ms) (run_posted (sends ms w)) in IsIdle w' × (w'.wire ≡ w.wire ++ ms)
unfolding sends run_posted do_write next_write send ends
burst [] w v = (ground arith, ground (arith, append-nil w.wire))
burst (m ∷ ms) w v =
    let q : IsQueued w.wire (m ∷ ms) (sends ms (send m w)) =
      sends-IsQueued ms w.wire (m ∷ []) (send m w) (ground arith) in
    ends-IsIdle ms w.wire m (run_posted (sends ms (send m w))) (ground arith)
