-- ===== src/Transport/ClientTransport/Burst.antt =====
-- WsClientTransport of src/transport/ws_transport.cpp while nothing fails: a burst of messages goes out
-- whole.
use kirdi.Base.{ℕ, zero, suc, ◌≡◌, arith, true, false, Bytes, List, [], ◌∷◌, ◌++◌, length}
use kirdi.Transport.ClientTransport.{WsClientTransport, send, run_posted, on_write, do_write}
use kirdi.Transport.ClientTransport.{next_write}
use mathlib.Core.List.{append-nil, append_assoc}

-- A connected transport with nothing to write.
pub record IsIdle (w : WsClientTransport) : Type 0 where
  pub connected : w.connected ≡ true
  pub not_closing : w.closing ≡ false
  pub quiet : w.writing ≡ false
  pub drained : w.write_queue ≡ []
  pub landed : w.in_flight ≡ false

-- Messages that are sent, one after the other.
unfoldable pub sends : List Bytes → WsClientTransport → WsClientTransport
sends [] w = w
sends (m ∷ ms) w = sends ms (send m w)

-- So many writes end well.
unfoldable pub ends : ℕ → WsClientTransport → WsClientTransport
ends zero w = w
ends (suc n) w = ends n (on_write false w).0

-- The messages queue up behind each other, and nothing else happens.
record IsQueued (wire queue : List Bytes) (w : WsClientTransport) : Type 0 where
  connected : w.connected ≡ true
  not_closing : w.closing ≡ false
  busy : w.writing ≡ true
  queued : w.write_queue ≡ queue
  written : w.wire ≡ wire

sends-IsQueued :
    (ms wire queue : List Bytes) (w : WsClientTransport)
    → IsQueued wire queue w
    → IsQueued wire (queue ++ ms) (sends ms w)
unfolding sends send
sends-IsQueued [] wire queue w v = rw (append-nil queue) v
sends-IsQueued (m ∷ ms) wire queue w v =
    rw (← append_assoc queue (m ∷ []) ms)
      (sends-IsQueued ms wire (queue ++ (m ∷ [])) (send m w) (ground arith))

-- A write is under way, with the queue behind it.
record IsWriting (wire : List Bytes) (message : Bytes) (queue : List Bytes) (w : WsClientTransport)
    : Type 0 where
  connected : w.connected ≡ true
  not_closing : w.closing ≡ false
  flying : w.in_flight ≡ true
  pending : w.write_pending ≡ message
  queued : w.write_queue ≡ queue
  written : w.wire ≡ wire

ends-IsIdle :
    (queue wire : List Bytes) (m : Bytes) (w : WsClientTransport)
    → IsWriting wire m queue w
    → IsIdle (ends (suc (length queue)) w)
      × ((ends (suc (length queue)) w).wire ≡ wire ++ (m ∷ queue))
unfolding ends on_write do_write next_write
ends-IsIdle [] wire m w v = (ground arith, ground arith)
ends-IsIdle (m' ∷ queue) wire m w v =
    rw (← append_assoc wire (m ∷ []) (m' ∷ queue))
      (ends-IsIdle queue (wire ++ (m ∷ [])) m' (on_write false w).0 (ground arith))

-- All messages of a burst are written, in order, and the transport is idle again.
pub burst :
    (ms : List Bytes) (w : WsClientTransport)
    → IsIdle w
    → let w' = ends (length ms) (run_posted (sends ms w)) in IsIdle w' × (w'.wire ≡ w.wire ++ ms)
unfolding sends run_posted do_write next_write send ends
burst [] w v = (ground arith, ground (arith, append-nil w.wire))
burst (m ∷ ms) w v =
    let q : IsQueued w.wire (m ∷ ms) (sends ms (send m w)) =
      sends-IsQueued ms w.wire (m ∷ []) (send m w) (ground arith) in
    ends-IsIdle ms w.wire m (run_posted (sends ms (send m w))) (ground arith)
