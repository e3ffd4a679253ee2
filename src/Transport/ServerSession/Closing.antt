-- ===== src/Transport/ServerSession/Closing.antt =====
-- WsServerSession once it is disconnected.
use kirdi.Base.{◌≡◌, ◌⊎◌, refl, arith, Bool, true, false, Bytes, List, [], ◌++◌, ◌∷◌}
use kirdi.Transport.ServerSession.{WsServerSession, send, do_read, close, read_failed, run_posted}
use kirdi.Transport.ServerSession.{complete_write}
use kirdi.Transport.ServerSession.Order.{Runs, taken, flying}

-- What may still happen to `before` when it is disconnected.
pub record IsOver (before w : WsServerSession) : Type 0 where
  pub off : w.connected ≡ false
  pub frames : w.close_frames ≡ before.close_frames
  pub queue : w.write_queue ≡ before.write_queue
  pub wire :
      ((w.wire ≡ before.wire)
        × (w.in_flight ≡ true)
        × (before.in_flight ≡ true)
        × (w.write_pending ≡ before.write_pending))
      ⊎ ((w.in_flight ≡ false) × ((w.wire ≡ before.wire) ⊎ (w.wire ≡ before.wire ++ flying before)))

module _ (before w : WsServerSession) (o : IsOver before w) where
  send-IsOver : (m : Bytes) → IsOver before (send m w) × (taken m w ≡ [])
  unfolding send
  send-IsOver m = ground arith

  run_posted-IsOver : IsOver before (run_posted w)
  unfolding run_posted
  run_posted-IsOver = ground arith

  complete_write-IsOver :
      (failed : Bool) → w.in_flight ≡ true → IsOver before (complete_write failed w)
  unfolding complete_write
  complete_write-IsOver true h = ground arith
  complete_write-IsOver false h = ground arith

  close-IsOver : IsOver before (close w)
  unfolding close
  close-IsOver = ground arith

  do_read-IsOver : IsOver before (do_read w)
  unfolding do_read
  do_read-IsOver = ground arith

  read_failed-IsOver : IsOver before (read_failed w)
  unfolding read_failed
  read_failed-IsOver = ground arith

here-IsOver : (w : WsServerSession) → w.connected ≡ false → IsOver w w
here-IsOver w h = ground arith

-- A disconnected session stays so and takes no message. Whatever follows, it sends no close frame
-- and starts no write: its queue stays, and the wire gains at most the message that was under way.
pub Runs-IsOver :
    {before w : WsServerSession} {ms : List Bytes}
    → before.connected ≡ false
    → Runs before w ms
    → IsOver before w × (ms ≡ [])
Runs-IsOver h Runs.here = (here-IsOver _ h, refl)
Runs-IsOver {before} h (Runs.sent {w} m r) =
    let (o, e) = Runs-IsOver h r in let (o', e') = send-IsOver before w o m in (o', rw (e, e'))
Runs-IsOver {before} h (Runs.ran {w} p r) =
    let (o, e) = Runs-IsOver h r in (run_posted-IsOver before w o, e)
Runs-IsOver {before} h (Runs.completed {w} failed p r) =
    let (o, e) = Runs-IsOver h r in (complete_write-IsOver before w o failed p, e)
Runs-IsOver {before} h (Runs.closed {w} r) =
    let (o, e) = Runs-IsOver h r in (close-IsOver before w o, e)
Runs-IsOver {before} h (Runs.read {w} r) =
    let (o, e) = Runs-IsOver h r in (do_read-IsOver before w o, e)
Runs-IsOver {before} h (Runs.cut {w} r) =
    let (o, e) = Runs-IsOver h r in (read_failed-IsOver before w o, e)

-- A message that is sent right before the session is closed stays in the queue.
pub close-send :
    (m : Bytes) (w : WsServerSession)
    → w.connected ≡ true
    → let w' = close (send m w) in
      (w'.connected ≡ false)
      × (w'.write_queue ≡ w.write_queue ++ (m ∷ []))
      × (w'.wire ≡ w.wire)
      × (flying w' ≡ flying w)
unfolding close send
close-send m w on = ground arith
