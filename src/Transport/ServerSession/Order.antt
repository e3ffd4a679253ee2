-- ===== src/Transport/ServerSession/Order.antt =====
-- The write queue of WsServerSession over every interleaving of senders, tasks and completions.
use kirdi.Base.{ℕ, ◌+◌, ◌≤◌, ◌<◌, ◌≡◌, refl, ap, ◌∙◌, arith, if◌then◌else◌, Bool, true, false}
use kirdi.Base.{Bytes, List, [], ◌∷◌, ◌++◌, sym}
use kirdi.Transport.ServerSession.{WsServerSession, construct, on_packet, start, send, do_read}
use kirdi.Transport.ServerSession.{close, read_failed, run_posted, complete_write}
use mathlib.Core.List.{append-nil, append_assoc}

-- The messages that a call of `send` takes: none once the session is disconnected.
abbrev pub taken : Bytes → WsServerSession → List Bytes
taken message w = if w.connected then message ∷ [] else []

-- The histories from a state, with the messages taken on the way in order. A read that
-- succeeds calls back, which may send and close, and goes on.
pub data Runs (start_state : WsServerSession) : WsServerSession → List Bytes → Type 0 where
  here : Runs start_state start_state []
  sent :
      {w : WsServerSession} {ms : List Bytes} (m : Bytes)
      → Runs start_state w ms
      → Runs start_state (send m w) (ms ++ taken m w)
  ran :
      {w : WsServerSession} {ms : List Bytes}
      → 0 < w.posted
      → Runs start_state w ms
      → Runs start_state (run_posted w) ms
  completed :
      {w : WsServerSession} {ms : List Bytes} (failed : Bool)
      → w.in_flight ≡ true
      → Runs start_state w ms
      → Runs start_state (complete_write failed w) ms
  closed :
      {w : WsServerSession} {ms : List Bytes}
      → Runs start_state w ms
      → Runs start_state (close w) ms
  read :
      {w : WsServerSession} {ms : List Bytes}
      → Runs start_state w ms
      → Runs start_state (do_read w) ms
  cut :
      {w : WsServerSession} {ms : List Bytes}
      → Runs start_state w ms
      → Runs start_state (read_failed w) ms

-- The state in which `register_session` leaves the transport of a new session.
abbrev pub started : ℕ → WsServerSession
started session_id = start (on_packet (construct session_id))

-- The message that the stream is writing.
abbrev pub flying : WsServerSession → List Bytes
flying w = if w.in_flight then w.write_pending ∷ [] else []

abbrev pub running : WsServerSession → ℕ
running w = w.posted + (if w.in_flight then 1 else 0)

pub record IsSerial (w : WsServerSession) : Type 0 where
  pub one_writer : running w ≤ 1
  pub idle : w.writing ≡ false → running w ≡ 0
  pub drained : w.writing ≡ false → w.write_queue ≡ []
  pub busy : w.connected ≡ true → w.writing ≡ true → running w ≡ 1
  pub no_loss : w.connected ≡ true → w.lost ≡ []
  pub lost_last : w.in_flight ≡ true → w.lost ≡ []
  pub one_close : w.close_frames ≤ 1
  pub still_open : w.connected ≡ true → w.close_frames ≡ 0

send-IsSerial : (m : Bytes) (w : WsServerSession) → IsSerial w → IsSerial (send m w)
unfolding send
send-IsSerial m w v = ground arith

close-IsSerial : (w : WsServerSession) → IsSerial w → IsSerial (close w)
unfolding close
close-IsSerial w v = ground arith

run_posted-IsSerial : (w : WsServerSession) → 0 < w.posted → IsSerial w → IsSerial (run_posted w)
unfolding run_posted
run_posted-IsSerial w h v = ground arith

complete_write-IsSerial :
    (failed : Bool) (w : WsServerSession)
    → w.in_flight ≡ true
    → IsSerial w
    → IsSerial (complete_write failed w)
unfolding complete_write
complete_write-IsSerial true w h v = ground arith
complete_write-IsSerial false w h v = ground arith

start-IsSerial : (session_id : ℕ) → IsSerial (start (on_packet (construct session_id)))
unfolding start on_packet construct
start-IsSerial session_id = ground arith

do_read-IsSerial : (w : WsServerSession) → IsSerial w → IsSerial (do_read w)
unfolding do_read
do_read-IsSerial w v = ground arith

read_failed-IsSerial : (w : WsServerSession) → IsSerial w → IsSerial (read_failed w)
unfolding read_failed
read_failed-IsSerial w v = ground arith

pub Runs-IsSerial :
    {w₀ w : WsServerSession} {ms : List Bytes} → IsSerial w₀ → Runs w₀ w ms → IsSerial w
Runs-IsSerial v here = v
Runs-IsSerial v (sent m r) = send-IsSerial m _ (Runs-IsSerial v r)
Runs-IsSerial v (ran h r) = run_posted-IsSerial _ h (Runs-IsSerial v r)
Runs-IsSerial v (completed failed h r) = complete_write-IsSerial failed _ h (Runs-IsSerial v r)
Runs-IsSerial v (closed r) = close-IsSerial _ (Runs-IsSerial v r)
Runs-IsSerial v (read r) = do_read-IsSerial _ (Runs-IsSerial v r)
Runs-IsSerial v (cut r) = read_failed-IsSerial _ (Runs-IsSerial v r)

-- In every history of a session: at most one task or write is under way, and exactly one while a
-- connected session is writing; a session that is not writing has nothing queued and nothing under
-- way; no message is lost before the session disconnects; it sends at most one close frame, and
-- none while connected.
pub started-IsSerial :
    (session_id : ℕ) {w : WsServerSession} {ms : List Bytes}
    → Runs (started session_id) w ms
    → IsSerial w
started-IsSerial session_id r = Runs-IsSerial (start-IsSerial session_id) r

-- Every message taken: written, lost, under way or queued.
abbrev pub contents : WsServerSession → List Bytes
contents w = w.wire ++ (w.lost ++ (flying w ++ w.write_queue))

regroup {ℓ} :
    {A : Type ℓ} (a b c d e : List A) → a ++ (b ++ (c ++ (d ++ e))) ≡ (a ++ (b ++ (c ++ d))) ++ e
regroup a b c d e = simp append_assoc

pub send-contents :
    (m : Bytes) (w : WsServerSession) → contents (send m w) ≡ contents w ++ taken m w
unfolding send
send-contents m w =
    ground (arith, regroup w.wire w.lost (flying w) w.write_queue (m ∷ []), append-nil (contents w))

run_posted-contents :
    (w : WsServerSession) → 0 < w.posted → IsSerial w → contents (run_posted w) ≡ contents w
unfolding run_posted
run_posted-contents w h v = ground arith

complete_write-contents :
    (failed : Bool) (w : WsServerSession)
    → w.in_flight ≡ true
    → IsSerial w
    → contents (complete_write failed w) ≡ contents w
unfolding complete_write
complete_write-contents true w h v =
    ground (arith, append_assoc w.lost (w.write_pending ∷ []) w.write_queue)
complete_write-contents false w h v =
    ground (arith, append_assoc w.wire (w.write_pending ∷ []) w.write_queue)

do_read-contents : (w : WsServerSession) → contents (do_read w) ≡ contents w
unfolding do_read
do_read-contents w = refl

close-contents : (w : WsServerSession) → contents (close w) ≡ contents w
unfolding close
close-contents w = ground arith

read_failed-contents : (w : WsServerSession) → contents (read_failed w) ≡ contents w
unfolding read_failed
read_failed-contents w = refl

pub Runs-contents :
    {w₀ w : WsServerSession} {ms : List Bytes}
    → IsSerial w₀
    → Runs w₀ w ms
    → contents w ≡ contents w₀ ++ ms
Runs-contents {w₀} v here = sym (append-nil (contents w₀))
Runs-contents {w₀} v (sent {w} {ms} m r) =
    send-contents m w
    ∙ ap (λ x. x ++ taken m w) (Runs-contents v r)
    ∙ append_assoc (contents w₀) ms (taken m w)
Runs-contents v (ran {w} h r) = run_posted-contents w h (Runs-IsSerial v r) ∙ Runs-contents v r
Runs-contents v (completed {w} failed h r) =
    complete_write-contents failed w h (Runs-IsSerial v r) ∙ Runs-contents v r
Runs-contents v (closed {w} r) = close-contents w ∙ Runs-contents v r
Runs-contents v (read {w} r) = do_read-contents w ∙ Runs-contents v r
Runs-contents v (cut {w} r) = read_failed-contents w ∙ Runs-contents v r

-- No message is dropped, doubled or overtaken, in any history of a session: the messages written,
-- then the one that was lost, then the one under way, then the queue, are the messages taken, in
-- their order.
pub started-contents :
    (session_id : ℕ) {w : WsServerSession} {ms : List Bytes}
    → Runs (started session_id) w ms
    → w.wire ++ (w.lost ++ (flying w ++ w.write_queue)) ≡ ms
unfolding start on_packet construct
started-contents session_id r = Runs-contents (start-IsSerial session_id) r
