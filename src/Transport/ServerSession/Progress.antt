-- ===== src/Transport/ServerSession/Progress.antt =====
-- A connected WsServerSession whose writes succeed sends all that it has taken.
use kirdi.Base.{ℕ, zero, suc, ◌+◌, ◌-◌, ◌≤◌, ◌≡◌, sym, ◌∙◌, arith, ltb, ltb→lt, if◌then◌else◌, true}
use kirdi.Base.{false, Bool-cases, Bytes, List, length, inl, inr}
use kirdi.Transport.ServerSession.{WsServerSession, run_posted, complete_write}
use kirdi.Transport.ServerSession.Order.{Runs, started, IsSerial, started-IsSerial}
use kirdi.Transport.ServerSession.Order.{started-contents, contents}
use mathlib.Core.List.{append-nil}

-- One round of the executor and of a stream on which writes succeed: the posted task runs, or the
-- write under way completes.
unfoldable pub round : WsServerSession → WsServerSession
round w = if ltb 0 w.posted then run_posted w else if w.in_flight then complete_write false w else w

unfoldable pub rounds : ℕ → WsServerSession → WsServerSession
rounds zero w = w
rounds (suc n) w = rounds n (round w)

round-Runs :
    (session_id : ℕ) (w : WsServerSession) {ms : List Bytes}
    → Runs (started session_id) w ms
    → Runs (started session_id) (round w) ms
unfolding round
round-Runs session_id w r = elim (Bool-cases (ltb 0 w.posted)) [
  | inl task ↦ rw task (Runs.ran (ltb→lt _ _ task) r)
  | inr none_posted ↦ elim (Bool-cases w.in_flight) [
    | inl flying ↦ simp (none_posted, flying) (Runs.completed false flying r)
    | inr still ↦ simp (none_posted, still) r
  ]
]

-- The rounds that are still needed.
abbrev pub pending_rounds : WsServerSession → ℕ
pending_rounds w = if w.writing then length w.write_queue + 1 else 0

round-pending_rounds :
    (w : WsServerSession)
    → IsSerial w
    → w.connected ≡ true
    → ((round w).connected ≡ true) × (pending_rounds (round w) ≤ pending_rounds w - 1)
unfolding round run_posted complete_write
round-pending_rounds w v on = ground arith

quiet-contents :
    (w : WsServerSession)
    → IsSerial w
    → w.connected ≡ true
    → w.writing ≡ false
    → contents w ≡ w.wire
quiet-contents w v on quiet = ground (arith, append-nil w.wire)

rounds_enough :
    (session_id : ℕ) (n : ℕ) (w : WsServerSession) {ms : List Bytes}
    → Runs (started session_id) w ms
    → w.connected ≡ true
    → pending_rounds w ≤ n
    → ((rounds n w).connected ≡ true) × ((rounds n w).writing ≡ false) × ((rounds n w).wire ≡ ms)
unfolding rounds
rounds_enough session_id zero w r on h =
    let quiet : w.writing ≡ false = ground arith in
    (
      on,
      quiet,
      sym (quiet-contents w (started-IsSerial session_id r) on quiet)
          ∙ started-contents session_id r,
    )
rounds_enough session_id (suc n) w r on h =
    let (on', less) = round-pending_rounds w (started-IsSerial session_id r) on in
    rounds_enough session_id n (round w) (round-Runs session_id w r) on' (omega arith)

-- No message is stuck in the queue: in every history of a session that is still connected, one
-- round more than there are queued messages puts all messages taken on the wire, in their order,
-- and leaves the session connected and not writing.
pub rounds-contents :
    (session_id : ℕ) (w : WsServerSession) {ms : List Bytes}
    → Runs (started session_id) w ms
    → w.connected ≡ true
    → let w' = rounds (length w.write_queue + 1) w in
      (w'.connected ≡ true) × (w'.writing ≡ false) × (w'.wire ≡ ms)
rounds-contents session_id w r on =
    rounds_enough session_id (length w.write_queue + 1) w r on (ground arith)
