-- ===== src/Transport/ClientTransport/Queue.antt =====
-- The write queue of WsClientTransport over every interleaving of senders, tasks and completions.
use kirdi.Base.{ℕ, ◌+◌, ◌≤◌, ◌<◌, ◌≡◌, arith, if◌then◌else◌, Bool, true, false, Bytes, Text, List}
use kirdi.Base.{[], ◌∷◌, ◌++◌, length}
use kirdi.Transport.ClientTransport.{WsClientTransport, construct, connect, send, close, do_read}
use kirdi.Transport.ClientTransport.{read_failed, run_posted, on_write, advance, do_write, fail}
use kirdi.Transport.ClientTransport.{on_resolved, on_tcp_connect, next_write, on_ssl_handshake}
use kirdi.Transport.ClientTransport.{on_ws_handshake, do_resolve}
use mathlib.Core.List.{append-nil, append_assoc}

-- The messages that a call of `send` takes, and that the end of a write loses.
abbrev pub taken : Bytes → WsClientTransport → List Bytes
taken message w = if w.closing then [] else message ∷ []

abbrev pub dropped : Bool → WsClientTransport → List Bytes
dropped failed w = if failed then w.write_pending ∷ [] else []

-- The histories of a transport that connects, with the messages taken and the messages lost.
pub data Runs (host : Text) (port : ℕ) (path : Text)
    : WsClientTransport → List Bytes → List Bytes → Type 0 where
  begun : Runs host port path (connect host port path construct) [] []
  advanced :
      {w : WsClientTransport} {ms lost : List Bytes} (failed named : Bool)
      → Runs host port path w ms lost
      → Runs host port path (advance failed named w).0 ms lost
  sent :
      {w : WsClientTransport} {ms lost : List Bytes} (m : Bytes)
      → Runs host port path w ms lost
      → Runs host port path (send m w) (ms ++ taken m w) lost
  ran :
      {w : WsClientTransport} {ms lost : List Bytes}
      → 0 < w.posted
      → Runs host port path w ms lost
      → Runs host port path (run_posted w) ms lost
  completed :
      {w : WsClientTransport} {ms lost : List Bytes} (failed : Bool)
      → w.in_flight ≡ true
      → Runs host port path w ms lost
      → Runs host port path (on_write failed w).0 ms (lost ++ dropped failed w)
  closed :
      {w : WsClientTransport} {ms lost : List Bytes}
      → Runs host port path w ms lost
      → Runs host port path (close w) ms lost
  read :
      {w : WsClientTransport} {ms lost : List Bytes}
      → Runs host port path w ms lost
      → Runs host port path (do_read w) ms lost
  cut :
      {w : WsClientTransport} {ms lost : List Bytes}
      → Runs host port path w ms lost
      → Runs host port path (read_failed w).0 ms lost

-- The message that the stream is writing.
abbrev pub flying : WsClientTransport → List Bytes
flying w = if w.in_flight then w.write_pending ∷ [] else []

abbrev pub running : WsClientTransport → ℕ
running w = w.posted + (if w.in_flight then 1 else 0)

pub record IsAccounted (ms lost : List Bytes) (w : WsClientTransport) : Type 0 where
  pub one_writer : running w + length lost ≤ 1
  pub idle : w.writing ≡ false → running w + length lost ≡ 0
  pub drained : w.writing ≡ false → w.write_queue ≡ []
  pub accounted : w.wire ++ (lost ++ (flying w ++ w.write_queue)) ≡ ms

-- What the queue does not depend on.
abbrev IsAside : WsClientTransport → WsClientTransport → Type 0
IsAside w w' =
    (w'.posted ≡ w.posted)
    × (w'.in_flight ≡ w.in_flight)
    × (w'.writing ≡ w.writing)
    × (w'.write_queue ≡ w.write_queue)
    × (w'.write_pending ≡ w.write_pending)
    × (w'.wire ≡ w.wire)

IsAside-IsAccounted :
    (ms lost : List Bytes) (w w' : WsClientTransport)
    → IsAside w w'
    → IsAccounted ms lost w
    → IsAccounted ms lost w'
IsAside-IsAccounted ms lost w w' (p, f, r, q, n, o) v = ground arith

advance-IsAside :
    (failed named : Bool) (w : WsClientTransport) → IsAside w (advance failed named w).0
unfolding advance on_resolved on_tcp_connect on_ssl_handshake on_ws_handshake fail
advance-IsAside failed named w = ground arith

close-IsAside : (w : WsClientTransport) → IsAside w (close w)
unfolding close
close-IsAside w = ground arith

do_read-IsAside : (w : WsClientTransport) → IsAside w (do_read w)
unfolding do_read
do_read-IsAside w = ground arith

read_failed-IsAside : (w : WsClientTransport) → IsAside w (read_failed w).0
unfolding read_failed fail
read_failed-IsAside w = ground arith

regroup {ℓ} :
    {A : Type ℓ} (a b c d e : List A) → a ++ (b ++ (c ++ (d ++ e))) ≡ (a ++ (b ++ (c ++ d))) ++ e
regroup a b c d e = simp append_assoc

send-IsAccounted :
    (m : Bytes) (ms lost : List Bytes) (w : WsClientTransport)
    → IsAccounted ms lost w
    → IsAccounted (ms ++ taken m w) lost (send m w)
unfolding send
send-IsAccounted m ms lost w v =
    ground (arith, regroup w.wire lost (flying w) w.write_queue (m ∷ []), append-nil ms)

run_posted-IsAccounted :
    (ms lost : List Bytes) (w : WsClientTransport)
    → 0 < w.posted
    → IsAccounted ms lost w
    → IsAccounted ms lost (run_posted w)
unfolding run_posted do_write next_write
run_posted-IsAccounted ms lost w h v = ground arith

on_write-IsAccounted :
    (failed : Bool) (ms lost : List Bytes) (w : WsClientTransport)
    → w.in_flight ≡ true
    → IsAccounted ms lost w
    → IsAccounted ms (lost ++ dropped failed w) (on_write failed w).0
unfolding on_write do_write next_write fail
on_write-IsAccounted true ms [] w h v = ground arith
on_write-IsAccounted false ms [] w h v =
    ground (arith, append_assoc w.wire (w.write_pending ∷ []) w.write_queue)
on_write-IsAccounted failed ms (x ∷ lost) w h v = absurd (ground (arith, v.one_writer))

begun-IsAccounted :
    (host : Text) (port : ℕ) (path : Text) → IsAccounted [] [] (connect host port path construct)
unfolding connect construct do_resolve
begun-IsAccounted host port path = ground arith

-- In every history of a client's transport, whatever its threads, the executor and the stream do:
-- the messages written, then those lost, then the one under way, then the queue, are the messages
-- taken, in their order; at most one task or write is under way; at most one message is lost, and
-- once it is, no task and no write is under way again; and a transport that is not writing has
-- nothing queued.
pub Runs-IsAccounted :
    (host : Text) (port : ℕ) (path : Text) (w : WsClientTransport) (ms lost : List Bytes)
    → Runs host port path w ms lost
    → IsAccounted ms lost w
Runs-IsAccounted host port path w ms lost r = go r
  where
    go :
        {w : WsClientTransport} {ms lost : List Bytes}
        → Runs host port path w ms lost
        → IsAccounted ms lost w
    go Runs.begun = begun-IsAccounted host port path
    go (Runs.advanced {w} {ms} {lost} failed named r) =
        IsAside-IsAccounted ms lost w _ (advance-IsAside failed named w) (go r)
    go (Runs.sent {w} {ms} {lost} m r) = send-IsAccounted m ms lost w (go r)
    go (Runs.ran {w} {ms} {lost} h r) = run_posted-IsAccounted ms lost w h (go r)
    go (Runs.completed {w} {ms} {lost} failed h r) = on_write-IsAccounted failed ms lost w h (go r)
    go (Runs.closed {w} {ms} {lost} r) = IsAside-IsAccounted ms lost w _ (close-IsAside w) (go r)
    go (Runs.read {w} {ms} {lost} r) = IsAside-IsAccounted ms lost w _ (do_read-IsAside w) (go r)
    go (Runs.cut {w} {ms} {lost} r) = IsAside-IsAccounted ms lost w _ (read_failed-IsAside w) (go r)
