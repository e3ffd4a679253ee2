-- ===== src/Transport/ServerSession.antt =====
-- WsServerSession of src/transport/ws_transport.cpp. Each handler is one step: the mutex and the strand make them so. The stream
-- and the io_context stand as what they were asked for: tasks posted, a write and a read under way.
pub mod Order
pub mod Posting
pub mod Burst
pub mod Progress
pub mod Closing
use kirdi.Base.{ℕ, zero, suc, ◌+◌, ◌-◌, if◌then◌else◌, Bool, true, false, Bytes, List, [], ◌∷◌}
use kirdi.Base.{◌++◌}

pub record WsServerSession : Type 0 where
  pub session_id : ℕ
  pub connected : Bool
  pub write_queue : List Bytes
  pub write_pending : Bytes
  pub writing : Bool
  pub has_packet_callback : Bool
  -- The executor: posted calls of `do_write` that have not run.
  pub posted : ℕ
  -- The stream: a write and a read that have not completed, messages written whole, messages whose
  -- write failed, and close frames.
  pub in_flight : Bool
  pub reading : Bool
  pub wire : List Bytes
  pub lost : List Bytes
  pub close_frames : ℕ

unfoldable pub construct : ℕ → WsServerSession
construct session_id = record {
  session_id = session_id;
  connected = false;
  write_queue = [];
  write_pending = [];
  writing = false;
  has_packet_callback = false;
  posted = 0;
  in_flight = false;
  reading = false;
  wire = [];
  lost = [];
  close_frames = 0;
}

unfoldable pub on_packet : WsServerSession → WsServerSession
on_packet w = record w { has_packet_callback = true }

unfoldable pub do_read : WsServerSession → WsServerSession
do_read w = record w { reading = true }

unfoldable pub start : WsServerSession → WsServerSession
unfolding do_read
start w = do_read (record w { connected = true })

unfoldable pub send : Bytes → WsServerSession → WsServerSession
send message w =
    let queue : List Bytes = w.write_queue ++ (message ∷ []) in
    if w.connected
    then if w.writing
      then record w { write_queue = queue }
      else record w { write_queue = queue; writing = true; posted = w.posted + 1 }
    else w

-- The critical section of `do_write` and the write that it starts.
unfoldable pub next_write : List Bytes → WsServerSession → WsServerSession
next_write [] w = record w { writing = false }
next_write (message ∷ rest) w = record w {
  write_pending = message;
  write_queue = rest;
  in_flight = true;
}

unfoldable pub do_write : WsServerSession → WsServerSession
unfolding next_write
do_write w = if w.connected then next_write w.write_queue w else w

-- `failed`: the error code is set.
unfoldable pub on_write : Bool → WsServerSession → WsServerSession
unfolding do_write
on_write true w = record w { connected = false }
on_write false w = do_write w

unfoldable pub close : WsServerSession → WsServerSession
close w =
    if w.connected then record w { connected = false; close_frames = w.close_frames + 1 } else w

-- The error branch of `on_read`; `on_error_` is the log line of ClientSession.
unfoldable pub read_failed : WsServerSession → WsServerSession
read_failed w = record w { connected = false; reading = false }

-- The executor runs a posted `do_write`.
unfoldable pub run_posted : WsServerSession → WsServerSession
unfolding do_write
run_posted w = do_write (record w { posted = w.posted - 1 })

-- The stream ends a write: the message is on the wire, or lost.
unfoldable pub complete_write : Bool → WsServerSession → WsServerSession
unfolding on_write
complete_write true w =
    on_write true (record w { in_flight = false; lost = w.lost ++ (w.write_pending ∷ []) })
complete_write false w =
    on_write false (record w { in_flight = false; wire = w.wire ++ (w.write_pending ∷ []) })
