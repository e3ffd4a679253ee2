-- ===== src/Transport/ClientTransport.antt =====
-- WsClientTransport of src/transport/ws_transport.cpp. Each handler is one step; the resolver, the
-- stream and the executor stand as what they were asked for. `fail` calls back: a handler that ends
-- in it returns true besides.
pub mod Queue
pub mod Burst
pub mod Posting
use kirdi.Base.{ℕ, ◌+◌, ◌-◌, if◌then◌else◌, Bool, true, false, Bytes, Text, List, [], ◌∷◌, ◌++◌}

-- The asynchronous operation of `connect` that is under way, if any.
pub data Stage : Type 0 where
  idle : Stage
  resolve : Stage
  tcp_connect : Stage
  ssl_handshake : Stage
  ws_handshake : Stage

pub record WsClientTransport : Type 0 where
  pub host : Text
  pub port : ℕ
  pub path : Text
  pub connected : Bool
  pub closing : Bool
  pub write_queue : List Bytes
  pub write_pending : Bytes
  pub writing : Bool
  -- Whether `ws_` holds a stream.
  pub has_stream : Bool
  pub stage : Stage
  pub posted : ℕ
  pub in_flight : Bool
  pub reading : Bool
  pub wire : List Bytes
  pub close_frames : ℕ

unfoldable pub construct : WsClientTransport
construct = record {
  host = [];
  port = 443;
  path = [];
  connected = false;
  closing = false;
  write_queue = [];
  write_pending = [];
  writing = false;
  has_stream = false;
  stage = idle;
  posted = 0;
  in_flight = false;
  reading = false;
  wire = [];
  close_frames = 0;
}

unfoldable pub do_resolve : WsClientTransport → WsClientTransport
do_resolve w = record w { stage = resolve }

unfoldable pub connect : Text → ℕ → Text → WsClientTransport → WsClientTransport
unfolding do_resolve
connect host port path w = do_resolve (record w { host = host; port = port; path = path })

-- The transport, and whether `on_error_` is called.
unfoldable pub fail : WsClientTransport → WsClientTransport × Bool
fail w = if w.closing then (w, false) else (record w { connected = false }, true)

unfoldable pub on_resolved : Bool → WsClientTransport → WsClientTransport × Bool
unfolding fail
on_resolved true w = fail (record w { stage = idle })
on_resolved false w = (record w { has_stream = true; stage = tcp_connect }, false)

-- `named`: SSL_set_tlsext_host_name succeeds.
unfoldable pub on_tcp_connect : Bool → Bool → WsClientTransport → WsClientTransport × Bool
unfolding fail
on_tcp_connect true named w = fail (record w { stage = idle })
on_tcp_connect false false w = fail (record w { stage = idle })
on_tcp_connect false true w = (record w { stage = ssl_handshake }, false)

unfoldable pub on_ssl_handshake : Bool → WsClientTransport → WsClientTransport × Bool
unfolding fail
on_ssl_handshake true w = fail (record w { stage = idle })
on_ssl_handshake false w = (record w { stage = ws_handshake }, false)

-- `on_ws_handshake` up to the callback, if the handshake succeeded; `do_read` follows the callback.
unfoldable pub on_ws_handshake : Bool → WsClientTransport → WsClientTransport × Bool
unfolding fail
on_ws_handshake true w = fail (record w { stage = idle })
on_ws_handshake false w = (record w { connected = true; stage = idle }, false)

unfoldable pub do_read : WsClientTransport → WsClientTransport
do_read w = if w.closing then w else record w { reading = true }

unfoldable pub send : Bytes → WsClientTransport → WsClientTransport
send message w =
    let queue : List Bytes = w.write_queue ++ (message ∷ []) in
    if w.closing
    then w
    else if w.writing
    then record w { write_queue = queue }
    else record w { write_queue = queue; writing = true; posted = w.posted + 1 }

-- The error branch of `on_read`.
unfoldable pub read_failed : WsClientTransport → WsClientTransport × Bool
unfolding fail
read_failed w =
    let off : WsClientTransport = record w { connected = false; reading = false } in
    if w.closing then (off, false) else fail off

unfoldable pub next_write : List Bytes → WsClientTransport → WsClientTransport
next_write [] w = record w { writing = false }
next_write (message ∷ rest) w = record w {
  write_pending = message;
  write_queue = rest;
  in_flight = true;
}

unfoldable pub do_write : WsClientTransport → WsClientTransport
unfolding next_write
do_write w = if w.closing then w else next_write w.write_queue w

-- The executor runs a posted `do_write`.
unfoldable pub run_posted : WsClientTransport → WsClientTransport
unfolding do_write
run_posted w = do_write (record w { posted = w.posted - 1 })

-- The stream ends a write, and `on_write` follows.
unfoldable pub on_write : Bool → WsClientTransport → WsClientTransport × Bool
unfolding fail do_write
on_write true w =
    let off : WsClientTransport = record w { in_flight = false } in
    if w.closing then (off, false) else fail off
on_write false w =
    (do_write (record w { in_flight = false; wire = w.wire ++ (w.write_pending ∷ []) }), false)

unfoldable pub close : WsClientTransport → WsClientTransport
close w = if w.closing then w else record w {
  closing = true;
  connected = false;
  close_frames = if w.has_stream then w.close_frames + 1 else w.close_frames;
}

-- The operation of `connect` that is under way ends, and its handler runs.
unfoldable pub advance : Bool → Bool → WsClientTransport → WsClientTransport × Bool
unfolding on_resolved on_tcp_connect on_ssl_handshake on_ws_handshake
advance failed named w = elim w.stage [
  | idle ↦ (w, false)
  | resolve ↦ on_resolved failed w
  | tcp_connect ↦ on_tcp_connect failed named w
  | ssl_handshake ↦ on_ssl_handshake failed w
  | ws_handshake ↦ on_ws_handshake failed w
]

-- The last operation has just succeeded.
unfoldable pub just_connected : Stage → Bool → Bool
just_connected ws_handshake false = true
just_connected _ _ = false
