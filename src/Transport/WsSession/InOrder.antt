-- ===== src/Transport/WsSession/InOrder.antt =====
-- What every class that implements IWsSession promises of the messages handed to it.
use kirdi.Base.{ℕ, ◌<◌, ◌≡◌, sym, true, Bool, Bytes, List, [], ◌∷◌, ◌++◌, if◌then◌else◌}
use kirdi.Transport.PlainServerSession.{WsPlainServerSession}
use kirdi.Transport.ServerSession.{WsServerSession}
use kirdi.Transport.ServerSession.Order.{Runs, started, started-contents, flying}
use kirdi.Transport.WsSession.{IWsSession, plain, ssl, plain-ssl}
use mathlib.Core.Path.{subst}

-- The histories of a registered session, with the messages taken on the way in order.
pub data History (D : IWsSession) (session_id : ℕ) : D.Session → List Bytes → Type 0 where
  begun : History D session_id (D.start (D.on_packet (D.construct session_id))) []
  sent :
      {w : D.Session} {ms : List Bytes} (m : Bytes)
      → History D session_id w ms
      → History D session_id (D.send m w) (ms ++ (if D.is_connected w then m ∷ [] else []))
  ran :
      {w : D.Session} {ms : List Bytes}
      → 0 < D.posted w
      → History D session_id w ms
      → History D session_id (D.run_posted w) ms
  completed :
      {w : D.Session} {ms : List Bytes} (failed : Bool)
      → D.in_flight w ≡ true
      → History D session_id w ms
      → History D session_id (D.complete_write failed w) ms
  closed :
      {w : D.Session} {ms : List Bytes}
      → History D session_id w ms
      → History D session_id (D.close w) ms
  read :
      {w : D.Session} {ms : List Bytes}
      → History D session_id w ms
      → History D session_id (D.do_read w) ms
  cut :
      {w : D.Session} {ms : List Bytes}
      → History D session_id w ms
      → History D session_id (D.read_failed w) ms

-- What was written whole, then what was lost, is a beginning of what was taken.
abbrev pub IsInOrder : IWsSession → Type 0
IsInOrder D =
    (session_id : ℕ) (w : D.Session) (ms : List Bytes)
    → History D session_id w ms
    → (rest : List Bytes) × (D.wire w ++ (D.lost w ++ rest) ≡ ms)

ssl-Runs :
    {session_id : ℕ} {w : WsServerSession} {ms : List Bytes}
    → History ssl session_id w ms
    → Runs (started session_id) w ms
ssl-Runs History.begun = Runs.here
ssl-Runs (History.sent m r) = Runs.sent m (ssl-Runs r)
ssl-Runs (History.ran h r) = Runs.ran h (ssl-Runs r)
ssl-Runs (History.completed failed h r) = Runs.completed failed h (ssl-Runs r)
ssl-Runs (History.closed r) = Runs.closed (ssl-Runs r)
ssl-Runs (History.read r) = Runs.read (ssl-Runs r)
ssl-Runs (History.cut r) = Runs.cut (ssl-Runs r)

ssl-IsInOrder : IsInOrder ssl
ssl-IsInOrder session_id w ms r =
    (flying w ++ w.write_queue, started-contents session_id (ssl-Runs r))

-- A session over a stream without TLS, in every interleaving of the threads that send, of the
-- executor and of the stream, has written and then lost, in order, the first of the messages that it
-- took while it was connected.
pub plain_order :
    (session_id : ℕ) (w : WsPlainServerSession) (ms : List Bytes)
    → History plain session_id w ms
    → (rest : List Bytes) × (w.wire ++ (w.lost ++ rest) ≡ ms)
plain_order = subst IsInOrder (sym plain-ssl) ssl-IsInOrder
