-- ===== src/Transport/WsSession.antt =====
-- The interface IWsSession of src/transport/ws_transport.hpp, and its two classes.
pub mod InOrder
use kirdi.Base.{ℕ, ◌≡◌, refl, arith, Bool, Bytes, List}
use kirdi.Transport.PlainServerSession.{WsPlainServerSession}
use kirdi.Transport.ServerSession.{WsServerSession}
use std.Equiv.{◌≃◌, iso_to_equiv}
use std.Path.{PathP}
use std.Univalence.{ua}
use kirdi.Transport.PlainServerSession
use kirdi.Transport.ServerSession

-- A class that implements IWsSession: its operations, the steps that its executor and its stream
-- make it take, and what can be seen from outside: the getters, and what has become of messages.
pub record IWsSession : Type 1 where
  pub Session : Type 0
  pub construct : ℕ → Session
  pub on_packet : Session → Session
  pub start : Session → Session
  pub send : Bytes → Session → Session
  pub close : Session → Session
  pub is_connected : Session → Bool
  pub session_id : Session → ℕ
  pub do_read : Session → Session
  pub read_failed : Session → Session
  pub run_posted : Session → Session
  pub complete_write : Bool → Session → Session
  pub posted : Session → ℕ
  pub in_flight : Session → Bool
  pub reading : Session → Bool
  pub wire : Session → List Bytes
  pub lost : Session → List Bytes
  pub close_frames : Session → ℕ

-- Paths over univalence between a constructor, an operation or an observation of each of two types,
-- from their commuting with an equivalence.
module _ {A B : Type 0} (e : A ≃ B) where
  over_op :
      (f : A → A) (g : B → B) → ((x : A) → e.0 (f x) ≡ g (e.0 x)) → PathP (λ i. ua e i → ua e i) f g
  over_op f g h =
      λ i a. vin i (f a) (hcom 1 0 (g (vproj i a e)) [ i = 0 ↦ j. h a j | i = 1 ↦ _. g a ])

  over_view {ℓ} :
      {C : Type ℓ} (f : A → C) (g : B → C)
      → ((x : A) → f x ≡ g (e.0 x))
      → PathP (λ i. ua e i → C) f g
  over_view f g h = λ i a. hcom 1 0 (g (vproj i a e)) [ i = 0 ↦ j. h a j | i = 1 ↦ _. g a ]

abbrev pub plain : IWsSession
plain = record {
  Session = WsPlainServerSession;
  construct = PlainServerSession.construct;
  on_packet = PlainServerSession.on_packet;
  start = PlainServerSession.start;
  send = PlainServerSession.send;
  close = PlainServerSession.close;
  is_connected = λ w. w.connected;
  session_id = λ w. w.session_id;
  do_read = PlainServerSession.do_read;
  read_failed = PlainServerSession.read_failed;
  run_posted = PlainServerSession.run_posted;
  complete_write = PlainServerSession.complete_write;
  posted = λ w. w.posted;
  in_flight = λ w. w.in_flight;
  reading = λ w. w.reading;
  wire = λ w. w.wire;
  lost = λ w. w.lost;
  close_frames = λ w. w.close_frames;
}

abbrev pub ssl : IWsSession
ssl = record {
  Session = WsServerSession;
  construct = ServerSession.construct;
  on_packet = ServerSession.on_packet;
  start = ServerSession.start;
  send = ServerSession.send;
  close = ServerSession.close;
  is_connected = λ w. w.connected;
  session_id = λ w. w.session_id;
  do_read = ServerSession.do_read;
  read_failed = ServerSession.read_failed;
  run_posted = ServerSession.run_posted;
  complete_write = ServerSession.complete_write;
  posted = λ w. w.posted;
  in_flight = λ w. w.in_flight;
  reading = λ w. w.reading;
  wire = λ w. w.wire;
  lost = λ w. w.lost;
  close_frames = λ w. w.close_frames;
}

abbrev as_ssl : WsPlainServerSession → WsServerSession
as_ssl w = record {
  session_id = w.session_id;
  connected = w.connected;
  write_queue = w.write_queue;
  write_pending = w.write_pending;
  writing = w.writing;
  has_packet_callback = w.has_packet_callback;
  posted = w.posted;
  in_flight = w.in_flight;
  reading = w.reading;
  wire = w.wire;
  lost = w.lost;
  close_frames = w.close_frames;
}

abbrev as_plain : WsServerSession → WsPlainServerSession
as_plain w = record {
  session_id = w.session_id;
  connected = w.connected;
  write_queue = w.write_queue;
  write_pending = w.write_pending;
  writing = w.writing;
  has_packet_callback = w.has_packet_callback;
  posted = w.posted;
  in_flight = w.in_flight;
  reading = w.reading;
  wire = w.wire;
  lost = w.lost;
  close_frames = w.close_frames;
}

abbrev sessions_alike : WsPlainServerSession ≃ WsServerSession
sessions_alike =
    iso_to_equiv (record { fun = as_ssl; inv = as_plain; rinv = λ w. refl; linv = λ w. refl })

as_ssl-on_packet :
    (w : WsPlainServerSession)
    → as_ssl (PlainServerSession.on_packet w) ≡ ServerSession.on_packet (as_ssl w)
unfolding PlainServerSession.on_packet ServerSession.on_packet
as_ssl-on_packet w = ground arith

as_ssl-do_read :
    (w : WsPlainServerSession)
    → as_ssl (PlainServerSession.do_read w) ≡ ServerSession.do_read (as_ssl w)
unfolding PlainServerSession.do_read ServerSession.do_read
as_ssl-do_read w = ground arith

as_ssl-start :
    (w : WsPlainServerSession)
    → as_ssl (PlainServerSession.start w) ≡ ServerSession.start (as_ssl w)
unfolding PlainServerSession.start ServerSession.start
as_ssl-start w = ground arith

as_ssl-close :
    (w : WsPlainServerSession)
    → as_ssl (PlainServerSession.close w) ≡ ServerSession.close (as_ssl w)
unfolding PlainServerSession.close ServerSession.close
as_ssl-close w = ground arith

as_ssl-read_failed :
    (w : WsPlainServerSession)
    → as_ssl (PlainServerSession.read_failed w) ≡ ServerSession.read_failed (as_ssl w)
unfolding PlainServerSession.read_failed ServerSession.read_failed
as_ssl-read_failed w = ground arith

as_ssl-run_posted :
    (w : WsPlainServerSession)
    → as_ssl (PlainServerSession.run_posted w) ≡ ServerSession.run_posted (as_ssl w)
unfolding PlainServerSession.run_posted ServerSession.run_posted
as_ssl-run_posted w = ground arith

as_ssl-send :
    (m : Bytes) (w : WsPlainServerSession)
    → as_ssl (PlainServerSession.send m w) ≡ ServerSession.send m (as_ssl w)
unfolding PlainServerSession.send ServerSession.send
as_ssl-send m w = ground arith

as_ssl-complete_write :
    (failed : Bool) (w : WsPlainServerSession)
    → as_ssl (PlainServerSession.complete_write failed w)
      ≡ ServerSession.complete_write failed (as_ssl w)
unfolding PlainServerSession.complete_write ServerSession.complete_write
as_ssl-complete_write failed w = ground arith

-- The class over a stream without TLS and the class over TLS are one implementation of the
-- interface: there is an equivalence of their states under which every operation, every step that
-- the executor and the stream make them take, and everything seen from outside agree.
pub plain-ssl : plain ≡ ssl
unfolding PlainServerSession.construct ServerSession.construct
plain-ssl = λ i. record {
  Session = ua sessions_alike i;
  construct = λ n. vin i (PlainServerSession.construct n) (ServerSession.construct n);
  on_packet =
      over_op sessions_alike PlainServerSession.on_packet ServerSession.on_packet as_ssl-on_packet
        i;
  start = over_op sessions_alike PlainServerSession.start ServerSession.start as_ssl-start i;
  send = λ m.
      over_op sessions_alike (PlainServerSession.send m) (ServerSession.send m) (as_ssl-send m) i;
  close = over_op sessions_alike PlainServerSession.close ServerSession.close as_ssl-close i;
  is_connected = over_view sessions_alike (λ w. w.connected) (λ w. w.connected) (λ w. refl) i;
  session_id = over_view sessions_alike (λ w. w.session_id) (λ w. w.session_id) (λ w. refl) i;
  do_read =
      over_op sessions_alike PlainServerSession.do_read ServerSession.do_read as_ssl-do_read i;
  read_failed =
      over_op sessions_alike PlainServerSession.read_failed ServerSession.read_failed
        as_ssl-read_failed i;
  run_posted =
      over_op sessions_alike PlainServerSession.run_posted ServerSession.run_posted
        as_ssl-run_posted i;
  complete_write = λ failed.
      over_op sessions_alike (PlainServerSession.complete_write failed)
        (ServerSession.complete_write failed) (as_ssl-complete_write failed) i;
  posted = over_view sessions_alike (λ w. w.posted) (λ w. w.posted) (λ w. refl) i;
  in_flight = over_view sessions_alike (λ w. w.in_flight) (λ w. w.in_flight) (λ w. refl) i;
  reading = over_view sessions_alike (λ w. w.reading) (λ w. w.reading) (λ w. refl) i;
  wire = over_view sessions_alike (λ w. w.wire) (λ w. w.wire) (λ w. refl) i;
  lost = over_view sessions_alike (λ w. w.lost) (λ w. w.lost) (λ w. refl) i;
  close_frames = over_view sessions_alike (λ w. w.close_frames) (λ w. w.close_frames) (λ w. refl) i;
}
