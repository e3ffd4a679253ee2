-- ===== src/Examples/Transport.antt =====
-- Examples for WsServerSession of src/transport/ws_transport.cpp.
use kirdi.Transport.ClientTransport
use kirdi.Transport.ClientTransport.Queue
use kirdi.Base.{◌+◌, ◌≡◌, refl, arith, true, false, Bytes, List, [], ◌∷◌, ◌++◌, length, codes, ◌<◌}
use kirdi.Transport.ClientTransport.{WsClientTransport, advance, on_resolved, on_tcp_connect}
use kirdi.Transport.ClientTransport.{on_ssl_handshake, on_ws_handshake}
use kirdi.Transport.ServerSession.{WsServerSession, send, close, run_posted, start, on_packet}
use kirdi.Transport.ServerSession.{construct, complete_write}
use kirdi.Transport.ServerSession.Closing.{IsOver, Runs-IsOver}
use kirdi.Transport.ServerSession.Order.{Runs, started, contents, IsSerial, started-IsSerial}
use kirdi.Transport.ServerSession.Order.{started-contents}
use kirdi.Transport.ServerSession.Progress.{rounds, rounds-contents}

abbrev pub hello : Bytes
hello = 1 ∷ (2 ∷ [])

abbrev bye : Bytes
bye = 3 ∷ []

-- A session that was given two messages and is writing the first.
abbrev two_sent : WsServerSession
two_sent = run_posted (send bye (send hello (started 1)))

two_sent-Runs : Runs (started 1) two_sent (([] ++ (hello ∷ [])) ++ (bye ∷ []))
unfolding send run_posted start on_packet construct
two_sent-Runs = Runs.ran (omega arith) (Runs.sent bye (Runs.sent hello Runs.here))

two_sent_connected : two_sent.connected ≡ true
unfolding send run_posted start on_packet construct
two_sent_connected = refl

started-IsSerial_example : IsSerial two_sent
started-IsSerial_example = started-IsSerial 1 two_sent-Runs

started-contents_example : contents two_sent ≡ hello ∷ (bye ∷ [])
started-contents_example = started-contents 1 two_sent-Runs

rounds-contents_example :
    let w' = rounds (length two_sent.write_queue + 1) two_sent in
    (w'.connected ≡ true) × (w'.writing ≡ false) × (w'.wire ≡ hello ∷ (bye ∷ []))
rounds-contents_example = rounds-contents 1 two_sent two_sent-Runs two_sent_connected

abbrev nothing : List Bytes
nothing = []

-- The session is closed while the first message is being written; the write then ends.
abbrev shut : WsServerSession
shut = close two_sent

shut_off : shut.connected ≡ false
unfolding close
shut_off = ground (arith, two_sent_connected)

shut_flying : shut.in_flight ≡ true
unfolding close send run_posted start on_packet construct
shut_flying = refl

Runs-IsOver_example : IsOver shut (complete_write false shut) × (nothing ≡ [])
Runs-IsOver_example = Runs-IsOver shut_off (Runs.completed false shut_flying Runs.here)

-- A transport that has connected, writes a message, and loses it.
abbrev connecting : WsClientTransport
connecting =
    ClientTransport.connect (codes "vpn.example.org") 443 (codes "/tunnel/")
      ClientTransport.construct

abbrev connected : WsClientTransport
connected =
    (advance false true
      (advance false true (advance false true (advance false true connecting).0).0).0).0

abbrev writing : WsClientTransport
writing = ClientTransport.run_posted (ClientTransport.send (1 ∷ []) connected)

writing_under_way : writing.in_flight ≡ true
unfolding advance on_resolved on_tcp_connect on_ssl_handshake on_ws_handshake
    ClientTransport.connect ClientTransport.do_resolve ClientTransport.construct
    ClientTransport.run_posted ClientTransport.do_write ClientTransport.next_write
    ClientTransport.send
writing_under_way = refl

one_posted : 0 < (ClientTransport.send (1 ∷ []) connected).posted
unfolding advance on_resolved on_tcp_connect on_ssl_handshake on_ws_handshake
    ClientTransport.connect ClientTransport.do_resolve ClientTransport.construct
    ClientTransport.send
one_posted = omega arith

lost-Runs :
    Queue.Runs
      (codes "vpn.example.org")
      443
      (codes "/tunnel/")
      (ClientTransport.on_write true writing).0
      (Queue.taken (1 ∷ []) connected)
      (Queue.dropped true writing)
lost-Runs = Queue.Runs.completed true writing_under_way (
    Queue.Runs.ran one_posted (
      Queue.Runs.sent (1 ∷ []) (
        Queue.Runs.advanced false true (
          Queue.Runs.advanced false true
            (Queue.Runs.advanced false true (Queue.Runs.advanced false true Queue.Runs.begun))))))

Runs-IsAccounted_example :
    Queue.IsAccounted
      (Queue.taken (1 ∷ []) connected)
      (Queue.dropped true writing)
      (ClientTransport.on_write true writing).0
Runs-IsAccounted_example =
    Queue.Runs-IsAccounted (codes "vpn.example.org") 443 (codes "/tunnel/")
      (ClientTransport.on_write true writing).0 (Queue.taken (1 ∷ []) connected)
      (Queue.dropped true writing) lost-Runs
