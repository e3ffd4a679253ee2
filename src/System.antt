-- ===== src/System.antt =====
-- A client of src/client/client.cpp and the server of src/server/server.cpp over the life of one
-- connection: from the registration of its session until the client connects again. The stream
-- between them hands over messages in the order in which they were written.
pub mod Holds
pub mod InOrder
pub mod Upload
pub mod Download
use kirdi.Server.Device
use kirdi.Base.{ℕ, ◌≡◌, ◌≢◌, Bool, Bytes, List, [], ◌∷◌, ◌++◌, Option, some, false, true}
use kirdi.Base.Maps.{lookup}
use kirdi.Client.{Client, on_error, stop, on_read_failed, on_write, run_posted}
use kirdi.Client.Messages.{on_read, connect_step}
use kirdi.Inet.{Inet}
use kirdi.Json.{JsonLib}
use kirdi.Server.{Server, Handshake, TransportEvent, register_session, on_accept, on_handshake}
use kirdi.Server.{session_read, session_event}
use kirdi.Server.Boot.{Startup, run}
use kirdi.Server.Device.{TunPoll}
use kirdi.Server.Outgoing.{MayOccur}
use kirdi.Session.{Link, returned}
use kirdi.Session.Gate.{state_of}
use kirdi.Transport.ClientTransport.{WsClientTransport}
use kirdi.Client
use kirdi.Server

-- One direction of the tunnel: the packets that the near device yielded, the messages that the far
-- end has read, and the packets that its device was given for them.
pub record Direction : Type 0 where
  pub sent : List Bytes
  pub read : List Bytes
  pub written : List Bytes

abbrev pub unused : Direction
unused = record { sent = []; read = []; written = [] }

module _ (inet : Inet) (j : JsonLib) (hmac : Bytes → Bytes → Option Bytes) (fuel sid : ℕ) where
  -- What the client does besides reading packets and messages, in any order.
  pub data ClientStep (c : Client) : Client → Type 0 where
    advanced :
        {c' : Client} (now : ℕ) (failed named : Bool)
        → connect_step j hmac now failed named c ≡ returned c'
        → ClientStep c c'
    posted : ClientStep c (run_posted c)
    wrote :
        (w : WsClientTransport) (failed : Bool)
        → c.ws ≡ some w
        → w.in_flight ≡ true
        → ClientStep c (on_write failed c)
    cut : ClientStep c (on_read_failed c)
    reported : ClientStep c (on_error c)
    halted : ClientStep c (Client.stop c)

  -- What the server does besides, for this session, for others and for new ones, whose numbers
  -- differ.
  pub data ServerStep (s : Server) : Server → Type 0 where
    ran : (boot : Startup) → ServerStep s (state_of (run boot s))
    accepted : (failed : Bool) → ServerStep s (on_accept inet failed s).0
    shook :
        (failed : Bool) (h : Handshake)
        → h.sid ≢ sid
        → ServerStep s (on_handshake inet failed h s).0
    received :
        {s' : Server} (now k : ℕ) (buf : Bytes)
        → k ≢ sid
        → session_read j hmac fuel now k buf s ≡ returned s'
        → ServerStep s s'
    transported :
        (event : TransportEvent) (k : ℕ)
        → ((l : Link) → lookup k s.sessions ≡ some l → MayOccur event l.ws)
        → ServerStep s (session_event event k s)
    halted : ServerStep s (Server.stop s)

  -- The life of the connection, with the traffic to the server and back.
  pub data Life : Client → Server → Direction → Direction → Type 0 where
    opened :
        (c : Client) (w : WsClientTransport) (s : Server) (client_ip : List ℕ)
        → c.ws ≡ some w
        → w.wire ≡ []
        → w.write_queue ≡ []
        → w.in_flight ≡ false
        → Life c (register_session inet sid client_ip s) unused unused
    client_stepped :
        {c c' : Client} {s : Server} {up down : Direction}
        → ClientStep c c'
        → Life c s up down
        → Life c' s up down
    client_polled :
        {c c' : Client} {s : Server} {up down : Direction} (packet : Bytes)
        → Client.tun_round (TunPoll.readable packet) c ≡ returned c'
        → Life c s up down
        → Life c' s (record up { sent = up.sent ++ (packet ∷ []) }) down
    client_read :
        {c c' : Client} {s : Server} {up down : Direction} (device_opens : Bool) (l : Link)
        (buf : Bytes) (rest given : List Bytes)
        → lookup sid s.sessions ≡ some l
        → l.ws.wire ≡ down.read ++ (buf ∷ rest)
        → on_read j hmac device_opens buf c ≡ returned c'
        → c'.tun_written ≡ c.tun_written ++ given
        → Life c s up down
        → Life c' s up
            (record down { read = down.read ++ (buf ∷ []); written = down.written ++ given })
    server_stepped :
        {c : Client} {s s' : Server} {up down : Direction}
        → ServerStep s s'
        → Life c s up down
        → Life c s' up down
    server_polled :
        {c : Client} {s s' : Server} {up down : Direction} (packet : Bytes)
        → Device.tun_round inet.endian (TunPoll.readable packet) s ≡ returned s'
        → Life c s up down
        → Life c s' up (record down { sent = down.sent ++ (packet ∷ []) })
    server_read :
        {c : Client} {s s' : Server} {up down : Direction} (now : ℕ) (w : WsClientTransport)
        (buf : Bytes) (rest given : List Bytes)
        → c.ws ≡ some w
        → w.wire ≡ up.read ++ (buf ∷ rest)
        → session_read j hmac fuel now sid buf s ≡ returned s'
        → s'.tun_written ≡ s.tun_written ++ given
        → Life c s up down
        → Life c s' (record up { read = up.read ++ (buf ∷ []); written = up.written ++ given }) down
