-- ===== src/Client/Carriage.antt =====
-- IP packets from the device of src/client/client.cpp to that of src/server/server.cpp, and back.
use kirdi.Server.Device
use kirdi.Base.{ℕ, ◌+◌, ◌≤◌, ◌<◌, ◌≡◌, ap, ◌∙◌, arith, true, Option, Bytes, length, [], ◌∷◌, ◌++◌}
use kirdi.Base.{some, map, Bool}
use kirdi.Base.Maps.{lookup}
use kirdi.Client.{Client, tun_round, read_again, write_tun, send, ws_is_connected, tun_is_open}
use kirdi.Client.Messages.{on_read, on_packet}
use kirdi.Inet.{Inet}
use kirdi.Json.{JsonLib}
use kirdi.Protocol.{MsgType, build_ip_packet, max_payload, ip4_dst}
use kirdi.Protocol.Packet.{packet_bytes, build_packet_fits}
use kirdi.Server.{Server, session_read}
use kirdi.Server.Address.{address}
use kirdi.Server.Device.{readable}
use kirdi.Server.Invariant.{IsValid}
use kirdi.Server.Routing.{tun_round-delivers}
use kirdi.Server.Tunnel.{session_read-tun_written}
use kirdi.Session.{Link, returned}
use kirdi.Session.Gate.{state_of, handed}
use kirdi.Transport.ClientTransport.{WsClientTransport}
use kirdi.Transport.Dispatch.{dispatch-packet}
use kirdi.Transport.ServerSession

module _ (packet : Bytes) (some_bytes : 0 < length packet)
    (fits : length packet ≤ max_payload) where
  pub tun_round-send :
      (c : Client) (w : WsClientTransport)
      → c.running ≡ true
      → c.tun ≡ some true
      → c.ws ≡ some w
      → w.connected ≡ true
      → tun_round (readable packet) c ≡ returned (send (packet_bytes MsgType.ip_packet packet) c)
  unfolding tun_round build_ip_packet tun_is_open ws_is_connected
  tun_round-send c w up opened transport on =
      ground (arith, build_packet_fits MsgType.ip_packet packet fits)

  -- A session that reads the packet writes it to the server's device.
  session_read-writes :
      (inet : Inet) (j : JsonLib) (hmac : Bytes → Bytes → Option Bytes) (fuel now sid : ℕ)
      (l : Link) (s : Server)
      → IsValid inet s
      → lookup sid s.sessions ≡ some l
      → l.client.authenticated ≡ true
      → l.ws.has_packet_callback ≡ true
      → s.tun ≡ some true
      → (state_of
          (session_read j hmac fuel now sid (packet_bytes MsgType.ip_packet packet) s)).tun_written
        ≡ s.tun_written ++ (packet ∷ [])
  session_read-writes inet j hmac fuel now sid l s v found auth called opened =
      let passed : handed j hmac fuel now (packet_bytes MsgType.ip_packet packet) l
          ≡ (l.client.id, packet) ∷ [] =
        ground (
          arith,
          dispatch-packet MsgType.ip_packet packet tt fits,
          (v.numbers sid l found).1.callback,
        ) in
      session_read-tun_written inet j hmac fuel now sid (packet_bytes MsgType.ip_packet packet) l s
        v found
      ∙ simp opened (ap (λ ps. s.tun_written ++ map (λ p. p.1) ps) passed)

  -- A client that reads the packet writes it to its device.
  on_read-writes :
      (j : JsonLib) (hmac : Bytes → Bytes → Option Bytes) (device_opens : Bool) (c : Client)
      → c.tun ≡ some true
      → (state_of
          (on_read j hmac device_opens (packet_bytes MsgType.ip_packet packet) c)).tun_written
        ≡ c.tun_written ++ (packet ∷ [])
  unfolding on_read on_packet read_again write_tun tun_is_open
  on_read-writes j hmac device_opens c opened =
      ground (arith, dispatch-packet MsgType.ip_packet packet tt fits)

-- The tunnel carries packets unchanged, both ways. A packet, not empty and within the maximal
-- payload, that the open device of a running, connected client yields is sent as one message, and a
-- server in a valid state that reads this message from an authenticated session, with its callback
-- set, writes the packet to its open device. A packet of 20 bytes or more within the maximal payload
-- that the server's device yields for the address of that session, connected, is sent to it as one message, and
-- a client that reads this message writes the packet to its open device.
pub carries :
    (inet : Inet) (j : JsonLib) (hmac : Bytes → Bytes → Option Bytes) (fuel now sid : ℕ)
    (out back : Bytes) (c : Client) (w : WsClientTransport) (l : Link) (s : Server)
    → c.running ≡ true
    → c.tun ≡ some true
    → c.ws ≡ some w
    → w.connected ≡ true
    → IsValid inet s
    → s.tun ≡ some true
    → lookup sid s.sessions ≡ some l
    → l.client.authenticated ≡ true
    → l.ws.connected ≡ true
    → l.ws.has_packet_callback ≡ true
    → 0 < length out
    → length out ≤ max_payload
    → 20 ≤ length back
    → length back ≤ max_payload
    → ip4_dst inet.endian back ≡ address inet s.config (sid + 1)
    → let sent = packet_bytes MsgType.ip_packet in
      (tun_round (readable out) c ≡ returned (send (sent out) c))
      × ((state_of (session_read j hmac fuel now sid (sent out) s)).tun_written
          ≡ s.tun_written ++ (out ∷ []))
      × ((s' : Server) × (Device.tun_round inet.endian (readable back) s ≡ returned s')
          × (lookup sid s'.sessions ≡ some (record l { ws = ServerSession.send (sent back) l.ws })))
      × ((state_of (on_read j hmac true (sent back) c)).tun_written ≡ c.tun_written ++ (back ∷ []))
carries inet j hmac fuel now sid out back c w l s up open_c transport on v open_s found auth linked
      called some_bytes fits size fits' dst =
    let (s', round, sent, _, _, _, _, _) =
      tun_round-delivers inet back sid l s v found auth linked dst size fits' in
    (
      tun_round-send out some_bytes fits c w up open_c transport on,
      session_read-writes out some_bytes fits inet j hmac fuel now sid l s v found auth called
          open_s,
      (s', round, sent),
      on_read-writes back (omega arith) fits' j hmac true c open_c,
    )
