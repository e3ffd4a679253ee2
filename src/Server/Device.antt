-- ===== src/Server/Device.antt =====
-- The TUN thread of src/server/server.cpp.
use kirdi.Base.{ℕ, ltb, if◌then◌else◌, Bool, true, false, Bytes, length, is_empty, List, [], ◌∷◌}
use kirdi.Base.{some, none}
use kirdi.Base.Maps.{lookup}
use kirdi.Protocol.{Endian, ip4_dst}
use kirdi.Server.{Server, store_outcome}
use kirdi.Session.{Outcome, returned, escaped, endless, send_ip_packet}

unfoldable pub forward : ℕ → Bytes → Server → Outcome Server
unfolding store_outcome
forward sid packet s = elim (lookup sid s.sessions) [
  | none ↦ returned s
  | some l ↦
      if l.client.authenticated then store_outcome sid s (send_ip_packet packet l) else returned s
]

unfoldable pub route_to_client : Endian → Bytes → Server → Outcome Server
unfolding forward
route_to_client endian packet s =
    if ltb (length packet) 20
    then returned s
    else elim (lookup (ip4_dst endian packet) s.ip_to_session) [
      | none ↦ returned s
      | some sid ↦ forward sid packet s
    ]

-- One round of the loop: `poll` times out or fails, `read_packet` fails, or a packet, maybe empty.
pub data TunPoll : Type 0 where
  quiet : TunPoll
  failed : TunPoll
  readable : Bytes → TunPoll

unfoldable pub tun_round : Endian → TunPoll → Server → Outcome Server
unfolding route_to_client
tun_round endian quiet s = returned s
tun_round endian failed s = returned s
tun_round endian (readable bytes) s =
    if is_empty bytes then returned s else route_to_client endian bytes s

unfoldable pub tun_is_open : Server → Bool
tun_is_open s = elim s.tun [ some true ↦ true | _ ↦ false ]

-- `tun_read_loop` over the rounds that the device gives; it ends when the device is closed.
unfoldable pub tun_read_loop : Endian → List TunPoll → Server → Outcome Server
unfolding tun_round tun_is_open
tun_read_loop endian [] s = returned s
tun_read_loop endian (poll ∷ rest) s = elim (tun_is_open s) [
  | false ↦ returned s
  | true ↦ elim (tun_round endian poll s) [
    | returned s' ↦ tun_read_loop endian rest s'
    | escaped e s' ↦ escaped e s'
    | endless s' ↦ endless s'
  ]
]
