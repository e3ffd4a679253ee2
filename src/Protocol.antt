-- ===== src/Protocol.antt =====
-- src/common/protocol.hpp: the wire format. A span or a vector of bytes is a list of numbers below
-- 256; `static_cast<uint8_t>` keeps a number modulo 256.
pub mod Header
pub mod Packet
use kirdi.Base.{ℕ, zero, suc, ◌+◌, ◌*◌, ◌/◌, ◌%◌, ◌^◌, bit_or, ltb, ◌==◌, if◌then◌else◌, Bytes}
use kirdi.Base.{length, get_or, drop, is_empty, [], ◌∷◌, ◌++◌, Option, none, some, Result, ok}
use kirdi.Base.{throw_if, ◌>>=◌, ◌>>◌, header_buffer, payload_size}

abbrev pub header_size : ℕ
header_size = 5

abbrev pub max_payload : ℕ
max_payload = 65535

-- The enumerators, and the values that have no name: the enum's underlying type is uint8_t, so
-- every byte is a value of it.
pub data MsgType : Type 0 where
  auth_request : MsgType
  auth_response : MsgType
  ip_packet : MsgType
  keepalive : MsgType
  tun_config : MsgType
  disconnect : MsgType
  ping : MsgType
  pong : MsgType
  unnamed : ℕ → MsgType

-- `static_cast<uint8_t>(type)`
unfoldable pub to_byte : MsgType → ℕ
to_byte auth_request = 0x01
to_byte auth_response = 0x02
to_byte ip_packet = 0x03
to_byte keepalive = 0x04
to_byte tun_config = 0x05
to_byte disconnect = 0x06
to_byte ping = 0x07
to_byte pong = 0x08
to_byte (unnamed b) = b

-- `static_cast<MsgType>(byte)`
unfoldable pub from_byte : ℕ → MsgType
from_byte b =
    if b == 0x01
    then auth_request
    else if b == 0x02
    then auth_response
    else if b == 0x03
    then ip_packet
    else if b == 0x04
    then keepalive
    else if b == 0x05
    then tun_config
    else if b == 0x06
    then disconnect
    else if b == 0x07
    then ping
    else if b == 0x08
    then pong
    else unnamed b

pub record PacketHeader : Type 0 where
  pub type : MsgType
  pub length : ℕ

-- The five stores, over the first five bytes of `buf`. `(x >> k) & 0xFF` is `x / 2 ^ k % 256`.
abbrev pub header_bytes : PacketHeader → Bytes
header_bytes hdr =
    to_byte hdr.type % 256
    ∷ (hdr.length / 2 ^ 24 % 256)
    ∷ (hdr.length / 2 ^ 16 % 256)
    ∷ (hdr.length / 2 ^ 8 % 256)
    ∷ (hdr.length % 256)
    ∷ []

-- The number of bytes written and the buffer after the call.
unfoldable pub serialize_header : Bytes → PacketHeader → Result (ℕ × Bytes)
serialize_header buf hdr = do
  throw_if (ltb (length buf) header_size) header_buffer
  ok (header_size, header_bytes hdr ++ drop header_size buf)

-- `b1 << 24 | b2 << 16 | b3 << 8 | b4` on uint32_t; the bytes are below 256, so no shift overflows.
unfoldable pub read_length : ℕ → ℕ → ℕ → ℕ → ℕ
read_length b1 b2 b3 b4 = bit_or (bit_or (bit_or (b1 * 2 ^ 24) (b2 * 2 ^ 16)) (b3 * 2 ^ 8)) b4

unfoldable pub deserialize_header : Bytes → Option PacketHeader
unfolding from_byte read_length
deserialize_header buf =
    let size = read_length (get_or buf 1 0) (get_or buf 2 0) (get_or buf 3 0) (get_or buf 4 0) in
    if ltb (length buf) header_size
    then none
    else if ltb max_payload size
    then none
    else some (record { type = from_byte (get_or buf 0 0); length = size })

-- A vector of zeros, whose first bytes `serialize_header` writes and whose rest `memcpy` does.
unfoldable pub zeros : ℕ → Bytes
zeros zero = []
zeros (suc n) = 0 ∷ zeros n

-- `memcpy(buf.data() + at, source.data(), source.size())`, where it fits.
unfoldable pub copy_at : Bytes → ℕ → Bytes → Bytes
copy_at buf zero source = source ++ drop (length source) buf
copy_at [] (suc n) source = []
copy_at (b ∷ buf) (suc n) source = b ∷ copy_at buf n source

unfoldable pub build_packet : MsgType → Bytes → Result Bytes
unfolding serialize_header zeros copy_at
build_packet type payload = do
  throw_if (ltb max_payload (length payload)) payload_size
  let pkt = zeros (header_size + length payload)
  let hdr : PacketHeader = record { type = type; length = length payload % 2 ^ 32 }
  (n, pkt') ← serialize_header pkt hdr
  ok (copy_at pkt' header_size payload)

unfoldable pub build_keepalive : Result Bytes
unfolding build_packet
build_keepalive = build_packet keepalive []

unfoldable pub build_ip_packet : Bytes → Result Bytes
unfolding build_packet
build_ip_packet ip_data = build_packet ip_packet ip_data

unfoldable pub ip_version : Bytes → ℕ
ip_version pkt = if is_empty pkt then 0 else get_or pkt 0 0 / 2 ^ 4 % 16

unfoldable pub ip4_protocol : Bytes → ℕ
ip4_protocol pkt = if ltb (length pkt) 20 then 0 else get_or pkt 9 0

-- The byte order of the machine, which decides what `memcpy` into a uint32_t gives.
pub data Endian : Type 0 where
  little : Endian
  big : Endian

unfoldable pub load_u32 : Endian → ℕ → ℕ → ℕ → ℕ → ℕ
load_u32 little b0 b1 b2 b3 = b0 + b1 * 2 ^ 8 + b2 * 2 ^ 16 + b3 * 2 ^ 24
load_u32 big b0 b1 b2 b3 = b3 + b2 * 2 ^ 8 + b1 * 2 ^ 16 + b0 * 2 ^ 24

abbrev load_at : Endian → Bytes → ℕ → ℕ
load_at e pkt i =
    load_u32 e (get_or pkt i 0) (get_or pkt (i + 1) 0) (get_or pkt (i + 2) 0) (get_or pkt (i + 3) 0)

unfoldable pub ip4_src : Endian → Bytes → ℕ
unfolding load_u32
ip4_src e pkt = if ltb (length pkt) 20 then 0 else load_at e pkt 12

unfoldable pub ip4_dst : Endian → Bytes → ℕ
unfolding load_u32
ip4_dst e pkt = if ltb (length pkt) 20 then 0 else load_at e pkt 16
