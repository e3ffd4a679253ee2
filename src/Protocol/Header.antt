-- ===== src/Protocol/Header.antt =====
-- The five header bytes of src/common/protocol.hpp, written and read back.
use kirdi.Base.{ℕ, ◌+◌, ◌*◌, ◌/◌, ◌%◌, ◌^◌, ◌≤◌, ◌<◌, ◌≡◌, refl, ap, ◌∙◌, bit_or, arith, ◌⊎◌, inl}
use kirdi.Base.{inr, Bytes, IsByte, All, length, drop, length-drop, [], ◌∷◌, ◌++◌, none, some, ok}
use kirdi.Base.{thrown, header_buffer, ltb, leb, ltb→lt, false, if◌then◌else◌, Bool-cases}
use kirdi.Base.Bits.{bit_or-shifted}
use kirdi.Protocol.{MsgType, PacketHeader, to_byte, from_byte, header_bytes, read_length}
use kirdi.Protocol.{serialize_header, deserialize_header, max_payload, header_size}

-- The values of the enum: the named ones, and one for each other byte.
abbrev pub IsMsgType : MsgType → Type 0
IsMsgType (MsgType.unnamed b) = (b < 256) × ((b ≡ 0) ⊎ (8 < b))
IsMsgType t = Unit {0}

pub from_byte-to_byte : (t : MsgType) → IsMsgType t → from_byte (to_byte t) ≡ t
unfolding from_byte to_byte
from_byte-to_byte (MsgType.unnamed b) h = ground arith
from_byte-to_byte MsgType.auth_request h = refl
from_byte-to_byte _ h = refl

pub to_byte-lt : (t : MsgType) → IsMsgType t → to_byte t < 256
unfolding to_byte
to_byte-lt (MsgType.unnamed b) h = h.0
to_byte-lt MsgType.auth_request h = omega arith
to_byte-lt _ h = omega arith

pub to_byte-from_byte : (b : ℕ) → to_byte (from_byte b) ≡ b
unfolding from_byte to_byte
to_byte-from_byte b = ground arith

pub from_byte-IsMsgType : (b : ℕ) → IsByte b → IsMsgType (from_byte b)
unfolding from_byte
from_byte-IsMsgType b h = ground arith

-- The disjunction of the shifted bytes is the number that they spell, most significant first.
read_length-sum :
    (b1 b2 b3 b4 : ℕ)
    → IsByte b2
    → IsByte b3
    → IsByte b4
    → read_length b1 b2 b3 b4 ≡ b1 * 2 ^ 24 + b2 * 2 ^ 16 + b3 * 2 ^ 8 + b4
unfolding read_length
read_length-sum b1 b2 b3 b4 h2 h3 h4 =
    ap (λ (x : ℕ). bit_or (bit_or x (b3 * 2 ^ 8)) b4) two ∙ ap (λ (x : ℕ). bit_or x b4) three ∙ four
  where
    two : bit_or (b1 * 2 ^ 24) (b2 * 2 ^ 16) ≡ (b1 * 2 ^ 8 + b2) * 2 ^ 16
    two = bit_or-shifted 24 b1 (b2 * 2 ^ 16) (omega arith) ∙ omega arith

    three :
        bit_or ((b1 * 2 ^ 8 + b2) * 2 ^ 16) (b3 * 2 ^ 8) ≡ ((b1 * 2 ^ 8 + b2) * 2 ^ 8 + b3) * 2 ^ 8
    three = bit_or-shifted 16 (b1 * 2 ^ 8 + b2) (b3 * 2 ^ 8) (omega arith) ∙ omega arith

    four :
        bit_or (((b1 * 2 ^ 8 + b2) * 2 ^ 8 + b3) * 2 ^ 8) b4
        ≡ b1 * 2 ^ 24 + b2 * 2 ^ 16 + b3 * 2 ^ 8 + b4
    four = bit_or-shifted 8 ((b1 * 2 ^ 8 + b2) * 2 ^ 8 + b3) b4 h4 ∙ omega arith

read_length_split :
    (n : ℕ)
    → n < 2 ^ 32
    → read_length (n / 2 ^ 24 % 256) (n / 2 ^ 16 % 256) (n / 2 ^ 8 % 256) (n % 256) ≡ n
read_length_split n h =
    read_length-sum (n / 2 ^ 24 % 256) (n / 2 ^ 16 % 256) (n / 2 ^ 8 % 256) (n % 256) (omega arith)
      (omega arith) (omega arith)
    ∙ omega arith

-- What stands behind a header does not matter to its reader.
pub deserialize-header_bytes :
    (hdr : PacketHeader) (rest : Bytes)
    → IsMsgType hdr.type
    → hdr.length ≤ max_payload
    → deserialize_header (header_bytes hdr ++ rest) ≡ some hdr
unfolding deserialize_header
deserialize-header_bytes hdr rest t h = ground (
  arith,
  read_length_split hdr.length (omega arith),
  from_byte-to_byte hdr.type t,
  to_byte-lt hdr.type t,
)

-- A header that exceeds the maximal payload is refused.
pub deserialize-header_bytes_oversized :
    (hdr : PacketHeader) (rest : Bytes)
    → hdr.length < 2 ^ 32
    → max_payload < hdr.length
    → deserialize_header (header_bytes hdr ++ rest) ≡ none
unfolding deserialize_header
deserialize-header_bytes_oversized hdr rest w h = ground (arith, read_length_split hdr.length w)

-- For a header with a value of the enum and a length of 32 bits, `serialize_header` throws
-- exactly on a buffer of fewer than five bytes. On any other it writes five bytes and keeps the
-- size and the rest of the buffer, and `deserialize_header` reads the same header back, unless
-- the length exceeds the maximal payload: then it reads none.
pub deserialize-serialize_header :
    (buf : Bytes) (hdr : PacketHeader)
    → IsMsgType hdr.type
    → hdr.length < 2 ^ 32
    → ((length buf < header_size) × (serialize_header buf hdr ≡ thrown header_buffer))
      ⊎ ((buf' : Bytes) × (serialize_header buf hdr ≡ ok (header_size, buf'))
          × (length buf' ≡ length buf)
          × (drop header_size buf' ≡ drop header_size buf)
          × (deserialize_header buf' ≡ (if leb hdr.length max_payload then some hdr else none)))
unfolding serialize_header
deserialize-serialize_header buf hdr t w = elim (Bool-cases (ltb (length buf) header_size)) [
  | inl small ↦ inl (ltb→lt _ _ small, rw small)
  | inr fits ↦ inr (
    header_bytes hdr ++ drop header_size buf,
    rw fits,
    omega (arith, length-drop header_size buf, fits_le fits),
    refl,
    read_back,
  )
]
  where
    fits_le : ltb (length buf) header_size ≡ false → header_size ≤ length buf
    fits_le e = ground arith

    read_back :
        deserialize_header (header_bytes hdr ++ drop header_size buf)
        ≡ (if leb hdr.length max_payload then some hdr else none)
    read_back = elim (Bool-cases (leb hdr.length max_payload)) [
      | inl small ↦ rw small (deserialize-header_bytes hdr _ t (ground arith))
      | inr large ↦ rw large (deserialize-header_bytes_oversized hdr _ w (ground arith))
    ]

-- Four length bytes, read and written again.
read_length_bytes :
    (b1 b2 b3 b4 : ℕ)
    → IsByte b1
    → IsByte b2
    → IsByte b3
    → IsByte b4
    → let n = read_length b1 b2 b3 b4 in
      (n / 2 ^ 24 % 256 ≡ b1) × (n / 2 ^ 16 % 256 ≡ b2) × (n / 2 ^ 8 % 256 ≡ b3) × (n % 256 ≡ b4)
read_length_bytes b1 b2 b3 b4 h1 h2 h3 h4 = rw (read_length-sum b1 b2 b3 b4 h2 h3 h4) (omega arith)

-- What `deserialize_header` accepts of a buffer of bytes is exactly what `serialize_header` would
-- write: the header it returns is a value of the enum with a length within the maximal payload,
-- and writing it over the buffer changes nothing.
pub serialize-deserialize_header :
    (buf : Bytes) (hdr : PacketHeader)
    → All IsByte buf
    → deserialize_header buf ≡ some hdr
    → IsMsgType hdr.type
      × (hdr.length ≤ max_payload)
      × (serialize_header buf hdr ≡ ok (header_size, buf))
unfolding serialize_header deserialize_header
serialize-deserialize_header [] hdr h e = ground arith
serialize-deserialize_header (b0 ∷ []) hdr h e = ground arith
serialize-deserialize_header (b0 ∷ b1 ∷ []) hdr h e = ground arith
serialize-deserialize_header (b0 ∷ b1 ∷ b2 ∷ []) hdr h e = ground arith
serialize-deserialize_header (b0 ∷ b1 ∷ b2 ∷ b3 ∷ []) hdr h e = ground arith
serialize-deserialize_header (b0 ∷ b1 ∷ b2 ∷ b3 ∷ b4 ∷ rest) hdr (h0, (h1, (h2, (h3, (h4, hr)))))
      e =
    ground (
      arith,
      read_length_bytes b1 b2 b3 b4 h1 h2 h3 h4,
      to_byte-from_byte b0,
      from_byte-IsMsgType b0 h0,
    )
