-- ===== src/Protocol/Packet.antt =====
-- Whole packets of src/common/protocol.hpp: what `build_packet` writes, and the views of an IP
-- packet.
use kirdi.Base.{ℕ, zero, suc, ◌+◌, ◌%◌, ◌^◌, ◌≤◌, ◌<◌, ◌≡◌, refl, ap, arith, ◌⊎◌, inl, inr, Bytes}
use kirdi.Base.{length, drop, [], ◌∷◌, ◌++◌, some, ok, thrown, payload_size, ltb, ltb→lt, ge→ltb}
use kirdi.Base.{Bool-cases, false}
use kirdi.Protocol.{MsgType, header_bytes, header_size, max_payload, deserialize_header, zeros}
use kirdi.Protocol.{copy_at, build_packet, serialize_header}
use kirdi.Protocol.Header.{IsMsgType, deserialize-header_bytes}
use mathlib.Core.List.{append-nil}

length-zeros : (n : ℕ) → length (zeros n) ≡ n
unfolding zeros
length-zeros zero = refl
length-zeros (suc n) = ap suc (length-zeros n)

drop-zeros : (n : ℕ) → drop n (zeros n) ≡ []
unfolding zeros
drop-zeros zero = refl
drop-zeros (suc n) = drop-zeros n

-- The packet of a payload that fits: the header, then the payload.
abbrev pub packet_bytes : MsgType → Bytes → Bytes
packet_bytes type payload =
    header_bytes (record { type = type; length = length payload }) ++ payload

zeros_header : (n : ℕ) → zeros (header_size + n) ≡ 0 ∷ (0 ∷ (0 ∷ (0 ∷ (0 ∷ zeros n))))
unfolding zeros
zeros_header n = ap zeros five
  where
    five : header_size + n ≡ suc (suc (suc (suc (suc n))))
    five = omega arith

pub build_packet_fits :
    (type : MsgType) (payload : Bytes)
    → length payload ≤ max_payload
    → build_packet type payload ≡ ok (packet_bytes type payload)
unfolding build_packet serialize_header copy_at
build_packet_fits type payload h = rw (ge→ltb max_payload (length payload) h) (
    rw (zeros_header (length payload))
      (rw (roomy, narrow, drop-zeros (length payload), append-nil payload)))
  where
    roomy : ltb (length (0 ∷ (0 ∷ (0 ∷ (0 ∷ (0 ∷ zeros (length payload))))))) header_size ≡ false
    roomy = ge→ltb _ header_size (omega arith)

    narrow : length payload % 2 ^ 32 ≡ length payload
    narrow = omega arith

-- `build_packet` throws exactly when the payload is larger than `max_payload`. Otherwise the packet
-- is five bytes longer than the payload, its header reads back as the type and the payload's size,
-- whatever bytes follow the packet, and behind the header stands the payload.
pub deserialize-build_packet :
    (type : MsgType) (payload : Bytes)
    → IsMsgType type
    → ((max_payload < length payload) × (build_packet type payload ≡ thrown payload_size))
      ⊎ ((pkt : Bytes) × (build_packet type payload ≡ ok pkt)
          × (length pkt ≡ header_size + length payload)
          × (drop header_size pkt ≡ payload)
          × ((rest : Bytes)
              → deserialize_header (pkt ++ rest)
                ≡ some (record { type = type; length = length payload })))
deserialize-build_packet type payload t = elim (Bool-cases (ltb max_payload (length payload))) [
  | inl large ↦ inl (ltb→lt _ _ large, unfold build_packet in rw large)
  | inr fits ↦ inr (
    packet_bytes type payload,
    build_packet_fits type payload (ground arith),
    omega arith,
    refl,
    λ rest. deserialize-header_bytes _ (payload ++ rest) t (ground arith),
  )
]

-- Packets are told apart by their bytes: two that agree carry the same type and the same payload.
pub build_packet-injective :
    (t u : MsgType) (p q pkt : Bytes)
    → IsMsgType t
    → IsMsgType u
    → build_packet t p ≡ ok pkt
    → build_packet u q ≡ ok pkt
    → (t ≡ u) × (p ≡ q)
build_packet-injective t u p q pkt ht hu ep eq = elim (deserialize-build_packet t p ht) [
  | inl (_, e) ↦ cc
  | inr (_, e, _, d, r) ↦ elim (deserialize-build_packet u q hu) [
    | inl (_, e') ↦ cc
    | inr (_, e', _, d', r') ↦ ground (arith, r [], r' [])
  ]
]

-- A payload that was packed fits.
pub build_packet-le :
    (type : MsgType) (payload pkt : Bytes)
    → build_packet type payload ≡ ok pkt
    → length payload ≤ max_payload
build_packet-le type payload pkt e = elim (Bool-cases (ltb max_payload (length payload))) [
  | inl large ↦ absurd (unfold build_packet in ground (arith, large))
  | inr fits ↦ ground arith
]
