-- ===== src/Crypto/Hex.antt =====
-- Hex text of src/common/crypto.cpp: `hex_decode` reads back what `hex_encode` writes.
use kirdi.Base.{ℕ, ◌+◌, ◌*◌, ◌/◌, ◌%◌, ◌≤◌, ◌<◌, ◌≡◌, ◌⊎◌, inl, inr, refl, arith, Bytes, Text}
use kirdi.Base.{IsByte, All, length, [], ◌∷◌, some, ok, thrown, hex_length, Bool-cases, ltb, ge→ltb}
use kirdi.Base.{false}
use kirdi.Crypto.{hex_digit, hex_value, hex_encode, hex_decode, decode_pairs, strtoul16}

-- The characters `0` to `9` and `a` to `f`.
abbrev pub IsHexDigit : ℕ → Type 0
IsHexDigit c = ((48 ≤ c) × (c ≤ 57)) ⊎ ((97 ≤ c) × (c ≤ 102))

pub hex_digit-IsHexDigit : (n : ℕ) → n < 16 → IsHexDigit (hex_digit n)
unfolding hex_digit
hex_digit-IsHexDigit n h = ground arith

pub hex_value-hex_digit : (n : ℕ) → n < 16 → hex_value (hex_digit n) ≡ some n
unfolding hex_value hex_digit
hex_value-hex_digit n h = ground arith

strtoul16-hex_digits :
    (a b : ℕ) → a < 16 → b < 16 → strtoul16 (hex_digit a ∷ (hex_digit b ∷ [])) ≡ a * 16 + b
unfolding strtoul16
strtoul16-hex_digits a b ha hb =
    ground (arith, hex_digit-IsHexDigit a ha, hex_value-hex_digit a ha, hex_value-hex_digit b hb)

length-hex_encode : (bytes : Bytes) → length (hex_encode bytes) ≡ 2 * length bytes
unfolding hex_encode
length-hex_encode [] = refl
length-hex_encode (b ∷ bs) = omega (arith, length-hex_encode bs)

hex_encode-IsHexDigit : (bytes : Bytes) → All IsByte bytes → All IsHexDigit (hex_encode bytes)
unfolding hex_encode
hex_encode-IsHexDigit [] h = tt
hex_encode-IsHexDigit (b ∷ bs) (hb, hbs) = (
  hex_digit-IsHexDigit (b / 16) (omega arith),
  (hex_digit-IsHexDigit (b % 16) (omega arith), hex_encode-IsHexDigit bs hbs),
)

decode_pairs-hex_encode :
    (bytes : Bytes) → All IsByte bytes → decode_pairs (hex_encode bytes) ≡ bytes
unfolding decode_pairs hex_encode
decode_pairs-hex_encode [] h = refl
decode_pairs-hex_encode (b ∷ bs) (hb, hbs) = ground (
  arith,
  strtoul16-hex_digits (b / 16) (b % 16) (omega arith) (omega arith),
  decode_pairs-hex_encode bs hbs,
)

-- The text of a byte string has two lower-case hex digits for each byte, and `hex_decode` reads the
-- byte string back from it.
pub hex_decode-hex_encode :
    (bytes : Bytes)
    → All IsByte bytes
    → (length (hex_encode bytes) ≡ 2 * length bytes)
      × All IsHexDigit (hex_encode bytes)
      × (hex_decode (hex_encode bytes) ≡ ok bytes)
unfolding hex_decode
hex_decode-hex_encode bytes h = (
  length-hex_encode bytes,
  hex_encode-IsHexDigit bytes h,
  rw (
    ge→ltb 0 (length (hex_encode bytes) % 2) (omega (arith, length-hex_encode bytes)),
    decode_pairs-hex_encode bytes h,
  ),
)

-- Different byte strings have different texts.
pub hex_encode-injective :
    (p q : Bytes) → All IsByte p → All IsByte q → hex_encode p ≡ hex_encode q → p ≡ q
hex_encode-injective p q hp hq e = cc (decode_pairs-hex_encode p hp, decode_pairs-hex_encode q hq)

length-decode_pairs : (hex : Text) → length (decode_pairs hex) ≡ length hex / 2
unfolding decode_pairs
length-decode_pairs [] = refl
length-decode_pairs (c ∷ []) = refl
length-decode_pairs (c ∷ (d ∷ rest)) = omega (arith, length-decode_pairs rest)

decode_pairs-IsByte : (hex : Text) → All IsByte (decode_pairs hex)
unfolding decode_pairs
decode_pairs-IsByte [] = tt
decode_pairs-IsByte (c ∷ []) = tt
decode_pairs-IsByte (c ∷ (d ∷ rest)) = (omega arith, decode_pairs-IsByte rest)

-- `hex_decode` throws exactly on a text of odd length, and otherwise gives one byte for every two
-- characters, whatever they are: a character that is no hex digit is not refused.
pub hex_decode_total :
    (hex : Text)
    → ((length hex % 2 ≡ 1) × (hex_decode hex ≡ thrown hex_length))
      ⊎ ((length hex % 2 ≡ 0)
          × (bytes : Bytes) × (hex_decode hex ≡ ok bytes)
          × (2 * length bytes ≡ length hex)
          × All IsByte bytes)
unfolding hex_decode
hex_decode_total hex = elim (Bool-cases (ltb 0 (length hex % 2))) [
  | inl odd ↦ inl (ground arith, rw odd)
  | inr even ↦ inr (
    even_length even,
    decode_pairs hex,
    rw even,
    omega (arith, length-decode_pairs hex, even_length even),
    decode_pairs-IsByte hex,
  )
]
  where
    even_length : ltb 0 (length hex % 2) ≡ false → length hex % 2 ≡ 0
    even_length e = ground arith
