-- ===== src/Crypto/Token.antt =====
-- The token of src/common/crypto.cpp: the message that is signed, and the token's form.
use kirdi.Base.{ℕ, zero, suc, ◌/◌, ◌%◌, ◌^◌, ◌<◌, ◌≡◌, ◌⊎◌, inl, inr, refl, arith, Bytes, Text}
use kirdi.Base.{IsByte, All, length, length-append, append_inj, [], ◌∷◌, some, none, Option, ok}
use kirdi.Base.{thrown, hmac_failure}
use kirdi.Crypto.{hex_digit, padded_hex, auth_message, hmac_sha256, build_auth_token, hex_encode}
use kirdi.Crypto.Hex.{hex_value-hex_digit, IsHexDigit, hex_decode-hex_encode}
use native.Mathlib.Nat.{pow-suc}

hex_digit-injective : (a b : ℕ) → a < 16 → b < 16 → hex_digit a ≡ hex_digit b → a ≡ b
hex_digit-injective a b ha hb e = cc (hex_value-hex_digit a ha, hex_value-hex_digit b hb)

pub length-padded_hex : (k n : ℕ) → length (padded_hex k n) ≡ k
unfolding padded_hex
length-padded_hex zero n = refl
length-padded_hex (suc k) n = omega (
  arith,
  length-append (padded_hex k (n / 16)) (hex_digit (n % 16) ∷ []),
  length-padded_hex k (n / 16),
)

padded_hex-injective :
    (k a b : ℕ) → a < 16 ^ k → b < 16 ^ k → padded_hex k a ≡ padded_hex k b → a ≡ b
unfolding padded_hex
padded_hex-injective zero a b ha hb e = omega arith
padded_hex-injective (suc k) a b ha hb e = omega (
  arith,
  padded_hex-injective k (a / 16) (b / 16) (omega (arith, pow-suc 16 k))
      (omega (arith, pow-suc 16 k)) parts.0,
  hex_digit-injective (a % 16) (b % 16) (omega arith) (omega arith) (cc (parts.1)),
)
  where
    parts :
        (padded_hex k (a / 16) ≡ padded_hex k (b / 16))
        × (hex_digit (a % 16) ∷ [] ≡ hex_digit (b % 16) ∷ [])
    parts =
        append_inj (padded_hex k (a / 16)) (padded_hex k (b / 16)) (hex_digit (a % 16) ∷ [])
          (hex_digit (b % 16) ∷ [])
          (omega (arith, length-padded_hex k (a / 16), length-padded_hex k (b / 16))) e

-- The signed message determines the user and the timestamp, a uint64_t: no two pairs share a
-- message.
pub auth_message-injective :
    (u v : Text) (s t : ℕ)
    → s < 2 ^ 64
    → t < 2 ^ 64
    → auth_message u s ≡ auth_message v t
    → (u ≡ v) × (s ≡ t)
unfolding auth_message
auth_message-injective u v s t hs ht e = (cc (parts.1), padded_hex-injective 16 s t hs ht parts.0)
  where
    parts : (padded_hex 16 s ≡ padded_hex 16 t) × (b':' ∷ u ≡ b':' ∷ v)
    parts =
        append_inj (padded_hex 16 s) (padded_hex 16 t) (b':' ∷ u) (b':' ∷ v)
          (omega (arith, length-padded_hex 16 s, length-padded_hex 16 t)) e

-- What the token rests on: HMAC-SHA256 succeeds, with a digest of 32 bytes.
abbrev pub HmacWorks : (Bytes → Bytes → Option Bytes) → Type 0
HmacWorks hmac =
    (key message : Bytes)
    → (digest : Bytes) × (hmac key message ≡ some digest) × (length digest ≡ 32) × All IsByte digest

module _ (hmac : Bytes → Bytes → Option Bytes) where
  -- Where HMAC works the token is 64 lower-case hex digits, the text of the digest of the message.
  pub build_auth_token_form :
      (user secret : Text) (timestamp : ℕ)
      → HmacWorks hmac
      → (digest : Bytes) × (hmac secret (auth_message user timestamp) ≡ some digest)
        × (build_auth_token hmac user secret timestamp ≡ ok (hex_encode digest))
        × (length (hex_encode digest) ≡ 64)
        × All IsHexDigit (hex_encode digest)
  unfolding build_auth_token hmac_sha256
  build_auth_token_form user secret timestamp works =
      let (digest, e, n, h) = works secret (auth_message user timestamp) in
      let (len, digits, back) = hex_decode-hex_encode digest h in
      (digest, e, rw (e, n), omega arith, digits)

  -- Where HMAC fails, or gives another size than 32, the token is not built.
  pub build_auth_token_fails :
      (user secret : Text) (timestamp : ℕ)
      → ((hmac secret (auth_message user timestamp) ≡ none)
          ⊎ ((digest : Bytes) × (hmac secret (auth_message user timestamp) ≡ some digest)
              × ((length digest < 32) ⊎ (32 < length digest))))
      → build_auth_token hmac user secret timestamp ≡ thrown hmac_failure
  unfolding build_auth_token hmac_sha256
  build_auth_token_fails user secret timestamp (inl e) = rw e
  build_auth_token_fails user secret timestamp (inr (digest, e, size)) = rw e (ground arith)
