-- ===== src/Crypto.antt =====
-- src/common/crypto.cpp: hex text and the HMAC token. OpenSSL's HMAC and RAND_bytes are parameters.
pub mod Hex
pub mod Token
pub mod Window
use kirdi.Base.{ℕ, zero, suc, ◌+◌, ◌*◌, ◌/◌, ◌%◌, ◌^◌, ltb, leb, ◌==◌, if◌then◌else◌, same_bytes}
use kirdi.Base.{Bool, true, false, ◌&&◌, ◌||◌, Bytes, Text, length, [], ◌∷◌, ◌++◌, Option, none}
use kirdi.Base.{some, Result, ok, thrown, throw_if, or_throw, ◌>>=◌, ◌>>◌, hex_length, hmac_failure}
use kirdi.Base.{csprng_failure}
use Prim.Native.Nat.{◌-◌}

-- The digits that `%x` prints.
unfoldable pub hex_digit : ℕ → ℕ
hex_digit n = if ltb n 10 then b'0' + n else b'a' + (n - 10)

-- `%02x` of each byte.
unfoldable pub hex_encode : Bytes → Text
unfolding hex_digit
hex_encode [] = []
hex_encode (byte ∷ rest) = hex_digit (byte / 16) ∷ (hex_digit (byte % 16) ∷ hex_encode rest)

-- `strtoul(s, nullptr, 16)` on a text of at most two characters: blanks, a sign, then digits up to
-- the first other character. A negated value wraps modulo 2 ^ 64.
unfoldable pub hex_value : ℕ → Option ℕ
hex_value c =
    if leb b'0' c && leb c b'9'
    then some (c - b'0')
    else if leb b'a' c && leb c b'f'
    then some (c - b'a' + 10)
    else if leb b'A' c && leb c b'F'
    then some (c - b'A' + 10)
    else none

unfoldable pub read_digits : ℕ → Text → ℕ
unfolding hex_value
read_digits acc [] = acc
read_digits acc (c ∷ rest) = elim (hex_value c) [
  | none ↦ acc
  | some v ↦ read_digits (acc * 16 + v) rest
]

unfoldable pub is_blank : ℕ → Bool
is_blank c = c == 32 || leb 9 c && leb c 13

unfoldable pub read_signed : Text → ℕ
unfolding read_digits
read_signed [] = 0
read_signed (c ∷ rest) =
    if c == b'-'
    then (2 ^ 64 - read_digits 0 rest) % 2 ^ 64
    else if c == b'+'
    then read_digits 0 rest
    else read_digits 0 (c ∷ rest)

unfoldable pub strtoul16 : Text → ℕ
unfolding is_blank read_signed
strtoul16 [] = 0
strtoul16 (c ∷ rest) = elim (is_blank c) [ true ↦ strtoul16 rest | false ↦ read_signed (c ∷ rest) ]

-- The loop over the pairs of characters; an odd length never gets here.
unfoldable pub decode_pairs : Text → Bytes
unfolding strtoul16
decode_pairs [] = []
decode_pairs (c ∷ []) = []
decode_pairs (c ∷ (d ∷ rest)) = strtoul16 (c ∷ (d ∷ [])) % 256 ∷ decode_pairs rest

unfoldable pub hex_decode : Text → Result Bytes
unfolding decode_pairs
hex_decode hex = do throw_if (not_zero (length hex % 2)) hex_length; ok (decode_pairs hex)
  where
    not_zero : ℕ → Bool
    not_zero n = ltb 0 n

-- `RAND_bytes(buf, count)`: the bytes, or none if it does not return 1.
unfoldable pub random_bytes : (ℕ → Option Bytes) → ℕ → Result Bytes
random_bytes rand count = or_throw (rand count) csprng_failure

unfoldable pub random_hex : (ℕ → Option Bytes) → ℕ → Result Text
unfolding random_bytes hex_encode
random_hex rand bytes = do buf ← random_bytes rand bytes; ok (hex_encode buf)

-- `%016llx`, for a count of 16 digits.
unfoldable pub padded_hex : ℕ → ℕ → Text
unfolding hex_digit
padded_hex zero n = []
padded_hex (suc k) n = padded_hex k (n / 16) ++ (hex_digit (n % 16) ∷ [])

-- `timestamp_hex + ":" + user`
unfoldable pub auth_message : Text → ℕ → Text
unfolding padded_hex
auth_message user timestamp = padded_hex 16 timestamp ++ (b':' ∷ user)

-- `hmac` is OpenSSL's `HMAC(EVP_sha256(), key, data)`: the digest, or none for a null pointer.
module _ (hmac : Bytes → Bytes → Option Bytes) where
  unfoldable pub hmac_sha256 : Bytes → Bytes → Result Bytes
  hmac_sha256 key message = do
    digest ← or_throw (hmac key message) hmac_failure
    throw_if (ltb (length digest) 32 || ltb 32 (length digest)) hmac_failure
    ok digest

  unfoldable pub build_auth_token : Text → Text → ℕ → Result Text
  unfolding hmac_sha256 hex_encode auth_message
  build_auth_token user secret timestamp = do
    mac ← hmac_sha256 secret (auth_message user timestamp)
    ok (hex_encode mac)

  -- The `for` loop from `t` to `last`, on uint64_t. None: the rounds in `fuel` were not enough.
  unfoldable pub verify_loop : ℕ → Text → Text → Text → ℕ → ℕ → Option (Result Bool)
  verify_loop zero user secret token t last = none
  verify_loop (suc fuel) user secret token t last = elim (leb t last) [
    | false ↦ some (ok false)
    | true ↦ elim (build_auth_token user secret t) [
      | thrown e ↦ some (thrown e)
      | ok expected ↦ elim (same_bytes expected token) [
        | true ↦ some (ok true)
        | false ↦ verify_loop fuel user secret token ((t + 1) % 2 ^ 64) last
      ]
    ]
  ]

  unfoldable pub verify_auth_token : ℕ → Text → Text → Text → ℕ → ℕ → Option (Result Bool)
  verify_auth_token fuel user secret token timestamp window_sec =
      verify_loop fuel user secret token ((timestamp + 2 ^ 64 - window_sec) % 2 ^ 64)
        ((timestamp + window_sec) % 2 ^ 64)
