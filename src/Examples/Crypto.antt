-- ===== src/Examples/Crypto.antt =====
-- Examples for src/common/crypto.cpp.
use kirdi.Base.{ℕ, ◌+◌, ◌-◌, ◌*◌, ◌≡◌, inl, refl, arith, All, IsByte, Bytes, codes, length, [], ◌∷◌}
use kirdi.Base.{some, ok, false}
use kirdi.Crypto.{hex_encode, hex_decode, verify_auth_token}
use kirdi.Crypto.Hex.{IsHexDigit, hex_decode-hex_encode}
use kirdi.Crypto.Token.{auth_message-injective}
use kirdi.Crypto.Window.{Decides, verify_auth_token-Decides, verify_auth_token_wrapped}
use kirdi.Examples.{hmac, hmac-HmacWorks}

abbrev some_bytes : Bytes
some_bytes = 0 ∷ (171 ∷ (255 ∷ []))

abbrev moment : ℕ
moment = 1700000000

some_bytes-IsByte : All IsByte some_bytes
some_bytes-IsByte = ground arith

hex_decode-hex_encode_example :
    (length (hex_encode some_bytes) ≡ 2 * length some_bytes)
    × All IsHexDigit (hex_encode some_bytes)
    × (hex_decode (hex_encode some_bytes) ≡ ok some_bytes)
hex_decode-hex_encode_example = hex_decode-hex_encode some_bytes some_bytes-IsByte

-- Two characters that are no hex digits.
auth_message-injective_example : (codes "alice" ≡ codes "alice") × (moment ≡ moment)
auth_message-injective_example =
    auth_message-injective (codes "alice") (codes "alice") moment moment (omega arith) (omega arith)
      refl

verify_auth_token-Decides_example :
    Decides hmac
      (codes "alice")
      (codes "secret")
      (codes "token")
      (verify_auth_token hmac 62 (codes "alice") (codes "secret") (codes "token") moment 30)
      (moment - 30)
      (moment + 30)
verify_auth_token-Decides_example =
    verify_auth_token-Decides hmac (codes "alice") (codes "secret") (codes "token") 62 moment 30
      hmac-HmacWorks (omega arith) (omega arith) (omega arith)

-- The window of a timestamp in the first half minute of the epoch.
verify_auth_token_wrapped_example :
    verify_auth_token hmac 62 (codes "alice") (codes "secret") (codes "token") 29 30
    ≡ some (ok false)
verify_auth_token_wrapped_example =
    verify_auth_token_wrapped hmac (codes "alice") (codes "secret") (codes "token") 62 29 30
      (omega arith) (omega arith) (omega arith) (inl (omega arith))
