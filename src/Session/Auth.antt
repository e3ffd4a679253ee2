-- ===== src/Session/Auth.antt =====
-- The check of an AuthRequest in src/server/session.cpp: what it accepts, and when it ends.
use kirdi.Base.{ℕ, ◌+◌, ◌-◌, ◌^◌, ◌≤◌, ◌<◌, ◌≡◌, ◌≢◌, ◌⊎◌, inl, inr, arith, true, false, Bool}
use kirdi.Base.{Bytes, Text, is_empty, length, Option, some, ok, if◌then◌else◌, not, ◌&&◌, ◌||◌}
use kirdi.Base.{Result-cases}
use kirdi.Crypto.{verify_auth_token}
use kirdi.Crypto.Token.{HmacWorks}
use kirdi.Crypto.Window.{Fits, verify_auth_token-Decides, verify_auth_token_sound}
use kirdi.Crypto.Window.{verify_auth_token_wrapped, verify_auth_token_endless}
use kirdi.Json.{JsonLib}
use kirdi.Protocol.{MsgType}
use kirdi.Session.{Credentials, Link, endless, read_credentials, check_credentials, check_now}
use kirdi.Session.{auth_ok, or_false, handle_packet, handle_auth_request}
use native.Mathlib.Decide.{dec_lt}

-- Two timestamps at most 30 seconds apart.
abbrev pub IsNear : ℕ → ℕ → Type 0
IsNear s t = (s ≤ t + 30) × (t ≤ s + 30)

module _ (j : JsonLib) (hmac : Bytes → Bytes → Option Bytes) (fuel now : ℕ) where
  -- The answers to a request whose fields were read, by the two calls of `verify_auth_token`.
  auth_ok_accepted :
      (secret : Text) (payload : Bytes) (c : Credentials)
      → is_empty secret ≡ false
      → read_credentials j hmac fuel now payload ≡ ok c
      → auth_ok j hmac fuel now secret payload ≡ some true
      → (verify_auth_token hmac fuel c.user secret c.token c.timestamp 30 ≡ some (ok true))
        ⊎ (verify_auth_token hmac fuel c.user secret c.token now 30 ≡ some (ok true))
  unfolding auth_ok check_credentials check_now or_false
  auth_ok_accepted secret payload c s r e = ground (arith, r)

  -- A request is accepted, where HMAC behaves as documented and a secret is configured, only
  -- with a token that was made with the secret for the user it names, for a time within 30
  -- seconds of the timestamp that it names or of the server's clock. Both times are at least 31
  -- seconds before the end of uint64_t. The timestamp is not held against the clock.
  pub auth_ok_sound :
      (secret : Text) (payload : Bytes) (c : Credentials)
      → HmacWorks hmac
      → is_empty secret ≡ false
      → now + 31 < 2 ^ 64
      → c.timestamp + 31 < 2 ^ 64
      → read_credentials j hmac fuel now payload ≡ ok c
      → auth_ok j hmac fuel now secret payload ≡ some true
      → (t : ℕ) × (IsNear t c.timestamp ⊎ IsNear t now) × Fits hmac c.user secret c.token t
  auth_ok_sound secret payload c works s n h r e = elim (auth_ok_accepted secret payload c s r e) [
    | inl v ↦
        let (t, lo, hi, fit) =
          verify_auth_token_sound hmac c.user secret c.token fuel c.timestamp 30 works (omega arith)
            (omega arith) v in
        (t, inl (omega arith), fit)
    | inr v ↦
        let (t, lo, hi, fit) =
          verify_auth_token_sound hmac c.user secret c.token fuel now 30 works (omega arith)
            (omega arith) v in
        (t, inr (omega arith), fit)
  ]

  verify_own :
      (user secret token : Text) (timestamp : ℕ)
      → HmacWorks hmac
      → 61 < fuel
      → 30 ≤ timestamp
      → timestamp + 31 < 2 ^ 64
      → Fits hmac user secret token timestamp
      → verify_auth_token hmac fuel user secret token timestamp 30 ≡ some (ok true)
  verify_own user secret token timestamp works f lo hi fit =
      elim (verify_auth_token-Decides hmac user secret token fuel timestamp 30 works lo
        (omega arith) (omega arith)) [
          | inl (e, _, _, _, _) ↦ e
          | inr (_, out) ↦ absurd (out timestamp (omega arith) (omega arith) fit)
        ]

  -- A request whose token, not empty, is the one for its own timestamp is accepted whatever the
  -- server's clock shows, so a request that was recorded is accepted again at any later time.
  -- HMAC behaves as documented, a secret is configured, there is fuel for 62 rounds, and the
  -- timestamp is not within 30 seconds of an end of uint64_t.
  pub auth_ok_replay :
      (secret : Text) (payload : Bytes) (c : Credentials)
      → HmacWorks hmac
      → 61 < fuel
      → is_empty secret ≡ false
      → is_empty c.token ≡ false
      → 30 ≤ c.timestamp
      → c.timestamp + 31 < 2 ^ 64
      → read_credentials j hmac fuel now payload ≡ ok c
      → Fits hmac c.user secret c.token c.timestamp
      → auth_ok j hmac fuel now secret payload ≡ some true
  unfolding auth_ok check_credentials check_now or_false
  auth_ok_replay secret payload c works f s k lo hi r fit =
      ground (arith, r, verify_own c.user secret c.token c.timestamp works f lo hi fit)

  verify_ends :
      (user secret token : Text) (timestamp : ℕ)
      → HmacWorks hmac
      → 61 < fuel
      → timestamp < 2 ^ 64
      → timestamp ≢ 2 ^ 64 - 31
      → (b : Bool) × (verify_auth_token hmac fuel user secret token timestamp 30 ≡ some (ok b))
  verify_ends user secret token timestamp works f w n = elim (dec_lt timestamp 30) [
    | yes early ↦ (
      false,
      verify_auth_token_wrapped hmac user secret token fuel timestamp 30 (omega arith) w
          (omega arith) (inl early),
    )
    | no late ↦ elim (dec_lt (timestamp + 31) (2 ^ 64)) [
      | no over ↦ (
        false,
        verify_auth_token_wrapped hmac user secret token fuel timestamp 30 (omega arith) w
            (omega arith) (inr (omega arith)),
      )
      | yes inside ↦
          elim (verify_auth_token-Decides hmac user secret token fuel timestamp 30 works
            (omega arith) (omega arith) (omega arith)) [
              | inl (e, _, _, _, _) ↦ (true, e)
              | inr (e, _) ↦ (false, e)
            ]
    ]
  ]

  -- With 62 rounds of fuel, and where HMAC behaves as documented, the check ends for every
  -- request whose timestamp is a uint64_t, but for the one timestamp whose window ends with the
  -- largest uint64_t. The server's clock is at least 31 seconds before that.
  pub auth_ok_ends :
      (secret : Text) (payload : Bytes)
      → HmacWorks hmac
      → 61 < fuel
      → now + 31 < 2 ^ 64
      → ((c : Credentials)
          → read_credentials j hmac fuel now payload ≡ ok c
          → (c.timestamp < 2 ^ 64) × (c.timestamp ≢ 2 ^ 64 - 31))
      → (b : Bool) × (auth_ok j hmac fuel now secret payload ≡ some b)
  unfolding auth_ok check_credentials check_now or_false
  auth_ok_ends secret payload works f n h =
      elim (Result-cases (read_credentials j hmac fuel now payload)) [
        | inr (x, e) ↦ (false, rw (e, auth_ok))
        | inl (c, e) ↦
            let (w, t) = h c e in
            let (b, v) = verify_ends c.user secret c.token c.timestamp works f w t in
            let (b', v') =
              verify_ends c.user secret c.token now works f (omega arith) (omega arith) in
            rw (e, auth_ok) (ends secret c b b' v v')
      ]
    where
      ends :
          (secret : Text) (c : Credentials) (b b' : Bool)
          → verify_auth_token hmac fuel c.user secret c.token c.timestamp 30 ≡ some (ok b)
          → verify_auth_token hmac fuel c.user secret c.token now 30 ≡ some (ok b')
          → (a : Bool) × (or_false (check_credentials j hmac fuel now secret c) ≡ some a)
      ends secret c b b' v v' = (
        if not (is_empty secret) && not (is_empty c.token) then b || b' else is_empty secret,
        ground (arith, v, v'),
      )

  -- At that timestamp the handler of a request never ends, whatever the fuel, if HMAC behaves
  -- as documented, a secret is configured and the token is neither empty nor 64 characters
  -- long. The client need not know the secret.
  pub handle_packet_endless :
      (size : ℕ) (payload : Bytes) (c : Credentials) (l : Link)
      → HmacWorks hmac
      → is_empty l.client.auth_secret ≡ false
      → is_empty c.token ≡ false
      → length c.token ≢ 64
      → c.timestamp ≡ 2 ^ 64 - 31
      → read_credentials j hmac fuel now payload ≡ ok c
      → handle_packet j hmac fuel now
          (record { type = MsgType.auth_request; length = size })
          payload
          l
        ≡ endless l
  unfolding handle_packet handle_auth_request auth_ok check_credentials check_now or_false
  handle_packet_endless size payload c l works s k n t r = ground (
    arith,
    r,
    verify_auth_token_endless hmac c.user l.client.auth_secret c.token fuel c.timestamp 30 works,
  )
