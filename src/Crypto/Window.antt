-- ===== src/Crypto/Window.antt =====
-- `verify_auth_token` of src/common/crypto.cpp: the loop over the window of timestamps, on uint64_t.
use kirdi.Base.{ℕ, zero, suc, ◌+◌, ◌%◌, ◌^◌, ◌≤◌, ◌<◌, ◌≡◌, ◌⊎◌, inl, inr, ap, arith, Bytes, Text}
use kirdi.Base.{some, Option, Result, ok, true, false, Bool, Bool-cases, same_bytes}
use kirdi.Base.{same_bytes_refl, same_bytes→eq, le→leb, gt→leb, ◌-◌, length, ◌≢◌, none, ◌*◌, ◌∙◌}
use kirdi.Base.{refl, sym}
use kirdi.Crypto.{build_auth_token, verify_loop, hex_encode, verify_auth_token}
use kirdi.Crypto.Token.{HmacWorks, build_auth_token_form}
use mathlib.Core.Path.{subst}
use native.Mathlib.Decide.{dec_lt, dec_le}

module _ (hmac : Bytes → Bytes → Option Bytes) (user secret token : Text) where
  -- The token is the one for timestamp `t`.
  abbrev pub Fits : ℕ → Type 0
  Fits t = build_auth_token hmac user secret t ≡ ok token

  -- One round: true at a token that fits, else the next round.
  loop_hit :
      (fuel t last : ℕ)
      → t ≤ last
      → Fits t
      → verify_loop hmac (suc fuel) user secret token t last ≡ some (ok true)
  unfolding verify_loop
  loop_hit fuel t last h e =
      rw (le→leb t last h, verify_loop)
        (rw (e, verify_loop) (rw (same_bytes_refl token, verify_loop)))

  loop_miss :
      (fuel t last : ℕ)
      → HmacWorks hmac
      → t ≤ last
      → ¬ Fits t
      → verify_loop hmac (suc fuel) user secret token t last
        ≡ verify_loop hmac fuel user secret token ((t + 1) % 2 ^ 64) last
  unfolding verify_loop
  loop_miss fuel t last works h miss =
      let (digest, _, built, _, _) = build_auth_token_form hmac user secret t works in
      elim (Bool-cases (same_bytes (hex_encode digest) token)) [
        | inl same ↦ absurd (miss (rw built (ap ok (same_bytes→eq _ _ same))))
        | inr other ↦
            rw (le→leb t last h, verify_loop) (rw (built, verify_loop) (rw (other, verify_loop)))
      ]

  loop_end :
      (fuel t last : ℕ)
      → last < t
      → verify_loop hmac (suc fuel) user secret token t last ≡ some (ok false)
  unfolding verify_loop
  loop_end fuel t last h = rw (gt→leb t last h, verify_loop)

  Fits-cases : (t : ℕ) → HmacWorks hmac → Fits t ⊎ (¬ Fits t)
  Fits-cases t works =
      let (digest, _, built, _, _) = build_auth_token_form hmac user secret t works in
      elim (Bool-cases (same_bytes (hex_encode digest) token)) [
        | inl same ↦ inl (rw built (ap ok (same_bytes→eq _ _ same)))
        | inr other ↦ inr (λ e. ground (arith, built, same_bytes_refl token))
      ]

  -- The answer `r` is right for the timestamps from `low` to `high`.
  abbrev pub Decides : Option (Result Bool) → ℕ → ℕ → Type 0
  Decides r low high =
      ((r ≡ some (ok true)) × (t : ℕ) × (low ≤ t) × (t ≤ high) × Fits t)
      ⊎ ((r ≡ some (ok false)) × ((t : ℕ) → low ≤ t → t ≤ high → ¬ Fits t))

  loop-Decides :
      (rounds fuel t last : ℕ)
      → HmacWorks hmac
      → t + rounds ≡ last + 1
      → last + 1 < 2 ^ 64
      → rounds < fuel
      → Decides (verify_loop hmac fuel user secret token t last) t last
  loop-Decides rounds zero t last works n w f = absurd (omega arith)
  loop-Decides zero (suc fuel) t last works n w f =
      inr (loop_end fuel t last (omega arith), λ s lo hi. absurd (omega arith))
  loop-Decides (suc rounds) (suc fuel) t last works n w f = elim (Fits-cases t works) [
    | inl hit ↦ inl (loop_hit fuel t last (omega arith) hit, t, omega arith, omega arith, hit)
    | inr miss ↦
        rw (loop_miss fuel t last works (omega arith) miss, next)
          (later miss (loop-Decides rounds fuel (t + 1) last works (omega arith) w (omega arith)))
  ]
    where
      next : (t + 1) % 2 ^ 64 ≡ t + 1
      next = omega arith

      later : {r : Option (Result Bool)} → ¬ Fits t → Decides r (t + 1) last → Decides r t last
      later miss (inl (e, s, lo, hi, fit)) = inl (e, s, omega arith, hi, fit)
      later miss (inr (e, out)) = inr (e, λ s lo hi fit. out s (above s lo fit) hi fit)
        where
          above : (s : ℕ) → t ≤ s → Fits s → t + 1 ≤ s
          above s lo fit = elim (dec_lt t s) [
            | yes p ↦ omega arith
            | no q ↦ absurd (miss (subst (λ x. Fits x) (omega arith) fit))
          ]

  -- Where HMAC behaves as documented and the window lies within uint64_t, short of its last
  -- value, the loop answers: true exactly if the token is the one for a timestamp at most
  -- `window_sec` before or after the given one. `2 * window_sec + 2` rounds do.
  pub verify_auth_token-Decides :
      (fuel timestamp window_sec : ℕ)
      → HmacWorks hmac
      → window_sec ≤ timestamp
      → timestamp + window_sec + 1 < 2 ^ 64
      → 2 * window_sec + 1 < fuel
      → Decides
          (verify_auth_token hmac fuel user secret token timestamp window_sec)
          (timestamp - window_sec)
          (timestamp + window_sec)
  unfolding verify_auth_token
  verify_auth_token-Decides fuel timestamp window_sec works lo hi f =
      rw (first, last)
        (loop-Decides (2 * window_sec + 1) fuel (timestamp - window_sec) (timestamp + window_sec)
          works (omega arith) (omega arith) f)
    where
      first : (timestamp + 2 ^ 64 - window_sec) % 2 ^ 64 ≡ timestamp - window_sec
      first = omega arith

      last : (timestamp + window_sec) % 2 ^ 64 ≡ timestamp + window_sec
      last = omega arith

  -- Where the window crosses an end of uint64_t one bound wraps and the loop has no round: every
  -- token is refused, the right one too.
  pub verify_auth_token_wrapped :
      (fuel timestamp window_sec : ℕ)
      → 0 < fuel
      → timestamp < 2 ^ 64
      → window_sec < 2 ^ 63
      → (timestamp < window_sec) ⊎ (2 ^ 64 ≤ timestamp + window_sec)
      → verify_auth_token hmac fuel user secret token timestamp window_sec ≡ some (ok false)
  unfolding verify_auth_token
  verify_auth_token_wrapped zero timestamp window_sec f h w cross = absurd (omega arith)
  verify_auth_token_wrapped (suc fuel) timestamp window_sec f h w cross =
      loop_end fuel _ _ (omega arith)

  loop_endless :
      (fuel t : ℕ)
      → HmacWorks hmac
      → ((s : ℕ) → ¬ Fits s)
      → t < 2 ^ 64
      → verify_loop hmac fuel user secret token t (2 ^ 64 - 1) ≡ none
  loop_endless zero t works miss h = unfold verify_loop in refl
  loop_endless (suc fuel) t works miss h =
      loop_miss fuel t (2 ^ 64 - 1) works (omega arith) (miss t)
      ∙ loop_endless fuel ((t + 1) % 2 ^ 64) works miss (omega arith)

  -- A token of another size than 64 is the one for no timestamp.
  short-not-Fits : (t : ℕ) → HmacWorks hmac → length token ≢ 64 → ¬ Fits t
  short-not-Fits t works size e =
      let (digest, _, built, len, _) = build_auth_token_form hmac user secret t works in
      ground (arith, built)

  -- At the timestamp whose window ends with the largest uint64_t the loop's test never fails: on a
  -- token of another size than 64 no number of rounds is enough.
  pub verify_auth_token_endless :
      (fuel timestamp window_sec : ℕ)
      → HmacWorks hmac
      → timestamp + window_sec ≡ 2 ^ 64 - 1
      → length token ≢ 64
      → verify_auth_token hmac fuel user secret token timestamp window_sec ≡ none
  unfolding verify_auth_token
  verify_auth_token_endless fuel timestamp window_sec works e size =
      rw last (loop_endless fuel _ works (λ s. short-not-Fits s works size) (omega arith))
    where
      last : (timestamp + window_sec) % 2 ^ 64 ≡ 2 ^ 64 - 1
      last = omega arith

  loop_sound :
      (fuel t last : ℕ)
      → HmacWorks hmac
      → last + 1 < 2 ^ 64
      → verify_loop hmac fuel user secret token t last ≡ some (ok true)
      → (s : ℕ) × (t ≤ s) × (s ≤ last) × Fits s
  loop_sound zero t last works w e = absurd (unfold verify_loop in cc)
  loop_sound (suc fuel) t last works w e = elim (dec_le t last) [
    | no past ↦ absurd (cc (loop_end fuel t last (omega arith)))
    | yes h ↦ elim (Fits-cases t works) [
      | inl hit ↦ (t, omega arith, h, hit)
      | inr miss ↦
          let step : (t + 1) % 2 ^ 64 ≡ t + 1 = omega arith in
          let (s, lo, hi, fit) = loop_sound fuel (t + 1) last works w (
            ap (λ x. verify_loop hmac fuel user secret token x last) (sym step)
            ∙ sym (loop_miss fuel t last works h miss)
            ∙ e) in
          (s, omega arith, hi, fit)
    ]
  ]

  -- A token that is accepted is the one for a timestamp at most `window_sec` before or after the
  -- given one, whatever the fuel, where the end of the window lies below the largest uint64_t.
  pub verify_auth_token_sound :
      (fuel timestamp window_sec : ℕ)
      → HmacWorks hmac
      → window_sec < 2 ^ 63
      → timestamp + window_sec + 1 < 2 ^ 64
      → verify_auth_token hmac fuel user secret token timestamp window_sec ≡ some (ok true)
      → (t : ℕ) × (timestamp ≤ t + window_sec) × (t ≤ timestamp + window_sec) × Fits t
  unfolding verify_auth_token
  verify_auth_token_sound fuel timestamp window_sec works w hi e =
      let (t, lo', hi', fit) = loop_sound fuel _ _ works (omega arith) e in
      (t, omega arith, omega arith, fit)
