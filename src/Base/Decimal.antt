-- ===== src/Base/Decimal.antt =====
-- `std::to_string` of an unsigned number, and its reading.
use kirdi.Base.Lists.{All, All-append, is_empty}
use Prim.Native.Nat.{ℕ, zero, suc, ◌+◌, ◌-◌, ◌*◌, ◌/◌, ◌%◌, ◌^◌, ◌<◌, ◌≤◌}
use mathlib.Core.Bool.{false}
use mathlib.Core.List.{List, [], ◌∷◌, ◌++◌}
use mathlib.Core.Path.{◌≡◌, refl}
use native.Mathlib.Nat.{pow-suc}
use native.Mathlib.Omega.{arith}

-- At most as many digits as the first number says, the last ones.
abbrev pub decimal : ℕ → ℕ → List ℕ
decimal zero n = []
decimal (suc k) zero = []
decimal (suc k) (suc n) = decimal k (suc n / 10) ++ ((48 + suc n % 10) ∷ [])

-- A uint32_t has at most ten digits.
unfoldable pub to_string : ℕ → List ℕ
to_string zero = 48 ∷ []
to_string (suc n) = decimal 10 (suc n)

abbrev pub read_decimal : ℕ → List ℕ → ℕ
read_decimal n [] = n
read_decimal n (c ∷ text) = read_decimal (n * 10 + (c - 48)) text

read_decimal-append :
    (n c : ℕ) (text : List ℕ)
    → read_decimal n (text ++ (c ∷ [])) ≡ read_decimal n text * 10 + (c - 48)
read_decimal-append n c [] = refl
read_decimal-append n c (b ∷ text) = read_decimal-append (n * 10 + (b - 48)) c text

read-decimal : (k n : ℕ) → n < 10 ^ k → read_decimal 0 (decimal k n) ≡ n
read-decimal zero n h = omega arith
read-decimal (suc k) zero h = refl
read-decimal (suc k) (suc n) h = omega (
  arith,
  read_decimal-append 0 (48 + suc n % 10) (decimal k (suc n / 10)),
  read-decimal k (suc n / 10) (omega (arith, pow-suc 10 k)),
)

pub read-to_string : (n : ℕ) → n < 2 ^ 32 → read_decimal 0 (to_string n) ≡ n
unfolding to_string
read-to_string zero h = refl
read-to_string (suc n) h = read-decimal 10 (suc n) (omega arith)

abbrev pub IsDigit : ℕ → Type 0
IsDigit c = (48 ≤ c) × (c ≤ 57)

decimal-IsDigit : (k n : ℕ) → All IsDigit (decimal k n)
decimal-IsDigit zero n = tt
decimal-IsDigit (suc k) zero = tt
decimal-IsDigit (suc k) (suc n) =
    All-append IsDigit (decimal k (suc n / 10)) (48 + suc n % 10) (decimal-IsDigit k (suc n / 10))
      (omega arith, omega arith)

pub to_string-IsDigit : (n : ℕ) → All IsDigit (to_string n)
unfolding to_string
to_string-IsDigit zero = ((omega arith, omega arith), tt)
to_string-IsDigit (suc n) = decimal-IsDigit 10 (suc n)

append-is_empty {ℓ} : {A : Type ℓ} (xs : List A) (x : A) → is_empty (xs ++ (x ∷ [])) ≡ false
append-is_empty [] x = refl
append-is_empty (y ∷ xs) x = refl

pub to_string-is_empty : (n : ℕ) → is_empty (to_string n) ≡ false
unfolding to_string
to_string-is_empty zero = refl
to_string-is_empty (suc n) = append-is_empty (decimal 9 (suc n / 10)) (48 + suc n % 10)
