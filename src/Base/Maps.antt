-- ===== src/Base/Maps.antt =====
-- `std::unordered_map` with uint32_t keys, as an association list.
use kirdi.Base.Tests.{◌==◌, if◌then◌else◌}
use Prim.Native.Nat.{ℕ}
use mathlib.Core.List.{List, [], ◌∷◌}
use mathlib.Core.Logic.{◌⊎◌, ◌≢◌}
use mathlib.Core.Option.{Option, none, some}
use mathlib.Core.Path.{◌≡◌, refl}
use native.Mathlib.Omega.{arith}

module _ {V : Type 0} where
  -- `find`
  unfoldable pub lookup : ℕ → List (ℕ × V) → Option V
  lookup key [] = none
  lookup key ((name, x) ∷ rest) = if name == key then some x else lookup key rest

  -- `m[key] = value`
  unfoldable pub insert : ℕ → V → List (ℕ × V) → List (ℕ × V)
  insert key value [] = (key, value) ∷ []
  insert key value ((name, old) ∷ rest) =
      if name == key then (key, value) ∷ rest else (name, old) ∷ insert key value rest

  -- A key is read from the entry that was written last.
  pub lookup-insert :
      (new key : ℕ) (value : V) (table : List (ℕ × V))
      → lookup key (insert new value table) ≡ (if new == key then some value else lookup key table)
  unfolding lookup insert
  lookup-insert new key value [] = refl
  lookup-insert new key value ((name, old) ∷ rest) =
      ground (arith, lookup-insert new key value rest)

  pub lookup-insert_cases :
      (k j : ℕ) (v x : V) (m : List (ℕ × V))
      → lookup j (insert k v m) ≡ some x
      → ((k ≡ j) × (v ≡ x)) ⊎ ((k ≢ j) × (lookup j m ≡ some x))
  lookup-insert_cases k j v x m e = ground (arith, lookup-insert k j v m)

  pub lookup-insert_self :
      (k j : ℕ) (v : V) (m : List (ℕ × V)) → k ≡ j → lookup j (insert k v m) ≡ some v
  lookup-insert_self k j v m e = ground (arith, lookup-insert k j v m)

  pub lookup-insert_ne :
      (k j : ℕ) (v : V) (m : List (ℕ × V)) → k ≢ j → lookup j (insert k v m) ≡ lookup j m
  lookup-insert_ne k j v m n = ground (arith, lookup-insert k j v m)

  pub lookup-insert_found :
      (k j : ℕ) (v x : V) (m : List (ℕ × V))
      → lookup j m ≡ some x
      → (y : V) × (lookup j (insert k v m) ≡ some y)
  lookup-insert_found k j v x m e = (if k == j then v else x, ground (arith, lookup-insert k j v m))
