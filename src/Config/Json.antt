-- ===== src/Config/Json.antt =====
-- The helpers of src/common/config.cpp: a key with its alias, and the subnet without its suffix.
use kirdi.Base.{◌==◌, Text, [], ◌∷◌, Option, none, some, Result, ok, or_throw, json_failure, true}
use kirdi.Base.{false}
use kirdi.Json.{JsonLib}

-- `json_get(j, key, alias, out)`: the new value of `out`. `get` is `get_to`, which may throw.
unfoldable pub json_get {ℓ} :
    {A : Type ℓ} (j : JsonLib) → (j.Json → Option A) → Text → Option Text → j.Json → A → Result A
json_get j get key alias json out = elim (j.lookup key json) [
  | some found ↦ or_throw (get found) json_failure
  | none ↦ elim alias [
    | none ↦ ok out
    | some other ↦ elim (j.lookup other json) [
      | some found ↦ or_throw (get found) json_failure
      | none ↦ ok out
    ]
  ]
]

-- The text up to the first slash.
unfoldable pub strip_cidr : Text → Text
strip_cidr [] = []
strip_cidr (c ∷ rest) = elim (c == b'/') [ true ↦ [] | false ↦ c ∷ strip_cidr rest ]
