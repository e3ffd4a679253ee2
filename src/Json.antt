-- ===== src/Json.antt =====
-- What the program uses of the nlohmann JSON library, as a parameter: a type of values with the
-- operations that are called, and, apart from these, the behaviour that proofs rely on.
use kirdi.Base.{ℕ, ◌<◌, ◌^◌, ◌≡◌, Bool, Bytes, Text, List, [], ◌∷◌, if◌then◌else◌, same_bytes}
use kirdi.Base.{Option, none, some, Result, or_throw, json_failure}

pub record JsonLib : Type 1 where
  pub Json : Type 0
  -- `json::parse`; none where it throws.
  pub parse : Bytes → Option Json
  -- `dump`; none where it throws: a string is not UTF-8.
  pub dump : Json → Option Bytes
  -- `contains` with `at`; none on a value that is no object.
  pub lookup : Text → Json → Option Json
  -- An initializer list of pairs, and the values of the C++ types that stand in one.
  pub object : List (Text × Json) → Json
  pub from_text : Text → Json
  pub from_number : ℕ → Json
  pub from_bool : Bool → Json
  -- `get<std::string>`, `get` at an unsigned type of so many bits, `get<bool>`; none where it throws.
  pub get_text : Json → Option Text
  pub get_number : ℕ → Json → Option ℕ
  pub get_bool : Json → Option Bool
  -- `value(key, fallback)`, for one of these conversions; none where it throws.
  pub value_or : {A : Type 0} → (Json → Option A) → Text → A → Json → Option A

module _ (j : JsonLib) where
  open j use {Json, value_or}

  -- `value(key, fallback)`
  unfoldable pub value : {A : Type 0} → (Json → Option A) → Text → A → Json → Result A
  value get key fallback json = or_throw (value_or get key fallback json) json_failure

-- The entry of an initializer list.
unfoldable pub field {ℓ} : {A : Type ℓ} → Text → List (Text × A) → Option A
field key [] = none
field key ((name, x) ∷ rest) = if same_bytes name key then some x else field key rest

module _ (j : JsonLib) where
  open j use {Json, parse, dump, lookup, object, from_text, from_number, from_bool}
  open j use {get_text, get_number, get_bool, value_or}

  -- The library's documented behaviour on objects and values that the program builds, and the round
  -- trip: what `dump` writes `parse` reads.
  pub record JsonLaws : Type 1 where
    pub parse-dump : (x : Json) (text : Bytes) → dump x ≡ some text → parse text ≡ some x
    pub value_or-object :
        {A : Type 0} (get : Json → Option A) (key : Text) (fallback : A)
        (fields : List (Text × Json)) (x : Json)
        → field key fields ≡ some x
        → value_or get key fallback (object fields) ≡ get x
    pub lookup-object :
        (key : Text) (fields : List (Text × Json)) → lookup key (object fields) ≡ field key fields
    pub get_text-from_text : (t : Text) → get_text (from_text t) ≡ some t
    pub get_number-from_number :
        (bits n : ℕ) → n < 2 ^ bits → get_number bits (from_number n) ≡ some n
    pub get_bool-from_bool : (b : Bool) → get_bool (from_bool b) ≡ some b
