-- ===== src/Examples.antt =====
-- Concrete instances of the parameters, for the examples: an HMAC, a JSON library and the address
-- functions, each with the behaviour that the theorems rely on.
pub mod Protocol
pub mod Crypto
pub mod Transport
pub mod Session
pub mod Server
pub mod Client
pub mod Config
pub mod Network
pub mod NoLoop
pub mod Delivery
pub mod Firewall
pub mod Tun
pub mod Tunnel
pub mod Programs
pub mod Resolv
pub mod System
use kirdi.Base.{ℕ, zero, suc, ◌+◌, ◌%◌, ◌^◌, ◌<◌, ◌≡◌, refl, ap, arith, if◌then◌else◌, Bool, true}
use kirdi.Base.{false, Bytes, Text, List, [], ◌∷◌, ◌++◌, length, take, drop, Option, none, some}
use kirdi.Base.{same_bytes, take-append, sym, Bool-cases, inl, inr, ◌∙◌}
use kirdi.Crypto.Token.{HmacWorks}
use kirdi.Inet.{Inet, InetLaws}
use kirdi.Json.{JsonLib, JsonLaws, field}
use kirdi.Protocol.{little, zeros}
use native.Mathlib.Nat.{mod-eq_of_lt}

-- A digest of 32 bytes that tells messages apart by their first byte.
unfoldable pub hmac : Bytes → Bytes → Option Bytes
unfolding zeros
hmac key [] = some (zeros 32)
hmac key (b ∷ message) = some (b % 256 ∷ zeros 31)

pub hmac-HmacWorks : HmacWorks hmac
unfolding hmac zeros
hmac-HmacWorks key [] = (zeros 32, refl, refl, ground arith)
hmac-HmacWorks key (b ∷ message) = (b % 256 ∷ zeros 31, refl, refl, ground arith)

-- JSON values as their own texts: a tag, then the content.
unfoldable pub entries : List (Text × Bytes) → Bytes
entries [] = []
entries ((name, x) ∷ rest) = length name ∷ (name ++ (length x ∷ (x ++ entries rest)))

unfoldable pub find : ℕ → Text → Bytes → Option Bytes
find zero key body = none
find (suc n) key [] = none
find (suc n) key (k ∷ body) = elim (drop k body) [
  | [] ↦ none
  | v ∷ rest ↦
      let later = find n key (drop v rest) in
      if same_bytes (take k body) key then some (take v rest) else later
]

drop-append {ℓ} : {A : Type ℓ} (xs ys : List A) → drop (length xs) (xs ++ ys) ≡ ys
drop-append [] ys = refl
drop-append (x ∷ xs) ys = drop-append xs ys

find-entries :
    (key : Text) (fields : List (Text × Bytes))
    → find (length fields) key (entries fields) ≡ field key fields
unfolding find entries field
find-entries key [] = refl
find-entries key ((name, x) ∷ rest) =
    rw (drop-append name (length x ∷ (x ++ entries rest)), find)
      (rw
        (
          take-append name (length x ∷ (x ++ entries rest)),
          drop-append x (entries rest),
          take-append x (entries rest),
          find-entries key rest,
        )
        refl)

abbrev pub find_in : Text → Bytes → Option Bytes
find_in key (zero ∷ (n ∷ body)) = find n key body
find_in key _ = none

abbrev pub get_text : Bytes → Option Text
get_text (suc zero ∷ t) = some t
get_text _ = none

abbrev pub get_number : ℕ → Bytes → Option ℕ
get_number bits (suc (suc zero) ∷ (n ∷ [])) = some (n % 2 ^ bits)
get_number bits _ = none

abbrev pub get_bool : Bytes → Option Bool
get_bool (suc zero ∷ []) = some true
get_bool (zero ∷ []) = some false
get_bool _ = none

abbrev pick {ℓ} : {A : Type ℓ} → (Bytes → Option A) → A → Option Bytes → Option A
pick get fallback none = some fallback
pick get fallback (some x) = get x

-- `value` of a text that is no object throws.
abbrev value_or {ℓ} : {A : Type ℓ} → (Bytes → Option A) → Text → A → Bytes → Option A
value_or get key fallback (zero ∷ (n ∷ body)) = pick get fallback (find n key body)
value_or get key fallback _ = none

abbrev pub json : JsonLib
json = record {
  Json = Bytes;
  parse = λ text. some text;
  dump = λ x. some x;
  lookup = find_in;
  object = λ fields. 0 ∷ (length fields ∷ entries fields);
  from_text = λ t. 1 ∷ t;
  from_number = λ n. 2 ∷ (n ∷ []);
  from_bool = λ b. if b then 1 ∷ [] else 0 ∷ [];
  get_text = get_text;
  get_number = get_number;
  get_bool = get_bool;
  value_or = value_or;
}

pub json-JsonLaws : JsonLaws json
json-JsonLaws = record {
  parse-dump = λ x text e. sym e;
  value_or-object =
      λ get key fallback fields x e. ap (pick get fallback) (find-entries key fields ∙ e);
  lookup-object = find-entries;
  get_text-from_text = λ t. refl;
  get_number-from_number = λ bits n h. ap some (mod-eq_of_lt h);
  get_bool-from_bool = λ b. elim (Bool-cases b) [ inl e ↦ rw e refl | inr e ↦ rw e refl ];
}

-- Addresses are printed as the text of one character.
abbrev pub inet : Inet
inet = record {
  endian = little;
  inet_pton = λ text. elim text [ a ∷ [] ↦ some a | _ ↦ none ];
  inet_ntop = λ a. a ∷ [];
}

pub inet-InetLaws : InetLaws inet
inet-InetLaws = record { pton-ntop = λ a h. refl }
