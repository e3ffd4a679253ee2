-- ===== src/Logger/Filename.antt =====
-- `extract_filename` of src/common/logger.hpp.
use kirdi.Base.{ℕ, suc, ◌+◌, ◌≡◌, refl, arith, false, Text, [], ◌∷◌, ◌++◌, none, some, take, drop}
use kirdi.Base.{All, Option-cases, inl, inr, take-append-drop}
use kirdi.Logger.{find_last_of, extract_filename, is_separator}

abbrev pub IsPart : Text → Type 0
IsPart text = All (λ c. is_separator c ≡ false) text

no_separator : (path : Text) → find_last_of path ≡ none → IsPart path
unfolding find_last_of
no_separator [] e = tt
no_separator (c ∷ path) e = elim (Option-cases (find_last_of path)) [
  | inr (pos, e') ↦ absurd (ground (arith, e, e'))
  | inl e' ↦ (ground (arith, e, e'), no_separator path e')
]

behind_last : (path : Text) (pos : ℕ) → find_last_of path ≡ some pos → IsPart (drop (pos + 1) path)
unfolding find_last_of
behind_last [] pos e = absurd (cc)
behind_last (c ∷ path) pos e = elim (Option-cases (find_last_of path)) [
  | inr (pos', e') ↦
      let same : pos + 1 ≡ suc (pos' + 1) = ground (arith, e, e') in
      rw same (behind_last path pos' e')
  | inl e' ↦ let same : pos + 1 ≡ suc 0 = ground (arith, e, e') in rw same (no_separator path e')
]

-- The part of a path that the logger prints has no separator, and the path ends with it.
pub extract_filename-IsPart :
    (path : Text)
    → IsPart (extract_filename path) × ((dir : Text) × (dir ++ extract_filename path ≡ path))
unfolding extract_filename
extract_filename-IsPart path = elim (Option-cases (find_last_of path)) [
  | inl e ↦ rw (e, extract_filename) (no_separator path e, ([], refl))
  | inr (pos, e) ↦
      rw (e, extract_filename)
        (behind_last path pos e, (take (pos + 1) path, take-append-drop (pos + 1) path))
]
