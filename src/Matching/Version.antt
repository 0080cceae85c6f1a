-- ===== src/Matching/Version.antt =====
-- Versions of backend/app/services/rampart/matching.py: `_tokens` and `compare_versions`.
pub mod Order
pub mod Endless
use asber.Base.{
  ℕ, ◌-◌, max, Bool, ◌||◌, not, Option, none, some, List, [], ◌∷◌, ◌++◌, length, filter, is_empty,
  replicate, ltb, ◌==◌, if◌then◌else◌, Text, text_eq, strip, split_on, all_digits, int,
}

-- The results -1, 0 and 1 of a comparison.
pub data Sign : Type 0 where
  below same above : Sign

-- The separators of `_SPLIT_RE`: dot, dash, underscore and plus.
unfoldable pub is_version_sep : ℕ → Bool
is_version_sep c = c == b'.' || c == b'-' || c == b'_' || c == b'+'

all_ints : List Text → Option (List ℕ)
unfolding all_digits int
all_ints [] = some []
all_ints (part ∷ parts) =
    let rest = all_ints parts in
    if all_digits part then elim rest [ none ↦ none | some ns ↦ some (int part ∷ ns) ] else none

abbrev pub is_filled : Text → Bool
is_filled part = not (is_empty part)

-- `_tokens`
unfoldable pub tokens : Text → Option (List ℕ)
unfolding strip split_on is_version_sep all_ints
tokens version =
    let raw = filter is_filled (split_on is_version_sep (strip version)) in
    if is_empty raw then none else all_ints raw

-- `ta + [0] * (width - len(ta))`
unfoldable pub pad : ℕ → List ℕ → List ℕ
pad width ta = ta ++ replicate (width - length ta) 0

-- `(ta > tb) - (ta < tb)`: Python orders lists lexicographically, a proper prefix first.
unfoldable pub compare_lists : List ℕ → List ℕ → Sign
compare_lists [] [] = same
compare_lists [] (b ∷ bs) = below
compare_lists (a ∷ as') [] = above
compare_lists (a ∷ as') (b ∷ bs) =
    let rest = compare_lists as' bs in if ltb a b then below else if a == b then rest else above

abbrev pub compare_tokens : Option (List ℕ) → Option (List ℕ) → Option Sign
compare_tokens none tb = none
compare_tokens (some ta) none = none
compare_tokens (some ta) (some tb) =
    let width = max (length ta) (length tb) in some (compare_lists (pad width ta) (pad width tb))

unfoldable pub compare_versions : Text → Text → Option Sign
unfolding strip
compare_versions a b =
    if text_eq (strip a) (strip b) then some same else compare_tokens (tokens a) (tokens b)
