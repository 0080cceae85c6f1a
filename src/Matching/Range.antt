-- ===== src/Matching/Range.antt =====
-- Ranges of backend/app/services/rampart/matching.py: `Bound`, `Range`, `parse_range`,
-- `cpe_version` and `version_in_range`.
pub mod Scan
pub mod RoundTrip
pub mod Bounds
use asber.Base.{
  map, Option, ◌∷◌, ◌++◌, Text, codes, Bool, List, [], any, false, filter, get_elem?, if◌then◌else◌,
  is_empty, is_space, join, length, lstrip, none, not, one_of, some, span, split_on, starts_with,
  strip, suc, true, zero, ℕ, ◌&&◌, ◌==◌,
}
use asber.Matching.Version.{Sign, below, same, above, compare_versions}

-- The operators of a bound: >=, <=, > and <.
pub data Op : Type 0 where
  ge le gt lt : Op

pub record Bound : Type 0 where
  pub op : Op
  pub version : Text

pub record Range : Type 0 where
  pub lower : Option Bound
  pub upper : Option Bound

unfoldable pub op_text : Op → Text
op_text ge = codes ">="
op_text le = codes "<="
op_text gt = codes ">"
op_text lt = codes "<"

unfoldable pub bound_text : Bound → Text
unfolding op_text
bound_text b = op_text b.op ++ codes " " ++ b.version

abbrev pub present {ℓ} : {A : Type ℓ} → Option A → List A
present none = []
present (some a) = a ∷ []

-- `Range.__str__`
unfoldable pub range_text : Range → Text
unfolding bound_text join
range_text r = join (codes " ") (map bound_text (present r.lower ++ present r.upper))

-- `[^\s<>=]`, a character of a bound's version
unfoldable pub is_version_char : ℕ → Bool
unfolding is_space
is_version_char c = not (is_space c) && not (c == b'<') && not (c == b'>') && not (c == b'=')

-- The operator that a text begins with: `>=` and `<=` are tried before `>` and `<`.
unfoldable pub match_op : Text → Option (Op × Text)
match_op [] = none
match_op (c ∷ []) = if c == b'>' then some (gt, []) else if c == b'<' then some (lt, []) else none
match_op (c ∷ d ∷ s) =
    if c == b'>'
    then (if d == b'=' then some (ge, s) else some (gt, d ∷ s))
    else if c == b'<'
    then (if d == b'=' then some (le, s) else some (lt, d ∷ s))
    else none

-- The version that follows an operator, and the rest.
unfoldable pub match_version : Op → Text → Option (Bound × Text)
unfolding lstrip is_version_char
match_version op s =
    let (version, rest) = span is_version_char (lstrip s) in
    if is_empty version then none else some (record { op = op; version = version }, rest)

abbrev pub match_rest : Option (Op × Text) → Option (Bound × Text)
match_rest none = none
match_rest (some (op, rest)) = match_version op rest

-- `_BOUND_RE` at the front of a text
unfoldable pub match_bound : Text → Option (Bound × Text)
unfolding match_op match_version
match_bound s = match_rest (match_op s)

-- What the scan does at a character: skip it, or go on behind a match.
abbrev pub scan_from : Option (Bound × Text) → Text → (Text → List Bound) → List Bound
scan_from none s next = next s
scan_from (some (b, rest)) s next = b ∷ next rest

-- `_BOUND_RE.findall`
unfoldable pub find_bounds : ℕ → Text → List Bound
find_bounds zero s = []
find_bounds (suc fuel) [] = []
find_bounds (suc fuel) (c ∷ s) = scan_from (match_bound (c ∷ s)) s (λ rest. find_bounds fuel rest)

abbrev pub is_lower_op : Op → Bool
is_lower_op ge = true
is_lower_op gt = true
is_lower_op _ = false

-- The loop of `parse_range`: of several lower bounds the last one stays, and so of upper ones.
unfoldable pub set_bounds : Range → List Bound → Range
set_bounds r [] = r
set_bounds r (b ∷ bs) =
    set_bounds
      (if is_lower_op b.op then record r { lower = some b } else record r { upper = some b }) bs

abbrev pub no_bounds : Range
no_bounds = record { lower = none; upper = none }

abbrev pub range_or_none : Range → Option Range
range_or_none r = elim r.lower [
  | none ↦ elim r.upper [ none ↦ none | some u ↦ some r ]
  | some l ↦ some r
]

unfoldable pub parse_range : Option Text → Option Range
unfolding find_bounds set_bounds
parse_range none = none
parse_range (some versions) =
    if is_empty versions
    then none
    else range_or_none (set_bounds no_bounds (find_bounds (length versions) versions))

abbrev pinned_part : Option Text → Option Text
pinned_part none = none
pinned_part (some part) =
    let version = strip part in
    if one_of version (codes "*" ∷ codes "-" ∷ [] ∷ []) then none else some version

-- The sixth part between colons, where it says something about the version.
unfoldable pub cpe_version : Text → Option Text
unfolding starts_with split_on strip
cpe_version cpe =
    if starts_with cpe (codes "cpe:2.3:")
    then pinned_part (get_elem? (split_on (λ c. c == b':') cpe) 5)
    else none

-- The answers `IN`, `OUT` and `UNKNOWN`.
pub data Verdict : Type 0 where
  within outside unknown : Verdict

abbrev pub sign_eq : Sign → Sign → Bool
sign_eq below below = true
sign_eq same same = true
sign_eq above above = true
sign_eq _ _ = false

abbrev pub is_inclusive : Op → Bool
is_inclusive ge = true
is_inclusive le = true
is_inclusive _ = false

-- `inside if bound.op in (">=", "<=") else tuple(c for c in inside if c != 0)`
unfoldable pub allowed : Op → List Sign → List Sign
allowed op inside = if is_inclusive op then inside else filter (λ c. not (sign_eq c same)) inside

-- `within` lets the loop go on.
unfoldable pub bound_verdict : Op → List Sign → Option Sign → Verdict
unfolding allowed
bound_verdict op inside none = unknown
bound_verdict op inside (some c) = if any (sign_eq c) (allowed op inside) then within else outside

-- One round of the loop in `version_in_range`.
unfoldable pub check_bound : Text → Option Bound → List Sign → Verdict
unfolding bound_verdict
check_bound version none inside = within
check_bound version (some b) inside = bound_verdict b.op inside (compare_versions version b.version)

abbrev pub and_then : Verdict → Verdict → Verdict
and_then within v = v
and_then outside v = outside
and_then unknown v = unknown

-- The loop over the two bounds, with the comparisons that each lets pass.
unfoldable pub check_range : Text → Range → Verdict
unfolding check_bound
check_range version r =
    and_then (check_bound version r.lower (same ∷ above ∷ []))
      (check_bound version r.upper (below ∷ same ∷ []))

unfoldable pub version_in_range : Option Text → Option Range → Verdict
unfolding check_range
version_in_range none rng = unknown
version_in_range (some version) none = unknown
version_in_range (some version) (some r) =
    if is_empty version then unknown else check_range version r
