-- ===== src/Matching/Range/Bounds.antt =====
-- `version_in_range` says `within` exactly when both bounds hold.
use mathlib.Core.Path.{subst}
use asber.Base.{
  Bool, Bool-cases, List, Option, Text, [], arith, false, inl, inr, is_empty, length, none, some,
  true, ◌∷◌, ◌≡◌, ◌≢◌, refl, ◌⊎◌,
}
use asber.Matching.Version.{Sign, below, same, above, compare_versions}
use asber.Matching.Range.{
  Op, Bound, Range, parse_range, Verdict, find_bounds, ge, gt, is_lower_op, le, lt, no_bounds,
  outside, range_or_none, set_bounds, unknown, within, check_bound, and_then, bound_verdict,
  check_range, version_in_range,
}

-- The comparison that an operator asks for.
abbrev pub Holds : Op → Sign → Type 0
Holds ge c = c ≢ below
Holds le c = c ≢ above
Holds gt c = c ≡ above
Holds lt c = c ≡ below

-- A version meets a bound: the two can be compared, and the comparison is the one asked for.
abbrev pub Meets : Text → Option Bound → Type 0
Meets version none = Unit {0}
Meets version (some b) = (c : Sign) × (compare_versions version b.version ≡ some c) × Holds b.op c

-- A version breaks a bound: the two can be compared, and the comparison is another one.
abbrev pub Breaks : Text → Option Bound → Type 0
Breaks version none = ⊥
Breaks version (some b) =
    (c : Sign) × (compare_versions version b.version ≡ some c) × ¬ Holds b.op c

abbrev pub OnSide : Bool → Option Bound → Type 0
OnSide side none = Unit {0}
OnSide side (some b) = is_lower_op b.op ≡ side

-- The lower bound of a range has a lower operator, the upper one an upper operator.
pub record HasSides (r : Range) : Type 0 where
  pub low : OnSide true r.lower
  pub high : OnSide false r.upper

set_bounds-HasSides : (r : Range) (bs : List Bound) → HasSides r → HasSides (set_bounds r bs)
unfolding set_bounds
set_bounds-HasSides r [] h = h
set_bounds-HasSides r (b ∷ bs) h = elim (Bool-cases (is_lower_op b.op)) [
  | inl e ↦ rw e (set_bounds-HasSides _ bs (record { low = e; high = h.high }))
  | inr e ↦ rw e (set_bounds-HasSides _ bs (record { low = h.low; high = e }))
]

range_or_none-eq : (r r' : Range) → range_or_none r ≡ some r' → r ≡ r'
range_or_none-eq r r' h = ground arith

parse_range-HasSides : (o : Option Text) (r : Range) → parse_range o ≡ some r → HasSides r
unfolding parse_range
parse_range-HasSides none r h = cc
parse_range-HasSides (some s) r h = elim (Bool-cases (is_empty s)) [
  | inl e ↦ cc (rw e at h)
  | inr e ↦
      subst HasSides (range_or_none-eq _ r (rw e at h))
        (set_bounds-HasSides no_bounds (find_bounds (length s) s) (record { low = tt; high = tt }))
]

abbrev lower_signs : List Sign
lower_signs = same ∷ above ∷ []

abbrev upper_signs : List Sign
upper_signs = below ∷ same ∷ []

-- What an answer about one bound says of how the version compares with it.
abbrev Tells : Verdict → Op → Option Sign → Type 0
Tells within op o = (c : Sign) × (o ≡ some c) × Holds op c
Tells outside op o = (c : Sign) × (o ≡ some c) × ¬ Holds op c
Tells unknown op o = o ≡ none

lower-Tells :
    (op : Op) (o : Option Sign)
    → is_lower_op op ≡ true
    → Tells (bound_verdict op lower_signs o) op o
unfolding bound_verdict
lower-Tells ge none h = refl
lower-Tells ge (some below) h = (below, refl, λ k. k refl)
lower-Tells ge (some same) h = (same, refl, λ k. cc)
lower-Tells ge (some above) h = (above, refl, λ k. cc)
lower-Tells gt none h = refl
lower-Tells gt (some below) h = (below, refl, λ k. cc)
lower-Tells gt (some same) h = (same, refl, λ k. cc)
lower-Tells gt (some above) h = (above, refl, refl)
lower-Tells le o h = cc
lower-Tells lt o h = cc

upper-Tells :
    (op : Op) (o : Option Sign)
    → is_lower_op op ≡ false
    → Tells (bound_verdict op upper_signs o) op o
unfolding bound_verdict
upper-Tells le none h = refl
upper-Tells le (some below) h = (below, refl, λ k. cc)
upper-Tells le (some same) h = (same, refl, λ k. cc)
upper-Tells le (some above) h = (above, refl, λ k. k refl)
upper-Tells lt none h = refl
upper-Tells lt (some below) h = (below, refl, refl)
upper-Tells lt (some same) h = (same, refl, λ k. cc)
upper-Tells lt (some above) h = (above, refl, λ k. cc)
upper-Tells ge o h = cc
upper-Tells gt o h = cc

-- What an answer about a bound that may be missing says.
abbrev TellsBound : Verdict → Text → Option Bound → Type 0
TellsBound within version b = Meets version b
TellsBound outside version b = Breaks version b
TellsBound unknown version none = ⊥
TellsBound unknown version (some b) = compare_versions version b.version ≡ none

Tells-TellsBound :
    (v : Verdict) (version : Text) (b : Bound)
    → Tells v b.op (compare_versions version b.version)
    → TellsBound v version (some b)
Tells-TellsBound within version b h = h
Tells-TellsBound outside version b h = h
Tells-TellsBound unknown version b h = h

check_lower-TellsBound :
    (version : Text) (b : Option Bound)
    → OnSide true b
    → TellsBound (check_bound version b lower_signs) version b
unfolding check_bound
check_lower-TellsBound version none h = tt
check_lower-TellsBound version (some b) h =
    Tells-TellsBound _ version b (lower-Tells b.op (compare_versions version b.version) h)

check_upper-TellsBound :
    (version : Text) (b : Option Bound)
    → OnSide false b
    → TellsBound (check_bound version b upper_signs) version b
unfolding check_bound
check_upper-TellsBound version none h = tt
check_upper-TellsBound version (some b) h =
    Tells-TellsBound _ version b (upper-Tells b.op (compare_versions version b.version) h)

-- What the answer about a range says: inside, both bounds are met; outside, the lower bound is
-- broken, or it is met and the upper one is broken; unknown, one of them could not be compared.
abbrev pub RangeTells : Verdict → Text → Range → Type 0
RangeTells within version r = Meets version r.lower × Meets version r.upper
RangeTells outside version r =
    Breaks version r.lower ⊎ (Meets version r.lower × Breaks version r.upper)
RangeTells unknown version r =
    TellsBound unknown version r.lower
    ⊎ (Meets version r.lower × TellsBound unknown version r.upper)

both-RangeTells :
    (v w : Verdict) (version : Text) (r : Range)
    → TellsBound v version r.lower
    → TellsBound w version r.upper
    → RangeTells (and_then v w) version r
both-RangeTells within within version r h k = (h, k)
both-RangeTells within outside version r h k = inr (h, k)
both-RangeTells within unknown version r h k = inr (h, k)
both-RangeTells outside w version r h k = inl h
both-RangeTells unknown w version r h k = inl h

-- Of a non-empty version and a range that `parse_range` returned, `version_in_range` answers
-- `within` only if both bounds are met, `outside` only if a bound that was compared is broken and
-- the one before it is met, and `unknown` only if a bound could not be compared.
pub version_in_range_tells :
    (o : Option Text) (r : Range) (version : Text)
    → parse_range o ≡ some r
    → is_empty version ≡ false
    → RangeTells (version_in_range (some version) (some r)) version r
unfolding version_in_range check_range
version_in_range_tells o r version parsed filled =
    let sides = parse_range-HasSides o r parsed in
    rw filled (
      both-RangeTells _ _ version r (check_lower-TellsBound version r.lower sides.low)
        (check_upper-TellsBound version r.upper sides.high))
