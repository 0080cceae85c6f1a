-- ===== src/Matching/Range/RoundTrip.antt =====
-- `parse_range` reads back what `Range.__str__` writes and what backend/app/services/normalize.py
-- stores for a CPE match.
use mathlib.Core.List.{append-nil}
use asber.Base.{
  All, List, Option, codes, false, is_empty, join, map, none, some, true, ◌++◌, ◌∷◌, ◌≡◌, Text, [],
  ap, arith, refl, sym, ◌∙◌, length,
}
use asber.Matching.Range.{
  Bound, Range, parse_range, bound_text, is_lower_op, no_bounds, present, range_or_none, set_bounds,
  Op, ge, gt, le, lt, op_text, range_text,
}
use asber.Matching.Range.Scan.{IsPlain, find_bounds-join}

-- A lower bound has a lower operator, an upper one an upper operator, and both can be read back.
abbrev pub IsLowerBound : Option Bound → Type 0
IsLowerBound none = Unit {0}
IsLowerBound (some b) = (is_lower_op b.op ≡ true) × IsPlain b

abbrev pub IsUpperBound : Option Bound → Type 0
IsUpperBound none = Unit {0}
IsUpperBound (some b) = (is_lower_op b.op ≡ false) × IsPlain b

pub record IsPrintable (r : Range) : Type 0 where
  pub low : IsLowerBound r.lower
  pub high : IsUpperBound r.upper
  pub bounded : is_empty (present r.lower ++ present r.upper) ≡ false

filled_front : (op : Op) (v s : Text) → is_empty ((op_text op ++ codes " " ++ v) ++ s) ≡ false
unfolding op_text
filled_front ge v s = refl
filled_front le v s = refl
filled_front gt v s = refl
filled_front lt v s = refl

filled_bound : (b : Bound) (s : Text) → is_empty (bound_text b ++ s) ≡ false
unfolding bound_text
filled_bound b s = filled_front b.op b.version s

pub filled_join :
    (b : Bound) (bs : List Bound) → is_empty (join (codes " ") (map bound_text (b ∷ bs))) ≡ false
unfolding join
filled_join b [] = ap is_empty (sym (append-nil (bound_text b))) ∙ filled_bound b []
filled_join b (b' ∷ bs) = filled_bound b _

-- What the scan and the loop make of a list of printed bounds.
pub parse_bounds :
    (b : Bound) (bs : List Bound)
    → All IsPlain (b ∷ bs)
    → parse_range (some (join (codes " ") (map bound_text (b ∷ bs))))
      ≡ range_or_none (set_bounds no_bounds (b ∷ bs))
unfolding parse_range
parse_bounds b bs h =
    let t : Text = join (codes " ") (map bound_text (b ∷ bs)) in
    rw (filled_join b bs, find_bounds-join (b ∷ bs) (length t) h (omega arith))

parse_range_ends :
    (l u : Option Bound)
    → IsPrintable (record { lower = l; upper = u })
    → parse_range (some (range_text (record { lower = l; upper = u })))
      ≡ some (record { lower = l; upper = u })
unfolding range_text set_bounds
parse_range_ends none none h = cc (h.bounded)
parse_range_ends none (some b) h = parse_bounds b [] (h.high.1, tt) ∙ ground arith
parse_range_ends (some a) none h = parse_bounds a [] (h.low.1, tt) ∙ ground arith
parse_range_ends (some a) (some b) h =
    parse_bounds a (b ∷ []) (h.low.1, (h.high.1, tt)) ∙ ground arith

-- A range that is printed by `Range.__str__` is parsed back to itself, if it has a bound, each
-- bound has an operator of its side, and no version of it is empty or holds a blank or an operator.
pub parse_range-range_text :
    (r : Range) → IsPrintable r → parse_range (some (range_text r)) ≡ some r
parse_range-range_text r h = parse_range_ends r.lower r.upper h
