-- ===== src/Normalize/Ranges.antt =====
-- The version ranges that are stored from NVD, and what the matcher reads in them.
use asber.Matching.Range.Scan.{IsPlain}
use asber.Base.{
  All, List, Option, Text, [], codes, if◌then◌else◌, is_empty, join, map, none, refl, some, ◌++◌,
  ◌∷◌, ◌≡◌, ap, ◌∙◌,
}
use asber.Matching.Range.{
  Range, le, parse_range, set_bounds, range_or_none, ge, present, gt, no_bounds, bound_text, lt, Op,
  Bound,
}
use asber.Normalize.{nvd_versions, bound_given, nvd_bounds, CpeMatch, text_or_none}
use asber.Matching.Range.RoundTrip.{parse_bounds, filled_join}

abbrev given_version : Option Text → Option Text
given_version none = none
given_version (some t) = if is_empty t then none else some t

abbrev bound_with : Op → Option Text → Option Bound
bound_with op none = none
bound_with op (some t) = some (record { op = op; version = t })

abbrev or_bound : Option Bound → Option Bound → Option Bound
or_bound none b = b
or_bound (some a) b = some a

-- The bounds of a match: of two on one side the one that excludes its version.
abbrev pub stated_range : CpeMatch → Range
stated_range m = record {
  lower =
      or_bound (bound_with gt (given_version m.version_start_excluding))
        (bound_with ge (given_version m.version_start_including));
  upper =
      or_bound (bound_with lt (given_version m.version_end_excluding))
        (bound_with le (given_version m.version_end_including));
}

bound_given_lem :
    (op : Op) (o : Option Text) → bound_given op o ≡ present (bound_with op (given_version o))
bound_given_lem op none = refl
bound_given_lem op (some []) = refl
bound_given_lem op (some (c ∷ t)) = refl

set_bounds_lem :
    (a b c d : Option Text)
    → set_bounds no_bounds (
        present (bound_with ge a)
        ++ (present (bound_with gt b) ++ (present (bound_with le c) ++ present (bound_with lt d))))
      ≡ record {
        lower = or_bound (bound_with gt b) (bound_with ge a);
        upper = or_bound (bound_with lt d) (bound_with le c);
      }
unfolding set_bounds
set_bounds_lem none none none none = refl
set_bounds_lem none none none (some d) = refl
set_bounds_lem none none (some c) none = refl
set_bounds_lem none none (some c) (some d) = refl
set_bounds_lem none (some b) none none = refl
set_bounds_lem none (some b) none (some d) = refl
set_bounds_lem none (some b) (some c) none = refl
set_bounds_lem none (some b) (some c) (some d) = refl
set_bounds_lem (some a) none none none = refl
set_bounds_lem (some a) none none (some d) = refl
set_bounds_lem (some a) none (some c) none = refl
set_bounds_lem (some a) none (some c) (some d) = refl
set_bounds_lem (some a) (some b) none none = refl
set_bounds_lem (some a) (some b) none (some d) = refl
set_bounds_lem (some a) (some b) (some c) none = refl
set_bounds_lem (some a) (some b) (some c) (some d) = refl

nvd_bounds_lem :
    (m : CpeMatch)
    → nvd_bounds m
      ≡ present (bound_with ge (given_version m.version_start_including))
        ++ (present (bound_with gt (given_version m.version_start_excluding))
            ++ (present (bound_with le (given_version m.version_end_including))
                ++ present (bound_with lt (given_version m.version_end_excluding))))
unfolding nvd_bounds
nvd_bounds_lem m =
    rw
      (
        bound_given_lem ge m.version_start_including,
        bound_given_lem gt m.version_start_excluding,
        bound_given_lem le m.version_end_including,
        bound_given_lem lt m.version_end_excluding,
      )
      refl

parse_list :
    (bs : List Bound)
    → All IsPlain bs
    → parse_range (text_or_none (join (codes " ") (map bound_text bs)))
      ≡ range_or_none (set_bounds no_bounds bs)
unfolding parse_range join set_bounds
parse_list [] h = refl
parse_list (b ∷ bs) h = rw (filled_join b bs) (parse_bounds b bs h)

-- The matcher reads the range that is stored for a CPE match of NVD as its bounds, if none of their
-- versions holds a blank or an operator: no range if no bound is given, and of two bounds on one
-- side the one that excludes its version.
pub parse_range-nvd_versions :
    (m : CpeMatch)
    → All IsPlain (nvd_bounds m)
    → parse_range (nvd_versions m) ≡ range_or_none (stated_range m)
unfolding nvd_versions
parse_range-nvd_versions m h =
    let a = m.version_start_including in
    let b = m.version_start_excluding in
    let c = m.version_end_including in
    let d = m.version_end_excluding in
    parse_list (nvd_bounds m) h
    ∙ ap (λ bs. range_or_none (set_bounds no_bounds bs)) (nvd_bounds_lem m)
    ∙ ap range_or_none
        (set_bounds_lem (given_version a) (given_version b) (given_version c) (given_version d))
