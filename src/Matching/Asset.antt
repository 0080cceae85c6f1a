-- ===== src/Matching/Asset.antt =====
-- The verdict of backend/app/services/rampart/matching.py: `normalise`, `_same_product` and
-- `match_asset`.
pub mod Verdicts
pub mod Soundness
use asber.Base.{
  ℕ, Bool, true, false, ◌&&◌, ◌||◌, Option, none, some, List, [], ◌∷◌, ◌++◌, take, filter, is_empty,
  ◌==◌, if◌then◌else◌, Text, codes, text_eq, one_of, strip, lower, is_space, join,
}
use asber.Models.{AffectedProduct, EnvironmentAsset, Vulnerability}
use asber.Matching.Version.{same, compare_versions, Sign}
use asber.Matching.Range.{
  within, outside, unknown, range_text, parse_range, cpe_version, version_in_range, Range, Verdict,
}
use asber.Correlation.Recompute.Techniques.{reason}

pub data State : Type 0 where
  affected possibly_affected not_affected : State

pub data Method : Type 0 where
  cpe_exact cpe_version_range vendor_product kev_fallback : Method

pub data Confidence : Type 0 where
  high medium low : Confidence

pub record MatchResult : Type 0 where
  pub state : State
  pub method : Method
  pub confidence : Confidence
  pub evidence : Text

-- `[\s_]`
unfoldable pub is_blank : ℕ → Bool
unfolding is_space
is_blank c = is_space c || c == b'_'

-- `re.sub(r"[\s_]+", " ", …)`; the first argument says whether the scan stands inside a run.
unfoldable pub fold_blanks : Bool → Text → Text
unfolding is_blank
fold_blanks inside [] = []
fold_blanks inside (c ∷ s) =
    let rest = fold_blanks (is_blank c) s in
    if is_blank c then (if inside then rest else codes " " ++ rest) else c ∷ rest

unfoldable pub normalise : Text → Text
unfolding fold_blanks strip lower
normalise value = fold_blanks false (lower (strip value))

abbrev pub text_or_empty : Option Text → Text
text_or_empty none = []
text_or_empty (some s) = s

-- `vendor in ("", "n/a")`
abbrev pub is_filler : Text → Bool
is_filler vendor = one_of vendor ([] ∷ codes "n/a" ∷ [])

-- `_same_product`, on the two vendors and products
unfoldable pub same_product : Text → Text → Text → Text → Bool
same_product vendor product vendor' product' =
    let a_vendor = normalise vendor in
    let a_product = normalise product in
    let p_vendor = normalise vendor' in
    let p_product = normalise product' in
    if is_empty a_product || is_empty p_product
    then false
    else if is_filler p_vendor || is_filler a_vendor
    then text_eq a_product p_product
    else text_eq a_vendor p_vendor && text_eq a_product p_product

abbrev pub is_candidate : EnvironmentAsset → AffectedProduct → Bool
is_candidate asset p = same_product asset.vendor asset.product p.vendor p.product

-- `_same_product(asset, vuln)`
abbrev pub names_vulnerability : EnvironmentAsset → Vulnerability → Bool
names_vulnerability asset v =
    same_product asset.vendor asset.product (text_or_empty v.vendor) (text_or_empty v.product)

abbrev pub label_of : EnvironmentAsset → Text
label_of asset = strip (asset.vendor ++ codes " " ++ asset.product)

-- What one round of the loop over the candidates does: return, rule the row out, or leave it open.
pub data Judgement : Type 0 where
  hit : MatchResult → Judgement
  ruled_out : Text → Judgement
  undecided : Judgement

abbrev pub range_evidence : Option Range → Text
range_evidence none = codes "None"
range_evidence (some r) = range_text r

-- The round on a row that pins a version, by how the versions compare.
abbrev pub judge_pinned : Text → Text → AffectedProduct → Text → Option Sign → Judgement
judge_pinned label version p pinned none = undecided
judge_pinned label version p pinned (some same) = hit (record {
  state = affected;
  method = cpe_exact;
  confidence = high;
  evidence =
      label
      ++ codes " "
      ++ version
      ++ codes " is the exact version named by "
      ++ p.cpe
      ++ codes ".";
})
judge_pinned label version p pinned (some _) = ruled_out (p.cpe ++ codes " names " ++ pinned)

-- The round on any other row, by what its range says.
abbrev pub judge_range : Text → Text → AffectedProduct → Option Range → Verdict → Judgement
judge_range label version p rng within = hit (record {
  state = affected;
  method = cpe_version_range;
  confidence = high;
  evidence =
      label
      ++ codes " "
      ++ version
      ++ codes " falls inside the affected range "
      ++ range_evidence rng
      ++ (if is_empty p.cpe then codes "." else codes " (" ++ p.cpe ++ codes ").");
})
judge_range label version p rng outside = ruled_out (range_evidence rng)
judge_range label version p rng unknown = undecided

abbrev pub judge_row : Text → Text → AffectedProduct → Option Text → Judgement
judge_row label version p (some pinned) =
    judge_pinned label version p pinned (compare_versions version pinned)
judge_row label version p none =
    let rng = parse_range p.versions in
    judge_range label version p rng (version_in_range (some version) rng)

-- One round of the loop.
unfoldable pub judge : Text → Text → AffectedProduct → Judgement
judge label version p = judge_row label version p (cpe_version p.cpe)

-- How the loop ends: by a return, or with what was ruled out and whether a row was left open.
pub data Outcome : Type 0 where
  returned : MatchResult → Outcome
  finished : List Text → Bool → Outcome

abbrev pub after : Judgement → List Text → Bool → (List Text → Bool → Outcome) → Outcome
after (hit r) out_of_range open_rows next = returned r
after (ruled_out reason) out_of_range open_rows next = next (out_of_range ++ reason ∷ []) open_rows
after undecided out_of_range open_rows next = next out_of_range true

-- The loop over the candidates.
unfoldable pub judge_all : Text → Text → List AffectedProduct → List Text → Bool → Outcome
judge_all label version [] out_of_range open_rows = finished out_of_range open_rows
judge_all label version (p ∷ ps) out_of_range open_rows =
    after (judge label version p) out_of_range open_rows
      (λ outs b. judge_all label version ps outs b)

-- What follows the loop.
abbrev pub conclude : Text → Text → Outcome → MatchResult
conclude label version (returned r) = r
conclude label version (finished out_of_range open_rows) =
    if open_rows || is_empty out_of_range
    then record {
      state = possibly_affected;
      method = vendor_product;
      confidence = medium;
      evidence =
          label
          ++ codes " is listed as affected, but version "
          ++ version
          ++ codes " could not be compared against the published range.";
    }
    else record {
      state = not_affected;
      method = cpe_version_range;
      confidence = medium;
      evidence =
          label
          ++ codes " "
          ++ version
          ++ codes " is outside every affected range ("
          ++ join (codes "; ") (take 3 out_of_range)
          ++ codes ").";
    }

-- The part of `match_asset` behind the test for candidates.
unfoldable pub match_candidates : EnvironmentAsset → List AffectedProduct → MatchResult
unfolding judge_all
match_candidates asset candidates =
    let label = label_of asset in
    let version = text_or_empty asset.version in
    if is_empty version
    then record {
      state = possibly_affected;
      method = vendor_product;
      confidence = medium;
      evidence =
          label ++ codes " is listed as affected, but no version is recorded for this asset.";
    }
    else conclude label version (judge_all label version candidates [] false)

-- The case of a KEV entry without product rows.
unfoldable pub match_kev : EnvironmentAsset → Option Vulnerability → Option MatchResult
match_kev asset none = none
match_kev asset (some v) =
    if v.in_kev && names_vulnerability asset v
    then some (record {
      state = possibly_affected;
      method = kev_fallback;
      confidence = low;
      evidence =
          asset.vendor
          ++ codes " "
          ++ asset.product
          ++ codes
              " is named in the CISA KEV entry, which carries no machine-readable affected versions.";
    })
    else none

unfoldable pub match_asset :
    EnvironmentAsset → List AffectedProduct → Option Vulnerability → Option MatchResult
unfolding match_candidates match_kev
match_asset asset products vuln =
    let candidates = filter (is_candidate asset) products in
    if is_empty candidates then match_kev asset vuln else some (match_candidates asset candidates)
