-- ===== src/Normalize.antt =====
-- backend/app/services/normalize.py: `valid_cve_id`, `_pick_cvss`, `_cpe_vendor_product` and the
-- products that `parse_nvd_cve` reads from the configurations of a CVE; the children have the rest.
-- An absent key is `none`.
pub mod Cve
pub mod Kev
pub mod Products
pub mod Best
pub mod Columns
pub mod Severity
pub mod Ranges
mod Examples
use asber.Export.{given_text}
use asber.Base.{
  drop, Bool, List, Option, Text, [], all, codes, false, get_elem?, if◌then◌else◌, is_digit,
  is_empty, join, leb, length, ltb, map, none, one_of, some, span, split_on, starts_with, strip,
  take, text_eq, upper, ℕ, ◌&&◌, ◌++◌, ◌==◌, ◌||◌, ◌∷◌,
}
use asber.Correlation.Merge.{is_absent}
use asber.Matching.Range.{le, ge, gt, Op, bound_text, lt, Bound}
use asber.Correlation.Nvd.{NvdProduct}

-- `\d{4}-\d{4,7}` and the end of the text
unfoldable pub is_cve_number : Text → Bool
unfolding is_digit
is_cve_number s =
    let (year, rest) = span is_digit s in
    length year == 4
    && (starts_with rest (codes "-")
        && (all is_digit (drop 1 rest) && (leb 5 (length rest) && leb (length rest) 8)))

-- `CVE_ID_RE.match`
unfoldable pub is_cve_id : Text → Bool
unfolding starts_with
is_cve_id s = starts_with s (codes "CVE-") && is_cve_number (drop 4 s)

-- The id, or `none` for `MalformedRecord`.
unfoldable pub valid_cve_id : Text → Option Text
unfolding strip upper
valid_cve_id value = let id = upper (strip value) in if is_cve_id id then some id else none

-- One entry of a metric; `data` and its own keys are flat here. A score is a number of tenths.
pub record Metric : Type 0 where
  pub source : Option Text
  pub kind : Option Text
  pub base_score : Option ℕ
  pub data_severity : Option Text
  pub entry_severity : Option Text
  pub vector_string : Option Text
  pub version : Option Text

pub record Cvss : Type 0 where
  pub score : Option ℕ
  pub severity : Option Text
  pub vector : Option Text
  pub version : Option Text

abbrev pub is_text : Text → Option Text → Bool
is_text t none = false
is_text t (some s) = text_eq s t

unfoldable pub nvd_source_name : Text
nvd_source_name = codes "nvd@nist.gov"

-- `_cvss_rank`: `False` comes before `True`.
unfoldable pub cvss_rank : Metric → ℕ × ℕ
unfolding nvd_source_name
cvss_rank entry = (
  if is_text nvd_source_name entry.source then 0 else 1,
  if is_text (codes "Primary") entry.kind then 0 else 1,
)

abbrev pub rank_before : ℕ × ℕ → ℕ × ℕ → Bool
rank_before (a, b) (c, d) = ltb a c || (a == c && ltb b d)

-- `min(entries, key=_cvss_rank)`: the first of the least ones.
unfoldable pub least_metric : Metric → List Metric → Metric
least_metric best [] = best
least_metric best (e ∷ entries) =
    least_metric (if rank_before (cvss_rank e) (cvss_rank best) then e else best) entries

-- `clip`
unfoldable pub clip : Option Text → ℕ → Option Text
unfolding strip
clip none n = none
clip (some value) n = if is_empty (strip value) then none else some (take n (strip value))

-- `a or b`
abbrev pub or_next : Option Text → Option Text → Option Text
or_next a b = if is_absent a then b else a

-- `(severity or "").upper() or None`
abbrev pub upper_severity : Option Text → Option Text
unfolding upper
upper_severity severity = if is_absent severity then none else some (upper (given_text severity))

unfoldable pub cvss_of : Metric → Cvss
cvss_of entry = record {
  score = entry.base_score;
  severity = upper_severity (or_next entry.data_severity entry.entry_severity);
  vector = clip entry.vector_string 200;
  version = clip entry.version 8;
}

-- `_pick_cvss`: the lists of the metrics by `_CVSS_KEYS`, the newest version first.
unfoldable pub pick_cvss : List (List Metric) → Cvss
pick_cvss [] = record { score = none; severity = none; vector = none; version = none }
pick_cvss ([] ∷ metrics) = pick_cvss metrics
pick_cvss ((e ∷ entries) ∷ metrics) = cvss_of (least_metric e entries)

-- An element of `cpeMatch` with a text as `criteria`.
pub record CpeMatch : Type 0 where
  pub vulnerable : Bool
  pub criteria : Text
  pub version_start_including : Option Text
  pub version_start_excluding : Option Text
  pub version_end_including : Option Text
  pub version_end_excluding : Option Text

abbrev pub spaced_name : Text → Text
spaced_name = map (λ c. if c == b'_' then 32 else c)

abbrev pub part_or_empty : Option Text → Text
part_or_empty part = spaced_name (given_text part)

-- `_cpe_vendor_product`
unfoldable pub cpe_vendor_product : Text → Text × Text
unfolding split_on
cpe_vendor_product criteria =
    let parts = split_on (λ c. c == b':') criteria in
    if ltb 5 (length parts)
    then (part_or_empty (get_elem? parts 3), part_or_empty (get_elem? parts 4))
    else ([], [])

-- `if m.get(k)`, as the bound with the label.
abbrev pub bound_given : Op → Option Text → List Bound
bound_given op none = []
bound_given op (some version) =
    if is_empty version then [] else record { op = op; version = version } ∷ []

unfoldable pub nvd_bounds : CpeMatch → List Bound
nvd_bounds m =
    bound_given ge m.version_start_including
    ++ (bound_given gt m.version_start_excluding
        ++ (bound_given le m.version_end_including ++ bound_given lt m.version_end_excluding))

abbrev pub text_or_none : Text → Option Text
text_or_none t = if is_empty t then none else some t

-- `rng or None`
unfoldable pub nvd_versions : CpeMatch → Option Text
unfolding bound_text join
nvd_versions m = text_or_none (join (codes " ") (map bound_text (nvd_bounds m)))

abbrev pub configured_product : CpeMatch → NvdProduct
configured_product m =
    let (vendor, product) = cpe_vendor_product m.criteria in
    record {
      vendor = take 200 vendor;
      product = take 300 product;
      cpe = take 400 m.criteria;
      versions = nvd_versions m;
    }

abbrev pub is_same_key : NvdProduct → NvdProduct → Bool
is_same_key p q = text_eq p.vendor q.vendor && text_eq p.product q.product && text_eq p.cpe q.cpe

-- `products[key] = …`
abbrev pub put_product : NvdProduct → List NvdProduct → List NvdProduct
put_product p [] = p ∷ []
put_product p (q ∷ qs) = let rest = put_product p qs in if is_same_key q p then p ∷ qs else q ∷ rest

-- The loop over the matches of all nodes.
unfoldable pub configured_products : List CpeMatch → List NvdProduct → List NvdProduct
configured_products [] products = products
configured_products (m ∷ ms) products =
    configured_products ms
      (if m.vulnerable then put_product (configured_product m) products else products)

-- `ref_type` of a reference with these tags.
unfoldable pub reference_type : List Text → Text
reference_type tags =
    if one_of (codes "Exploit") tags
    then codes "exploit"
    else if one_of (codes "Vendor Advisory") tags
    then codes "vendor_advisory"
    else if one_of (codes "Patch") tags
    then codes "patch"
    else if one_of (codes "Mitigation") tags
    then codes "mitigation"
    else codes "reference"
