-- ===== src/Rampart/Report.antt =====
-- backend/app/services/rampart/export.py: `_title`, `build` and `to_csv`.
pub mod Cells
pub mod Markdown
use asber.Base.{
  Bool, List, Option, Text, [], codes, decimal, false, find, if◌then◌else◌, is_empty, leb, length,
  ltb, map, none, reverse, some, sort_by, strip, take, true, ℕ, ◌%◌, ◌&&◌, ◌++◌, ◌/◌, ◌==◌, ◌||◌,
  ◌∷◌,
}
use asber.Rampart.Tables.{Environment, EnvironmentMatch}
use asber.Matching.Asset.{
  State, Method, vendor_product, medium, Confidence, cpe_version_range, cpe_exact, low, affected,
  kev_fallback, not_affected, possibly_affected, high,
}
use asber.Models.{EnvironmentAsset, Vulnerability}
use asber.Export.Csv.{write_rows}
use asber.Export.{cell}

abbrev pub state_text : State → Text
state_text affected = codes "affected"
state_text possibly_affected = codes "possibly_affected"
state_text not_affected = codes "not_affected"

abbrev pub method_text : Method → Text
method_text cpe_exact = codes "cpe_exact"
method_text cpe_version_range = codes "cpe_version_range"
method_text vendor_product = codes "vendor_product"
method_text kev_fallback = codes "kev_fallback"

abbrev pub confidence_text : Confidence → Text
confidence_text high = codes "high"
confidence_text medium = codes "medium"
confidence_text low = codes "low"

-- The index in `STATE_ORDER`.
abbrev pub state_index : State → ℕ
state_index affected = 0
state_index possibly_affected = 1
state_index not_affected = 2

-- `text.rsplit(" ", 1)[0]`, and whether there is a blank.
abbrev pub cut_at_blank : Text → Bool × Text
cut_at_blank [] = (false, [])
cut_at_blank (c ∷ s) =
    let (found, front) = cut_at_blank s in
    if found then (true, c ∷ front) else if c == 32 then (true, []) else (false, c ∷ s)

unfoldable pub title_limit : ℕ
title_limit = 90

-- `_title(value) or None`, of a value that is a text or absent; 0x2026 is the ellipsis.
unfoldable pub title_of : Option Text → Option Text
unfolding strip title_limit
title_of none = none
title_of (some value) =
    let text = strip value in
    if is_empty text
    then none
    else if leb (length text) title_limit
    then some text
    else some ((cut_at_blank (take title_limit text)).1 ++ 0x2026 ∷ [])

pub record ReportRow : Type 0 where
  pub cve_id : Text
  pub state : State
  pub method : Method
  pub confidence : Confidence
  pub evidence : Text
  pub exposure : ℕ
  pub asset : Option Text
  pub asset_software : Option Text
  pub asset_version : Option Text
  pub title : Option Text
  pub severity : Option Text
  pub cvss_score : Option ℕ
  pub relevance_score : Option ℕ
  pub in_kev : Bool

pub record AssetEntry : Type 0 where
  pub label : Text
  pub category : Text
  pub vendor : Text
  pub product : Text
  pub version : Option Text
  pub catalogued : Bool
  pub hardware_model : Option Text

pub record Report : Type 0 where
  pub environment : Text
  pub generated_at : Option Text
  pub assets : List AssetEntry
  pub matches : List ReportRow

abbrev pub asset_entry : EnvironmentAsset → AssetEntry
asset_entry a = record {
  label = a.label;
  category = a.category;
  vendor = a.vendor;
  product = a.product;
  version = a.version;
  catalogued = a.catalogued;
  hardware_model = a.hardware_model;
}

-- The row of a match whose asset and vulnerability are not found.
abbrev pub bare_row : EnvironmentMatch → ReportRow
bare_row m = record {
  cve_id = m.cve_id;
  state = m.state;
  method = m.method;
  confidence = m.confidence;
  evidence = m.evidence;
  exposure = m.exposure;
  asset = none;
  asset_software = none;
  asset_version = none;
  title = none;
  severity = none;
  cvss_score = none;
  relevance_score = none;
  in_kev = false;
}

abbrev pub with_asset : Option EnvironmentAsset → ReportRow → ReportRow
unfolding strip
with_asset none row = row
with_asset (some a) row = record row {
  asset = some a.label;
  asset_software = some (strip (a.vendor ++ 32 ∷ a.product));
  asset_version = a.version;
}

-- `getattr(vuln, "severity", None)` is always `None`: a `Vulnerability` has no such attribute.
abbrev pub with_vulnerability : Option Vulnerability → ReportRow → ReportRow
with_vulnerability none row = row
with_vulnerability (some v) row = record row {
  title = title_of v.title;
  severity = none;
  cvss_score = v.cvss_score;
  relevance_score = some v.relevance_score;
  in_kev = v.in_kev;
}

abbrev pub score_or_zero : Option ℕ → ℕ
score_or_zero none = 0
score_or_zero (some n) = n

-- The order of the sort key, which falls with the relevance.
abbrev pub row_before : ReportRow → ReportRow → Bool
row_before a b =
    ltb (state_index a.state) (state_index b.state)
    || (state_index a.state == state_index b.state
        && leb (score_or_zero b.relevance_score) (score_or_zero a.relevance_score))

-- `by_asset.get(…)`: of two assets with one id the later one counts.
unfoldable pub report_row :
    List EnvironmentAsset → (Text → Option Vulnerability) → EnvironmentMatch → ReportRow
report_row assets vulns m =
    with_vulnerability (vulns m.cve_id)
      (with_asset (find (λ a. a.id == m.asset_id) (reverse assets)) (bare_row m))

unfoldable pub build :
    Environment
    → List EnvironmentAsset
    → List EnvironmentMatch
    → (Text → Option Vulnerability)
    → Report
build env assets matches vulns = record {
  environment = env.name;
  generated_at = none;
  assets = map asset_entry assets;
  matches = sort_by row_before (map (report_row assets vulns) matches);
}

-- `str` of a number of tenths.
abbrev pub tenths : ℕ → Text
unfolding decimal
tenths n = decimal (n / 10) ++ b'.' ∷ decimal (n % 10)

abbrev pub or_blank : {A : Type 0} → (A → Text) → Option A → Text
or_blank show none = []
or_blank show (some a) = show a

unfoldable pub csv_header : List Text
csv_header =
    codes "state"
    ∷ codes "cve_id"
    ∷ codes "title"
    ∷ codes "severity"
    ∷ codes "cvss"
    ∷ codes "relevance"
    ∷ codes "in_kev"
    ∷ codes "asset"
    ∷ codes "software"
    ∷ codes "version"
    ∷ codes "method"
    ∷ codes "confidence"
    ∷ codes "evidence"
    ∷ []

unfoldable pub row_values : ReportRow → List Text
unfolding decimal
row_values r =
    state_text r.state
    ∷ r.cve_id
    ∷ or_blank (λ t. t) r.title
    ∷ or_blank (λ t. t) r.severity
    ∷ or_blank tenths r.cvss_score
    ∷ or_blank decimal r.relevance_score
    ∷ (if r.in_kev then codes "yes" else codes "no")
    ∷ or_blank (λ t. t) r.asset
    ∷ or_blank (λ t. t) r.asset_software
    ∷ or_blank (λ t. t) r.asset_version
    ∷ method_text r.method
    ∷ confidence_text r.confidence
    ∷ r.evidence
    ∷ []

unfoldable pub to_csv : Report → Text
to_csv report = write_rows (csv_header ∷ map (λ r. map cell (row_values r)) report.matches)
