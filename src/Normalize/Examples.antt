-- ===== src/Normalize/Examples.antt =====
-- Normalised entries at concrete values.
use asber.Export.{given_text}
use asber.Normalize.Cve.{parse_nvd_cve}
use asber.Base.{
  All, [], arith, codes, none, refl, some, true, ◌≡◌, List, Option, Text, length, ℕ, ◌∷◌, replicate,
  ◌++◌,
}
use asber.Normalize.Ranges.{stated_range, parse_range-nvd_versions}
use asber.Matching.Range.Scan.{IsPlain}
use asber.Matching.Range.{is_version_char, parse_range, range_or_none}
use asber.Normalize.{
  is_cve_id, nvd_bounds, nvd_versions, valid_cve_id, cpe_vendor_product, CpeMatch, is_cve_number,
  Metric, clip, configured_products, cvss_of, least_metric, pick_cvss,
}
use asber.Normalize.Columns.{parse_nvd_cve-FitsColumns, FitsParsed, metrics_of}
use asber.Normalize.Cve.{entry_of, pick_ssvc, item_products, CveItem}
use asber.Correlation.Nvd.{NvdEntry}
use asber.Normalize.Best.{pick_cvss-IsBest, IsBest}

abbrev fortios : CpeMatch
fortios = record {
  vulnerable = true;
  criteria = codes "cpe:2.3:o:fortinet:forti_os:*:*:*:*:*:*:*:*";
  version_start_including = some (codes "7.0");
  version_start_excluding = some [];
  version_end_including = none;
  version_end_excluding = some (codes "7.2.9");
}

fortios_name : cpe_vendor_product fortios.criteria ≡ (codes "fortinet", codes "forti os")
unfolding cpe_vendor_product
fortios_name = refl

fortios_range : nvd_versions fortios ≡ some (codes ">= 7.0 < 7.2.9")
unfolding nvd_versions nvd_bounds
fortios_range = refl

fortios-IsPlain : All IsPlain (nvd_bounds fortios)
unfolding nvd_bounds is_version_char
fortios-IsPlain = ground arith

parse_range-nvd_versions_example :
    parse_range (nvd_versions fortios) ≡ range_or_none (stated_range fortios)
parse_range-nvd_versions_example = parse_range-nvd_versions fortios fortios-IsPlain

lowered_id : valid_cve_id (codes " cve-2024-3400") ≡ some (codes "CVE-2024-3400")
unfolding valid_cve_id is_cve_id is_cve_number
lowered_id = refl

long_id : valid_cve_id (codes "CVE-2024-12345678") ≡ none
unfolding valid_cve_id is_cve_id is_cve_number
long_id = refl

abbrev metric : Text → Text → Metric
metric source kind = record {
  source = some source;
  kind = some kind;
  base_score = some 98;
  data_severity = some (codes "critical");
  entry_severity = none;
  vector_string = some (codes " CVSS:3.1/AV:N ");
  version = some (codes "3.1");
}

abbrev fortios_item : CveItem
fortios_item = record {
  id = some (codes "cve-2024-3400");
  descriptions = (codes "es", none) ∷ (codes "en", some (codes "Injection")) ∷ [];
  weaknesses = some (codes "NVD-CWE-noinfo") ∷ some (codes "CWE-77") ∷ some (codes "CWE-77") ∷ [];
  metrics = [] ∷ (metric (codes "cna") (codes "Primary") ∷ []) ∷ [];
  ssvc_v203 = [];
  ssvc = [];
  matches = fortios ∷ fortios ∷ [];
  affected = [];
  raw_references = [];
  status = none;
  published_text = none;
  modified_text = none;
}

abbrev plain_text : Option Text → Option ℕ → Text
plain_text value n = given_text value

abbrev no_time : Option Text → Option ℕ
no_time value = none

abbrev parsed_item : Option NvdEntry
parsed_item = parse_nvd_cve plain_text (λ u. u) no_time (some fortios_item)

abbrev shape_of : Option NvdEntry → List Text × Option Text × Option Text × ℕ
shape_of none = ([], none, none, 0)
shape_of (some e) = (e.cwes, e.description, e.cvss_vector, length e.products)

item_run :
    shape_of parsed_item
    ≡ (codes "CWE-77" ∷ [], some (codes "Injection"), some (codes "CVSS:3.1/AV:N"), 1)
unfolding parse_nvd_cve entry_of item_products pick_ssvc pick_cvss configured_products
    cpe_vendor_product nvd_versions nvd_bounds valid_cve_id is_cve_id is_cve_number clip cvss_of
    least_metric
item_run = refl

parse_nvd_cve-FitsColumns_example : FitsParsed (metrics_of (some fortios_item)) parsed_item
parse_nvd_cve-FitsColumns_example =
    parse_nvd_cve-FitsColumns plain_text (λ u. u) no_time (some fortios_item)

-- The CNA's primary score is passed over for NVD's own.
abbrev rated : List Metric
rated = metric (codes "nvd@nist.gov") (codes "Secondary") ∷ []

pick_cvss-IsBest_example :
    (best : Metric) × (pick_cvss
        (replicate 1 [] ++ ((metric (codes "cna") (codes "Primary") ∷ rated) ∷ []))
      ≡ cvss_of best)
    × IsBest best (metric (codes "cna") (codes "Primary") ∷ rated)
pick_cvss-IsBest_example = pick_cvss-IsBest 1 (metric (codes "cna") (codes "Primary")) rated []
