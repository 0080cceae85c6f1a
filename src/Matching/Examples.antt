-- ===== src/Matching/Examples.antt =====
-- The matching theorems at concrete assets and advisories, and runs of the code.
use asber.Base.{
  List, Text, [], codes, none, refl, some, true, ◌∷◌, ◌≡◌, All, Any, false, filter, inl, inr,
  is_empty, not, ◌&&◌,
}
use asber.Models.{AffectedProduct, EnvironmentAsset}
use asber.Matching.Version.{same, above, compare_versions, tokens, below, compare_lists, pad}
use asber.Matching.Asset.{
  match_asset, MatchResult, affected, is_candidate, judge, match_candidates, normalise,
  not_affected, same_product,
}
use asber.Matching.Range.{
  Range, lt, is_version_char, range_text, ge, version_in_range, check_range, cpe_version,
  parse_range, match_bound,
}
use asber.Matching.Range.RoundTrip.{IsPrintable, parse_range-range_text}
use asber.Matching.Version.Order.{flip_result, compare_versions_is_order, is_at_most}
use asber.Matching.Asset.Soundness.{
  affected_has_evidence, not_affected_is_proved, not_affected_is_found, version_of, Shows,
}
use asber.Matching.Asset.Verdicts.{RulesOut}
use asber.Matching.Range.Bounds.{version_in_range_tells, RangeTells}

abbrev firewall : EnvironmentAsset
firewall = record {
  id = 1;
  owner_id = codes "me";
  environment_id = 1;
  label = codes "edge";
  category = codes "firewall";
  vendor = codes "Fortinet";
  product = codes "FortiOS";
  version = some (codes "7.2.8");
  cpe = none;
  catalogued = true;
  hardware_model = none;
  notes = none;
}

abbrev row : Text → Text → AffectedProduct
row cpe versions = record {
  cve_id = codes "CVE-2024-0001";
  vendor = codes "fortinet";
  product = codes "fortios";
  cpe = cpe;
  versions = some versions;
  source_key = codes "nvd";
}

abbrev listed : List AffectedProduct
listed = row [] (codes ">= 7.0.0 < 7.2.9") ∷ []

abbrev fixed : List AffectedProduct
fixed = row [] (codes "< 7.2.8") ∷ row (codes "cpe:2.3:o:fortinet:fortios:7.4.0:*") [] ∷ []

compare_versions_build : compare_versions (codes "10.0.33158") (codes "10.0.3981") ≡ some above
unfolding compare_versions tokens compare_lists pad
compare_versions_build = refl

compare_versions_padded : compare_versions (codes "7.2") (codes " 7.2.0") ≡ some same
unfolding compare_versions tokens compare_lists pad
compare_versions_padded = refl

compare_versions_unread : compare_versions (codes "Hh-B20211125.1046") (codes "1.0") ≡ none
unfolding compare_versions tokens
compare_versions_unread = refl

compare_versions_is_order_example :
    (compare_versions (codes "7.10") (codes "7.2")
      ≡ flip_result (compare_versions (codes "7.2") (codes "7.10")))
    × ((is_at_most (compare_versions (codes "7.2") (codes "7.10"))
          && is_at_most (compare_versions (codes "7.10") (codes "10.1"))
          && not (is_at_most (compare_versions (codes "7.2") (codes "10.1"))))
        ≡ false)
compare_versions_is_order_example =
    compare_versions_is_order (codes "7.2") (codes "7.10") (codes "10.1")

abbrev seven : Range
seven = record {
  lower = some (record { op = ge; version = codes "7.0.0" });
  upper = some (record { op = lt; version = codes "7.2.9" });
}

seven-IsPrintable : IsPrintable seven
unfolding is_version_char
seven-IsPrintable = record {
  low = (refl, (refl, refl));
  high = (refl, (refl, refl));
  bounded = refl;
}

range_text-seven : range_text seven ≡ codes ">= 7.0.0 < 7.2.9"
unfolding range_text
range_text-seven = refl

seven_reads_back : parse_range (some (range_text seven)) ≡ some seven
seven_reads_back = parse_range-range_text seven seven-IsPrintable

version_in_range_tells_example :
    RangeTells (version_in_range (some (codes "7.2.8")) (some seven)) (codes "7.2.8") seven
unfolding parse_range match_bound
version_in_range_tells_example =
    version_in_range_tells (some (codes ">= 7.0.0 < 7.2.9")) seven (codes "7.2.8") refl refl

firewall_matched : match_asset firewall listed none ≡ some (match_candidates firewall listed)
unfolding match_asset same_product normalise
firewall_matched = refl

firewall_state : (match_candidates firewall listed).state ≡ affected
unfolding match_candidates judge compare_versions tokens compare_lists pad version_in_range
    check_range parse_range match_bound cpe_version
firewall_state = refl

affected_has_evidence_example :
    (is_empty (version_of firewall) ≡ false)
    × Any (λ p. (is_candidate firewall p ≡ true) × Shows (version_of firewall) p) listed
affected_has_evidence_example =
    affected_has_evidence firewall listed none (match_candidates firewall listed) firewall_matched
      firewall_state

fixed_matched : match_asset firewall fixed none ≡ some (match_candidates firewall fixed)
unfolding match_asset same_product normalise
fixed_matched = refl

fixed_state : (match_candidates firewall fixed).state ≡ not_affected
unfolding match_candidates judge compare_versions tokens compare_lists pad version_in_range
    check_range parse_range match_bound cpe_version
fixed_state = refl

not_affected_is_proved_example :
    (is_empty (version_of firewall) ≡ false)
    × (is_empty (filter (is_candidate firewall) fixed) ≡ false)
    × All (λ p. is_candidate firewall p ≡ true → RulesOut (version_of firewall) p) fixed
not_affected_is_proved_example =
    not_affected_is_proved firewall fixed none (match_candidates firewall fixed) fixed_matched
      fixed_state

fixed_rows : All (λ p. is_candidate firewall p ≡ true → RulesOut (version_of firewall) p) fixed
unfolding compare_versions tokens compare_lists pad version_in_range check_range parse_range
    match_bound cpe_version
fixed_rows = (λ _. inr (refl, refl), (λ _. inl (codes "7.4.0", below, refl, refl, λ e. cc), tt))

fixed_listed : is_empty (filter (is_candidate firewall) fixed) ≡ false
unfolding same_product normalise
fixed_listed = refl

not_affected_is_found_example :
    (r : MatchResult) × (match_asset firewall fixed none ≡ some r) × (r.state ≡ not_affected)
not_affected_is_found_example =
    not_affected_is_found firewall fixed none refl fixed_listed fixed_rows
