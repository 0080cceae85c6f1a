-- ===== src/Rampart/Reads/Counts.antt =====
-- backend/app/services/rampart/repository.py: `counts_by_asset`, and what it counts.
use asber.Base.{
  Bool, List, Option, Text, [], any, false, filter, if◌then◌else◌, length, ltb, map, none, not,
  one_of, some, sort_by, sorted_set, text_lt, true, ℕ, ◌&&◌, ◌+◌, ◌==◌, ◌||◌, ◌∷◌,
}
use asber.Matching.Asset.{affected, State, possibly_affected, not_affected}
use asber.Rampart.Repository.{list_assets, owns_asset}
use asber.Models.{EnvironmentAsset}
use asber.Rampart.Reads.{or_threats, has_state}
use asber.Rampart.Tables.{Tables, EnvironmentMatch}

pub record AssetCounts : Type 0 where
  pub id : ℕ
  pub label : Text
  pub vendor : Text
  pub product : Text
  pub category : Text
  pub affected_count : ℕ
  pub possibly_affected_count : ℕ
  pub not_affected_count : ℕ
  pub total : ℕ

abbrev pub counts_from : EnvironmentAsset → ℕ → ℕ → ℕ → ℕ → AssetCounts
counts_from a x y z t = record {
  id = a.id;
  label = a.label;
  vendor = a.vendor;
  product = a.product;
  category = a.category;
  affected_count = x;
  possibly_affected_count = y;
  not_affected_count = z;
  total = t;
}

abbrev pub count_state : State → AssetCounts → AssetCounts
count_state affected e = record e { affected_count = e.affected_count + 1 }
count_state possibly_affected e = record e {
  possibly_affected_count = e.possibly_affected_count + 1;
}
count_state not_affected e = record e { not_affected_count = e.not_affected_count + 1 }

abbrev pub count_total : Bool → AssetCounts → AssetCounts
count_total true e = record e { total = e.total + 1 }
count_total false e = e

abbrev pub is_wanted : List State → EnvironmentMatch → Bool
is_wanted states m = has_state (or_threats states) m

-- One round of the loop, on the entry of one asset.
abbrev pub tally_entry : List State → EnvironmentMatch → AssetCounts → AssetCounts
tally_entry states m e =
    if m.asset_id == e.id then count_total (is_wanted states m) (count_state m.state e) else e

abbrev pub tally_each : List State → List EnvironmentMatch → List AssetCounts → List AssetCounts
tally_each states [] entries = entries
tally_each states (m ∷ rows) entries = tally_each states rows (map (tally_entry states m) entries)

abbrev pub in_cves : Option (List Text) → EnvironmentMatch → Bool
in_cves none m = true
in_cves (some cve_ids) m = one_of m.cve_id cve_ids

-- The rows of the query: the matches joined with the assets of the environment.
abbrev pub joined_rows : Tables → Text → ℕ → Option (List Text) → List EnvironmentMatch
joined_rows db owner environment_id cve_ids =
    filter
      (λ m.
        any (λ a. (owns_asset owner a && a.environment_id == environment_id) && a.id == m.asset_id)
          db.assets
        && in_cves cve_ids m)
      db.matches

abbrev pub counts_before : AssetCounts → AssetCounts → Bool
counts_before a b =
    ltb b.affected_count a.affected_count
    || (a.affected_count == b.affected_count
        && (ltb b.possibly_affected_count a.possibly_affected_count
            || (a.possibly_affected_count == b.possibly_affected_count
                && not (text_lt b.label a.label))))

-- The entries, and the number of CVEs in `everything`.
unfoldable pub counts_by_asset :
    Tables → Text → ℕ → Option (List Text) → List State → List AssetCounts × ℕ
counts_by_asset db owner environment_id cve_ids states =
    let rows = joined_rows db owner environment_id cve_ids in
    let seeds = map (λ a. counts_from a 0 0 0 0) (list_assets db owner environment_id) in
    (
      sort_by counts_before (tally_each states rows seeds),
      length
          (sorted_set (map (λ (m : EnvironmentMatch). m.cve_id) (filter (is_wanted states) rows))),
    )
