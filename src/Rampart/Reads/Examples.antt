-- ===== src/Rampart/Reads/Examples.antt =====
-- What is read of concrete tables.
use asber.Base.{
  Bool, List, Text, [], refl, ℕ, ◌∷◌, All, codes, filter, length, map, none, some, sort_by,
  sorted_set, ◌≡◌, false, one_of, strip, true, ◌&&◌, ◌↔◌, ◌⊎◌, all_digits, int, is_digit, is_space,
  lstrip, rstrip, split_on,
}
use asber.Rampart.Samples.{known, server, ann, bob, server_fields, spaced}
use asber.Rampart.Handlers.{remove, Request, post}
use asber.Correlation.Entry.{contains}
use asber.Rampart.Reads.Tallies.{counted, counts_by_asset_counts}
use asber.Rampart.Tables.{EnvironmentMatch, Tables}
use asber.Matching.Asset.{affected, vendor_product, medium}
use asber.Rampart.Report.{Report, to_csv, build, csv_header}
use asber.Rampart.Report.Cells.{cells_of, IsInert, read_csv-to_csv}
use asber.Rampart.Reads.Counts.{counts_by_asset, counts_before, joined_rows, is_wanted}
use asber.Export.Csv.Reader.{read_csv}
use asber.Rampart.Repository.{recompute_cve, list_assets}
use asber.Rampart.Payload.{
  Payload, cleaned, has_lengths, asset_in, folded_category, AssetIn, clean_text, categories,
}
use asber.Rampart.Payload.Clean.{asset_in_tells, IsAccepted, left_of}
use asber.Rampart.Reads.{subject_number, unsigned_id}

abbrev requests : List (ℕ × Text × Request)
requests = (5, bob, post server_fields) ∷ (7, bob, remove 0) ∷ []

abbrev like_text : Text → Text → Bool
like_text needle column = contains needle column

abbrev found : Tables
found = (recompute_cve 9 spaced ann known.cve_id).1

counts_by_asset_counts_example : counts_by_asset found ann 0 none [] ≡ (
  sort_by counts_before (map (counted [] (joined_rows found ann 0 none)) (list_assets found ann 0)),
  length (sorted_set (map (λ m. m.cve_id) (filter (is_wanted []) (joined_rows found ann 0 none)))),
)
counts_by_asset_counts_example = counts_by_asset_counts found ann 0 none []

abbrev at_server : EnvironmentMatch
at_server = record {
  id = 0;
  owner_id = ann;
  environment_id = 0;
  asset_id = 0;
  cve_id = known.cve_id;
  state = affected;
  method = vendor_product;
  confidence = medium;
  evidence = codes "=1+1";
  exposure = 40;
  matched_at = 9;
}

abbrev report : Report
report =
    build (record { id = 0; owner_id = ann; name = codes "Office"; kind = codes "inventory" })
      (server ∷ []) (at_server ∷ []) (λ cve_id. some known)

read_csv-to_csv_example :
    (read_csv (to_csv report) ≡ csv_header ∷ cells_of report.matches)
    × All IsInert (read_csv (to_csv report))
read_csv-to_csv_example = read_csv-to_csv report

-- A label of one blank passes the length test, and is then taken away.
abbrev blank_label : Payload
blank_label = record {
  label = codes " ";
  category = codes " OS";
  vendor = codes "Microsoft";
  product = codes "Windows Server 2019";
  version = none;
  cpe = none;
  catalogued = true;
  hardware_model = none;
  notes = none;
}

blank_label_is_lost : asset_in blank_label ≡ some (record (cleaned blank_label) { label = none })
unfolding asset_in has_lengths categories folded_category clean_text strip
blank_label_is_lost = refl

asset_in_tells_example :
    ((asset_in blank_label ≡ none)
      × (has_lengths blank_label && one_of (folded_category blank_label.category) categories
          ≡ false))
    ⊎ ((a : AssetIn) × (asset_in blank_label ≡ some a)
        × (has_lengths blank_label ≡ true)
        × (one_of (folded_category blank_label.category) categories ≡ true)
        × (a.category ≡ folded_category blank_label.category)
        × IsAccepted a
        × (a.catalogued ≡ true)
        × ((a.label ≡ none) ↔ (left_of blank_label.label ≡ []))
        × ((a.vendor ≡ none) ↔ (left_of blank_label.vendor ≡ []))
        × ((a.product ≡ none) ↔ (left_of blank_label.product ≡ [])))
asset_in_tells_example = asset_in_tells blank_label

-- What Python's `int` reads as the same number.
ids_run :
    map subject_number (codes " 12 " ∷ codes "+12" ∷ codes "1_2" ∷ codes "-12" ∷ codes "1__2" ∷ [])
    ≡ some 12 ∷ some 12 ∷ some 12 ∷ none ∷ none ∷ []
unfolding subject_number unsigned_id strip lstrip rstrip is_space split_on all_digits is_digit int
ids_run = refl
