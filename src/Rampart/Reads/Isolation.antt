-- ===== src/Rampart/Reads/Isolation.antt =====
-- What an owner reads after the requests of others.
use asber.Base.{
  Bool, List, Option, Text, [], ap, arith, filter, length, none, not, refl, sort_by, sym, text_lt,
  ℕ, ◌&&◌, ◌==◌, ◌∙◌, ◌∷◌, ◌≡◌,
}
use asber.Rampart.Repository.{
  list_assets, owns_asset, owns_match, asset_before, count_assets, list_environments,
}
use asber.Correlation.Links.{EntityLink}
use asber.Matching.Asset.{State}
use asber.Rampart.Reads.{
  in_environment, documents_for, matched_cve_ids, exposure_by_cve, list_matches,
}
use asber.Models.{Document}
use asber.Rampart.Repository.Rows.{Spares}
use asber.Rampart.Tables.{Tables}

-- All that an owner reads of one environment is the same in both tables.
pub record ReadsSame (o : Text) (environment_id : ℕ) (db db' : Tables) : Type 0 where
  pub environments : list_environments db' o ≡ list_environments db o
  pub assets : list_assets db' o environment_id ≡ list_assets db o environment_id
  pub number : count_assets db' o ≡ count_assets db o
  pub matches :
      (states : List State)
      → list_matches db' o environment_id states ≡ list_matches db o environment_id states
  pub cve_ids :
      (states : List State) (asset_id : Option ℕ)
      → matched_cve_ids db' o environment_id states asset_id
        ≡ matched_cve_ids db o environment_id states asset_id
  pub exposures :
      (states : List State)
      → exposure_by_cve db' o environment_id states ≡ exposure_by_cve db o environment_id states
  pub documents :
      (links : List EntityLink) (documents : List Document) (limit : ℕ)
      → documents_for db' links documents o environment_id limit
        ≡ documents_for db links documents o environment_id limit

filter-filter_and :
    {A : Type 0} (p q : A → Bool) (xs : List A)
    → filter (λ x. p x && q x) xs ≡ filter q (filter p xs)
filter-filter_and p q [] = refl
filter-filter_and p q (x ∷ xs) = ground (arith, filter-filter_and p q xs)

module _ {o : Text} {db db' : Tables} (same : Spares o db db') (environment_id : ℕ) where
  matches_of-same :
      filter (in_environment o environment_id) db'.matches
      ≡ filter (in_environment o environment_id) db.matches
  matches_of-same =
      filter-filter_and (owns_match o) (λ m. m.environment_id == environment_id) db'.matches
      ∙ ap (filter (λ m. m.environment_id == environment_id)) same.matches
      ∙ sym (filter-filter_and (owns_match o) (λ m. m.environment_id == environment_id) db.matches)

  assets_of-same :
      filter (λ a. owns_asset o a && a.environment_id == environment_id) db'.assets
      ≡ filter (λ a. owns_asset o a && a.environment_id == environment_id) db.assets
  assets_of-same =
      filter-filter_and (owns_asset o) (λ a. a.environment_id == environment_id) db'.assets
      ∙ ap (filter (λ a. a.environment_id == environment_id)) same.assets
      ∙ sym (filter-filter_and (owns_asset o) (λ a. a.environment_id == environment_id) db.assets)

  ids-same :
      (states : List State) (asset_id : Option ℕ)
      → matched_cve_ids db' o environment_id states asset_id
        ≡ matched_cve_ids db o environment_id states asset_id
  unfolding matched_cve_ids
  ids-same states asset_id = rw matches_of-same refl

  pub Spares-ReadsSame : ReadsSame o environment_id db db'
  unfolding list_environments list_assets count_assets list_matches exposure_by_cve documents_for
  Spares-ReadsSame = record {
    environments = ap (sort_by (λ a b. not (text_lt b.name a.name))) same.environments;
    assets = ap (sort_by asset_before) assets_of-same;
    number = ap length same.assets;
    matches = λ states. rw matches_of-same refl;
    cve_ids = ids-same;
    exposures = λ states. rw matches_of-same refl;
    documents = λ links documents limit. rw (ids-same [] none) refl;
  }
