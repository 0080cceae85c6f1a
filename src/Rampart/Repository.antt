-- ===== src/Rampart/Repository.antt =====
-- backend/app/services/rampart/repository.py. Every function takes the owner and applies it. The
-- database's `LIKE '%needle%'` is the argument `like`, on a needle and a lowered column.
pub mod Rows
pub mod Fresh
pub mod Keys
use asber.Base.{
  Bool, List, Option, Text, [], codes, false, filter, find, if◌then◌else◌, is_empty, leb, length,
  lower, map, none, not, some, sort_by, sorted_set, text_eq, text_lt, true, ℕ, ◌&&◌, ◌++◌, ◌+◌,
  ◌==◌, ◌||◌, ◌∷◌,
}
use asber.Rampart.Tables.{Environment, Tables, EnvironmentMatch}
use asber.Models.{AffectedProduct, EnvironmentAsset, Vulnerability}
use asber.Matching.Asset.{
  possibly_affected, State, affected, match_asset, MatchResult, not_affected, normalise,
}

abbrev pub max_assets : ℕ
max_assets = 500

-- `EXPOSURE`
unfoldable pub exposure_of : State → ℕ
exposure_of affected = 40
exposure_of possibly_affected = 15
exposure_of not_affected = 0

abbrev pub owns_environment : Text → Environment → Bool
owns_environment owner e = text_eq e.owner_id owner

abbrev pub owns_asset : Text → EnvironmentAsset → Bool
owns_asset owner a = text_eq a.owner_id owner

abbrev pub owns_match : Text → EnvironmentMatch → Bool
owns_match owner m = text_eq m.owner_id owner

-- ORDER BY name
unfoldable pub list_environments : Tables → Text → List Environment
list_environments db owner =
    sort_by (λ a b. not (text_lt b.name a.name)) (filter (owns_environment owner) db.environments)

unfoldable pub get_environment : Tables → Text → ℕ → Option Environment
get_environment db owner environment_id =
    find (λ e. owns_environment owner e && e.id == environment_id) db.environments

abbrev pub first_environment : List Environment → Option Environment
first_environment [] = none
first_environment (e ∷ es) = some e

abbrev pub new_environment : Tables → Text → Environment
new_environment db owner = record {
  id = db.next_environment;
  owner_id = owner;
  name = codes "My environment";
  kind = codes "inventory";
}

abbrev pub use_or_create : Tables → Text → Option Environment → Environment × Tables
use_or_create db owner (some e) = (e, db)
use_or_create db owner none =
    let e = new_environment db owner in
    (
      e,
      record db {
        environments = db.environments ++ e ∷ [];
        next_environment = db.next_environment + 1;
      },
    )

-- The owner's environment with the least id, created on first use.
unfoldable pub default_environment : Tables → Text → Environment × Tables
default_environment db owner = use_or_create db owner (
    first_environment
      (sort_by (λ a b. leb a.id b.id) (filter (owns_environment owner) db.environments)))

-- ORDER BY category, label
abbrev pub asset_before : EnvironmentAsset → EnvironmentAsset → Bool
asset_before a b =
    text_lt a.category b.category
    || (text_eq a.category b.category && not (text_lt b.label a.label))

unfoldable pub list_assets : Tables → Text → ℕ → List EnvironmentAsset
list_assets db owner environment_id =
    sort_by asset_before
      (filter (λ a. owns_asset owner a && a.environment_id == environment_id) db.assets)

abbrev pub is_asset : Text → ℕ → EnvironmentAsset → Bool
is_asset owner asset_id a = owns_asset owner a && a.id == asset_id

unfoldable pub get_asset : Tables → Text → ℕ → Option EnvironmentAsset
get_asset db owner asset_id = find (is_asset owner asset_id) db.assets

unfoldable pub count_assets : Tables → Text → ℕ
count_assets db owner = length (filter (owns_asset owner) db.assets)

-- What the owner says of an asset: the fields of the request.
pub record AssetFields : Type 0 where
  pub label : Text
  pub category : Text
  pub vendor : Text
  pub product : Text
  pub version : Option Text
  pub cpe : Option Text
  pub catalogued : Bool
  pub hardware_model : Option Text
  pub notes : Option Text

abbrev pub set_fields : ℕ → Text → ℕ → AssetFields → EnvironmentAsset
set_fields id owner environment_id f = record {
  id = id;
  owner_id = owner;
  environment_id = environment_id;
  label = f.label;
  category = f.category;
  vendor = f.vendor;
  product = f.product;
  version = f.version;
  cpe = f.cpe;
  catalogued = f.catalogued;
  hardware_model = f.hardware_model;
  notes = f.notes;
}

unfoldable pub create_asset : Tables → Text → ℕ → AssetFields → EnvironmentAsset × Tables
create_asset db owner environment_id f =
    let asset = set_fields db.next_asset owner environment_id f in
    (asset, record db { assets = db.assets ++ asset ∷ []; next_asset = db.next_asset + 1 })

abbrev pub updated : AssetFields → EnvironmentAsset → EnvironmentAsset
updated f a = set_fields a.id a.owner_id a.environment_id f

abbrev pub update_row : Text → ℕ → AssetFields → EnvironmentAsset → EnvironmentAsset
update_row owner asset_id f a = if is_asset owner asset_id a then updated f a else a

abbrev pub update_found :
    Tables → Text → ℕ → AssetFields → Option EnvironmentAsset → Option EnvironmentAsset × Tables
update_found db owner asset_id f none = (none, db)
update_found db owner asset_id f (some a) =
    (some (updated f a), record db { assets = map (update_row owner asset_id f) db.assets })

unfoldable pub update_asset : Tables → Text → ℕ → AssetFields → Option EnvironmentAsset × Tables
unfolding get_asset
update_asset db owner asset_id f = update_found db owner asset_id f (get_asset db owner asset_id)

abbrev pub is_match_of : Text → ℕ → EnvironmentMatch → Bool
is_match_of owner asset_id m = owns_match owner m && m.asset_id == asset_id

abbrev pub delete_found : Tables → Text → ℕ → Option EnvironmentAsset → Bool × Tables
delete_found db owner asset_id none = (false, db)
delete_found db owner asset_id (some a) = (
  true,
  record db {
    matches = filter (λ m. not (is_match_of owner asset_id m)) db.matches;
    assets = filter (λ x. not (is_asset owner asset_id x)) db.assets;
  },
)

unfoldable pub delete_asset : Tables → Text → ℕ → Bool × Tables
unfolding get_asset
delete_asset db owner asset_id = delete_found db owner asset_id (get_asset db owner asset_id)

-- The row is given its key when it is stored; until then the key is 0.
abbrev pub match_row : Text → EnvironmentAsset → ℕ → Text → MatchResult → EnvironmentMatch
match_row owner asset now cve_id r = record {
  id = 0;
  owner_id = owner;
  environment_id = asset.environment_id;
  asset_id = asset.id;
  cve_id = cve_id;
  state = r.state;
  method = r.method;
  confidence = r.confidence;
  evidence = r.evidence;
  exposure = exposure_of r.state;
  matched_at = now;
}

-- `_write_matches`: the rows that it adds
unfoldable pub write_matches :
    Text → EnvironmentAsset → ℕ → List (Text × MatchResult) → List EnvironmentMatch
write_matches owner asset now [] = []
write_matches owner asset now ((cve_id, r) ∷ results) =
    match_row owner asset now cve_id r ∷ write_matches owner asset now results

-- The primary keys that the database gives the rows that are added.
abbrev pub numbered : ℕ → List EnvironmentMatch → List EnvironmentMatch
numbered id [] = []
numbered id (m ∷ ms) = record m { id = id } ∷ numbered (id + 1) ms

-- The rows that are kept, and those that are added, as they are stored.
abbrev pub store_matches : List EnvironmentMatch → List EnvironmentMatch → Tables → Tables
store_matches kept written db = record db {
  matches = kept ++ numbered db.next_match written;
  next_match = db.next_match + length written;
}

abbrev pub is_vulnerability : Text → Vulnerability → Bool
is_vulnerability cve_id v = text_eq v.cve_id cve_id

abbrev pub products_of : Tables → Text → List AffectedProduct
products_of db cve_id = filter (λ p. text_eq p.cve_id cve_id) db.affected_products

abbrev pub lowered_like : (Text → Text → Bool) → Text → Option Text → Bool
lowered_like like needle none = false
lowered_like like needle (some value) = like needle (lower value)

-- The CVEs whose product line could possibly match: a set.
unfoldable pub candidate_ids : (Text → Text → Bool) → Tables → EnvironmentAsset → List Text
unfolding lower
candidate_ids like db asset =
    let needle = normalise asset.product in
    sorted_set (
      map (λ (p : AffectedProduct). p.cve_id)
        (filter (λ p. lowered_like like needle (some p.product)) db.affected_products)
      ++ map (λ (v : Vulnerability). v.cve_id)
          (filter (λ v. lowered_like like needle v.product) db.vulnerabilities))

abbrev pub keep_result :
    Text → Option MatchResult → List (Text × MatchResult) → List (Text × MatchResult)
keep_result cve_id none rest = rest
keep_result cve_id (some r) rest = (cve_id, r) ∷ rest

abbrev pub judge_known :
    Tables → EnvironmentAsset → Text → Option Vulnerability → Option MatchResult
judge_known db asset cve_id none = none
judge_known db asset cve_id (some v) = match_asset asset (products_of db cve_id) (some v)

-- The verdict on one CVE, which is skipped where there is no such vulnerability.
unfoldable pub result_for : Tables → EnvironmentAsset → Text → Option MatchResult
result_for db asset cve_id =
    judge_known db asset cve_id (find (is_vulnerability cve_id) db.vulnerabilities)

-- The loop of `recompute_asset`.
unfoldable pub results_for : Tables → EnvironmentAsset → List Text → List (Text × MatchResult)
results_for db asset [] = []
results_for db asset (cve_id ∷ ids) =
    keep_result cve_id (result_for db asset cve_id) (results_for db asset ids)

abbrev pub recompute_found :
    (Text → Text → Bool) → ℕ → Tables → Text → ℕ → Option EnvironmentAsset → ℕ × Tables
recompute_found like now db owner asset_id none = (0, db)
recompute_found like now db owner asset_id (some asset) =
    let kept = filter (λ m. not (is_match_of owner asset_id m)) db.matches in
    let results = results_for db asset (candidate_ids like db asset) in
    (length results, store_matches kept (write_matches owner asset now results) db)

unfoldable pub recompute_asset : (Text → Text → Bool) → ℕ → Tables → Text → ℕ → ℕ × Tables
unfolding get_asset
recompute_asset like now db owner asset_id =
    recompute_found like now db owner asset_id (get_asset db owner asset_id)

abbrev pub is_match_on : Text → Text → EnvironmentMatch → Bool
is_match_on owner cve_id m = owns_match owner m && text_eq m.cve_id cve_id

-- The loop of `recompute_cve` over the owner's assets.
unfoldable pub matches_on :
    Text
    → ℕ
    → Text
    → List AffectedProduct
    → Vulnerability
    → List EnvironmentAsset
    → List EnvironmentMatch
matches_on owner now cve_id products v [] = []
matches_on owner now cve_id products v (a ∷ as') =
    write_matches owner a now (keep_result cve_id (match_asset a products (some v)) [])
    ++ matches_on owner now cve_id products v as'

abbrev pub recompute_on : ℕ → Tables → Text → Text → Option Vulnerability → ℕ × Tables
recompute_on now db owner cve_id none = (0, db)
recompute_on now db owner cve_id (some v) =
    let kept = filter (λ m. not (is_match_on owner cve_id m)) db.matches in
    let written =
      matches_on owner now cve_id (products_of db cve_id) v (filter (owns_asset owner) db.assets) in
    (length written, store_matches kept written db)

unfoldable pub recompute_cve : ℕ → Tables → Text → Text → ℕ × Tables
recompute_cve now db owner cve_id =
    if is_empty (filter (owns_asset owner) db.assets)
    then (0, db)
    else recompute_on now db owner cve_id (find (is_vulnerability cve_id) db.vulnerabilities)
