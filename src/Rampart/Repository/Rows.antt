-- ===== src/Rampart/Repository/Rows.antt =====
-- What each operation of the repository does to the rows of another owner.
use mathlib.Core.Path.{ap₂}
use mathlib.Core.List.{append-nil}
use asber.Base.{
  ◌+◌, Bool, Bool-cases, List, Option, Text, [], arith, false, filter, filter-append,
  filter-map_spared, filter_absorb, inl, inr, none, not, refl, some, sym, text_eq, text_eq_iff,
  true, ℕ, ◌&&◌, ◌++◌, ◌==◌, ◌∙◌, ◌∷◌, ◌≡◌,
}
use asber.Rampart.Tables.{Tables, Environment, EnvironmentMatch}
use asber.Matching.Asset.{MatchResult}
use asber.Rampart.Repository.{
  recompute_asset, use_or_create, update_row, update_asset, delete_asset, update_found,
  write_matches, delete_found, owns_asset, default_environment, owns_environment, recompute_found,
  AssetFields, get_asset, owns_match, create_asset, numbered,
}
use asber.Models.{EnvironmentAsset}

abbrev pub assets_of : Text → Tables → List EnvironmentAsset
assets_of o db = filter (owns_asset o) db.assets

abbrev pub matches_of : Text → Tables → List EnvironmentMatch
matches_of o db = filter (owns_match o) db.matches

-- The rows of `o` and the rows without an owner are the same before and after.
pub record Spares (o : Text) (db db' : Tables) : Type 0 where
  pub environments :
      filter (owns_environment o) db'.environments ≡ filter (owns_environment o) db.environments
  pub assets : assets_of o db' ≡ assets_of o db
  pub matches : matches_of o db' ≡ matches_of o db
  pub vulnerabilities : db'.vulnerabilities ≡ db.vulnerabilities
  pub products : db'.affected_products ≡ db.affected_products

pub Spares-refl : (o : Text) (db : Tables) → Spares o db db
Spares-refl o db = record {
  environments = refl;
  assets = refl;
  matches = refl;
  vulnerabilities = refl;
  products = refl;
}

pub Spares-trans :
    {o : Text} {db db' db'' : Tables} → Spares o db db' → Spares o db' db'' → Spares o db db''
Spares-trans h k = record {
  environments = k.environments ∙ h.environments;
  assets = k.assets ∙ h.assets;
  matches = k.matches ∙ h.matches;
  vulnerabilities = k.vulnerabilities ∙ h.vulnerabilities;
  products = k.products ∙ h.products;
}

module _ (o owner : Text) (other : text_eq owner o ≡ false) where
  -- What belongs to `o` does not belong to `owner`.
  not_owner : (t : Text) → text_eq t o ≡ true → text_eq t owner ≡ false
  not_owner t h = elim (Bool-cases (text_eq t owner)) [
    | inl e ↦
        cc
          (other, (text_eq_iff owner o).1 (sym ((text_eq_iff t owner).0 e) ∙ (text_eq_iff t o).0 h))
    | inr e ↦ e
  ]

  write-foreign :
      (a : EnvironmentAsset) (now id : ℕ) (rs : List (Text × MatchResult))
      → filter (owns_match o) (numbered id (write_matches owner a now rs)) ≡ []
  unfolding write_matches
  write-foreign a now id [] = refl
  write-foreign a now id (r ∷ rs) = rw (other, write-foreign a now (id + 1) rs)

  kept-foreign :
      (q : EnvironmentMatch → Bool) (ms : List EnvironmentMatch)
      → filter (owns_match o) (filter (λ m. not (owns_match owner m && q m)) ms)
        ≡ filter (owns_match o) ms
  kept-foreign q ms = filter_absorb (owns_match o) _ ms (λ m h. rw (not_owner m.owner_id h))

  pub recompute_asset-Spares :
      (like : Text → Text → Bool) (now : ℕ) (db : Tables) (asset_id : ℕ)
      → Spares o db (recompute_asset like now db owner asset_id).1
  unfolding recompute_asset
  recompute_asset-Spares like now db asset_id = go (get_asset db owner asset_id)
    where
      go :
          (found : Option EnvironmentAsset)
          → Spares o db (recompute_found like now db owner asset_id found).1
      go none = Spares-refl o db
      go (some a) = record {
        environments = refl;
        assets = refl;
        matches =
            filter-append (owns_match o) _ _
            ∙ ap₂ (λ xs ys. xs ++ ys) (kept-foreign (λ m. m.asset_id == asset_id) db.matches)
                (write-foreign a now db.next_match _)
            ∙ append-nil _;
        vulnerabilities = refl;
        products = refl;
      }

  pub update_asset-Spares :
      (db : Tables) (asset_id : ℕ) (f : AssetFields)
      → Spares o db (update_asset db owner asset_id f).1
  unfolding update_asset
  update_asset-Spares db asset_id f = go (get_asset db owner asset_id)
    where
      go :
          (found : Option EnvironmentAsset) → Spares o db (update_found db owner asset_id f found).1
      go none = Spares-refl o db
      go (some a) = record {
        environments = refl;
        assets =
            filter-map_spared (owns_asset o) (update_row owner asset_id f) db.assets
              (λ x. ground arith) (λ x h. rw (not_owner x.owner_id h));
        matches = refl;
        vulnerabilities = refl;
        products = refl;
      }

  pub delete_asset-Spares :
      (db : Tables) (asset_id : ℕ) → Spares o db (delete_asset db owner asset_id).1
  unfolding delete_asset
  delete_asset-Spares db asset_id = go (get_asset db owner asset_id)
    where
      go : (found : Option EnvironmentAsset) → Spares o db (delete_found db owner asset_id found).1
      go none = Spares-refl o db
      go (some a) = record {
        environments = refl;
        assets = filter_absorb (owns_asset o) _ db.assets (λ x h. rw (not_owner x.owner_id h));
        matches = kept-foreign (λ m. m.asset_id == asset_id) db.matches;
        vulnerabilities = refl;
        products = refl;
      }

  pub create_asset-Spares :
      (db : Tables) (environment_id : ℕ) (f : AssetFields)
      → Spares o db (create_asset db owner environment_id f).1
  unfolding create_asset
  create_asset-Spares db environment_id f = record {
    environments = refl;
    assets = filter-append (owns_asset o) db.assets _ ∙ rw other (append-nil _);
    matches = refl;
    vulnerabilities = refl;
    products = refl;
  }

  pub default_environment-Spares : (db : Tables) → Spares o db (default_environment db owner).1
  unfolding default_environment
  default_environment-Spares db = go _
    where
      go : (found : Option Environment) → Spares o db (use_or_create db owner found).1
      go (some e) = Spares-refl o db
      go none = record {
        environments =
            filter-append (owns_environment o) db.environments _ ∙ rw other (append-nil _);
        assets = refl;
        matches = refl;
        vulnerabilities = refl;
        products = refl;
      }
