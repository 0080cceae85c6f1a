-- ===== src/Rampart/Handlers/Limit.antt =====
-- The cap on the assets of an owner.
use asber.Base.{
  Bool, Bool-cases, List, Option, Text, [], arith, false, filter-append, inl, inr, leb,
  length-append, length-filter-filter, length-filter-map, none, refl, some, text_eq, text_eq_iff,
  text_eq_self, true, ℕ, ◌∷◌, ◌≡◌, ◌≤◌,
}
use asber.Rampart.Tables.{Tables, Environment}
use asber.Rampart.Handlers.Isolation.{handle-Spares}
use asber.Rampart.Handlers.{
  post, Request, handle, remove, serve, patch, post_asset, remove_asset, patch_asset, after_delete,
  after_update,
}
use asber.Rampart.Repository.{
  update_row, recompute_asset, use_or_create, max_assets, get_asset, update_found, update_asset,
  default_environment, delete_asset, delete_found, owns_asset, create_asset, recompute_found,
  count_assets, AssetFields,
}
use asber.Models.{EnvironmentAsset}

-- What a request does to the number of assets of its own owner.
module _ (like : Text → Text → Bool) (now : ℕ) (owner : Text) where
  recompute_asset-assets :
      (db : Tables) (asset_id : ℕ)
      → (recompute_asset like now db owner asset_id).1.assets ≡ db.assets
  unfolding recompute_asset
  recompute_asset-assets db asset_id = go (get_asset db owner asset_id)
    where
      go :
          (found : Option EnvironmentAsset)
          → (recompute_found like now db owner asset_id found).1.assets ≡ db.assets
      go none = refl
      go (some a) = refl

  default_environment-assets : (db : Tables) → (default_environment db owner).1.assets ≡ db.assets
  unfolding default_environment
  default_environment-assets db = go _
    where
      go : (found : Option Environment) → (use_or_create db owner found).1.assets ≡ db.assets
      go none = refl
      go (some e) = refl

  post-limit :
      (db : Tables) (f : AssetFields)
      → count_assets db owner ≤ max_assets
      → count_assets (post_asset like now owner db f).1 owner ≤ max_assets
  unfolding post_asset count_assets create_asset
  post-limit db f h = elim (Bool-cases (leb max_assets (count_assets db owner))) [
    | inl e ↦ rw e h
    | inr e ↦
        rw
          (
            e,
            recompute_asset-assets,
            default_environment-assets,
            filter-append,
            text_eq_self owner,
            length-append,
          )
          (ground arith)
  ]

  update-count :
      (db : Tables) (asset_id : ℕ) (f : AssetFields)
      → count_assets (update_asset db owner asset_id f).1 owner ≡ count_assets db owner
  unfolding update_asset count_assets
  update-count db asset_id f = go (get_asset db owner asset_id)
    where
      go :
          (found : Option EnvironmentAsset)
          → count_assets (update_found db owner asset_id f found).1 owner ≡ count_assets db owner
      go none = refl
      go (some a) =
          length-filter-map (owns_asset owner) (update_row owner asset_id f) db.assets
            (λ x. ground arith)

  delete-count :
      (db : Tables) (asset_id : ℕ)
      → count_assets (delete_asset db owner asset_id).1 owner ≤ count_assets db owner
  unfolding delete_asset count_assets
  delete-count db asset_id = go (get_asset db owner asset_id)
    where
      go :
          (found : Option EnvironmentAsset)
          → count_assets (delete_found db owner asset_id found).1 owner ≤ count_assets db owner
      go none = omega arith
      go (some a) = length-filter-filter (owns_asset owner) _ db.assets

  patch-limit :
      (db : Tables) (asset_id : ℕ) (f : AssetFields)
      → count_assets db owner ≤ max_assets
      → count_assets (patch_asset like now owner db asset_id f).1 owner ≤ max_assets
  unfolding patch_asset count_assets
  patch-limit db asset_id f h = go (update_asset db owner asset_id f) (rw update-count h)
    where
      go :
          (u : Option EnvironmentAsset × Tables)
          → count_assets u.1 owner ≤ max_assets
          → count_assets (after_update like now owner u).1 owner ≤ max_assets
      go (none, db') k = k
      go (some a, db') k = rw recompute_asset-assets k

  remove-limit :
      (db : Tables) (asset_id : ℕ)
      → count_assets db owner ≤ max_assets
      → count_assets (remove_asset like now owner db asset_id).1 owner ≤ max_assets
  unfolding remove_asset
  remove-limit db asset_id h =
      go (delete_asset db owner asset_id) (omega (arith, delete-count db asset_id))
    where
      go :
          (u : Bool × Tables)
          → count_assets u.1 owner ≤ max_assets
          → count_assets (after_delete like now owner u).1 owner ≤ max_assets
      go (true, db') k = k
      go (false, db') k = k

  handle-limit :
      (r : Request) (db : Tables)
      → count_assets db owner ≤ max_assets
      → count_assets (handle like now owner r db).1 owner ≤ max_assets
  unfolding handle
  handle-limit (post f) db h = post-limit db f h
  handle-limit (patch asset_id f) db h = patch-limit db asset_id f h
  handle-limit (remove asset_id) db h = remove-limit db asset_id h

-- No owner has more assets than the limit.
abbrev pub IsWithinLimit : Tables → Type 0
IsWithinLimit db = (o : Text) → count_assets db o ≤ max_assets

handle-IsWithinLimit :
    (like : Text → Text → Bool) (now : ℕ) (owner : Text) (r : Request) (db : Tables)
    → IsWithinLimit db
    → IsWithinLimit (handle like now owner r db).1
unfolding count_assets
handle-IsWithinLimit like now owner r db h o = elim (Bool-cases (text_eq owner o)) [
  | inl e ↦ rw (← (text_eq_iff owner o).0 e) (handle-limit like now owner r db (h owner))
  | inr e ↦ rw ((handle-Spares like now o owner e r db).assets) (h o)
]

-- From tables in which no owner has more than 500 assets, every sequence of requests, by whatever
-- owners, leads to such tables again.
pub serve_keeps_limit :
    (like : Text → Text → Bool) (rs : List (ℕ × Text × Request)) (db : Tables)
    → IsWithinLimit db
    → IsWithinLimit (serve like rs db)
unfolding serve
serve_keeps_limit like [] db h = h
serve_keeps_limit like ((now, owner, r) ∷ rs) db h =
    serve_keeps_limit like rs (handle like now owner r db).1
      (handle-IsWithinLimit like now owner r db h)
