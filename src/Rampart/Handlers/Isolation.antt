-- ===== src/Rampart/Handlers/Isolation.antt =====
-- No request of one owner touches the rows of another.
use asber.Base.{
  All, Bool, Bool-cases, List, Option, Text, [], false, inl, inr, leb, none, some, text_eq, true, ℕ,
  ◌∷◌, ◌≡◌,
}
use asber.Rampart.Tables.{Tables}
use asber.Rampart.Repository.Rows.{
  Spares, delete_asset-Spares, recompute_asset-Spares, update_asset-Spares, Spares-trans,
  create_asset-Spares, default_environment-Spares, Spares-refl,
}
use asber.Rampart.Handlers.{
  post, Request, handle, remove, serve, patch, post_asset, remove_asset, patch_asset, after_delete,
  after_update,
}
use asber.Models.{EnvironmentAsset}
use asber.Rampart.Repository.{max_assets, update_asset, delete_asset, count_assets, AssetFields}

module _ (like : Text → Text → Bool) (now : ℕ) (o owner : Text)
    (other : text_eq owner o ≡ false) where
  post-Spares : (db : Tables) (f : AssetFields) → Spares o db (post_asset like now owner db f).1
  unfolding post_asset
  post-Spares db f = elim (Bool-cases (leb max_assets (count_assets db owner))) [
    | inl e ↦ rw e (Spares-refl o db)
    | inr e ↦ rw e (
        Spares-trans (default_environment-Spares o owner other db) (
          Spares-trans (create_asset-Spares o owner other _ _ f)
            (recompute_asset-Spares o owner other like now _ _)))
  ]

  patch-Spares :
      (db : Tables) (asset_id : ℕ) (f : AssetFields)
      → Spares o db (patch_asset like now owner db asset_id f).1
  unfolding patch_asset
  patch-Spares db asset_id f =
      go (update_asset db owner asset_id f) (update_asset-Spares o owner other db asset_id f)
    where
      go :
          (u : Option EnvironmentAsset × Tables)
          → Spares o db u.1
          → Spares o db (after_update like now owner u).1
      go (none, db') h = h
      go (some a, db') h = Spares-trans h (recompute_asset-Spares o owner other like now db' a.id)

  remove-Spares :
      (db : Tables) (asset_id : ℕ) → Spares o db (remove_asset like now owner db asset_id).1
  unfolding remove_asset
  remove-Spares db asset_id =
      go (delete_asset db owner asset_id) (delete_asset-Spares o owner other db asset_id)
    where
      go : (u : Bool × Tables) → Spares o db u.1 → Spares o db (after_delete like now owner u).1
      go (true, db') h = h
      go (false, db') h = h

  pub handle-Spares : (r : Request) (db : Tables) → Spares o db (handle like now owner r db).1
  unfolding handle
  handle-Spares (post f) db = post-Spares db f
  handle-Spares (patch asset_id f) db = patch-Spares db asset_id f
  handle-Spares (remove asset_id) db = remove-Spares db asset_id

-- Whatever requests are made to create, edit and delete assets, if none of them is by `o`, then
-- the environments, the assets and the matches of `o` are the same after them as before, and so
-- are the vulnerabilities and the affected products.
pub serve-Spares :
    (like : Text → Text → Bool) (o : Text) (rs : List (ℕ × Text × Request)) (db : Tables)
    → All (λ r. text_eq r.1 o ≡ false) rs
    → Spares o db (serve like rs db)
unfolding serve
serve-Spares like o [] db h = Spares-refl o db
serve-Spares like o ((now, owner, r) ∷ rs) db h =
    Spares-trans (handle-Spares like now o owner h.0 r db)
      (serve-Spares like o rs (handle like now owner r db).1 h.1)
