-- ===== src/Rampart/Handlers/Orphans.antt =====
-- No match outlives its asset.
use asber.Base.{
  ◌+◌, All, All-append, All-filter_keep, All-map, Bool, List, Option, Text, [], any, any-append,
  any-filter, any-map, arith, filter-All, find-some, none, not, refl, some, text_eq_iff, true, ℕ,
  ◌∙◌, ◌∷◌, ◌≡◌, Bool-cases, false, inl, inr, leb,
}
use asber.Rampart.Tables.{Tables, Environment, EnvironmentMatch}
use asber.Rampart.Repository.{
  update_found, use_or_create, get_asset, default_environment, recompute_found, recompute_asset,
  delete_asset, delete_found, update_row, is_match_of, write_matches, is_asset, create_asset,
  AssetFields, update_asset, count_assets, max_assets, numbered,
}
use asber.Matching.Asset.{MatchResult}
use asber.Models.{EnvironmentAsset}
use asber.Rampart.Handlers.{
  post, post_asset, patch_asset, remove_asset, Request, after_update, handle, after_delete, patch,
  serve, remove,
}

abbrev pub HasAsset : Tables → EnvironmentMatch → Type 0
HasAsset db m = any (is_asset m.owner_id m.asset_id) db.assets ≡ true

-- Every match is of an asset that is there, and that its owner owns.
abbrev pub HasNoOrphans : Tables → Type 0
HasNoOrphans db = All (HasAsset db) db.matches

module _ (like : Text → Text → Bool) (now : ℕ) (owner : Text) where
  written :
      (db : Tables) (a : EnvironmentAsset) (id : ℕ) (rs : List (Text × MatchResult))
      → any (is_asset owner a.id) db.assets ≡ true
      → All (HasAsset db) (numbered id (write_matches owner a now rs))
  unfolding write_matches
  written db a id [] h = tt
  written db a id (r ∷ rs) h = (h, written db a (id + 1) rs h)

  recompute-HasNoOrphans :
      (db : Tables) (asset_id : ℕ)
      → HasNoOrphans db
      → HasNoOrphans (recompute_asset like now db owner asset_id).1
  unfolding recompute_asset get_asset
  recompute-HasNoOrphans db asset_id h = go (get_asset db owner asset_id) refl
    where
      go :
          (found : Option EnvironmentAsset)
          → get_asset db owner asset_id ≡ found
          → HasNoOrphans (recompute_found like now db owner asset_id found).1
      go none e = h
      go (some a) e =
          let q = find-some (is_asset owner asset_id) db.assets a e in
          let same_id : a.id ≡ asset_id = ground (arith, q.0) in
          All-append (HasAsset db) _ _ (All-filter_keep (HasAsset db) _ db.matches h)
            (written db a db.next_match _ (rw same_id q.1))

  create-HasNoOrphans :
      (db : Tables) (environment_id : ℕ) (f : AssetFields)
      → HasNoOrphans db
      → HasNoOrphans (create_asset db owner environment_id f).1
  unfolding create_asset
  create-HasNoOrphans db environment_id f h =
      All-map db.matches (λ m q. any-append (is_asset m.owner_id m.asset_id) db.assets _ q) h

  default-HasNoOrphans :
      (db : Tables) → HasNoOrphans db → HasNoOrphans (default_environment db owner).1
  unfolding default_environment
  default-HasNoOrphans db h = go _
    where
      go : (found : Option Environment) → HasNoOrphans (use_or_create db owner found).1
      go none = h
      go (some e) = h

  update-HasNoOrphans :
      (db : Tables) (asset_id : ℕ) (f : AssetFields)
      → HasNoOrphans db
      → HasNoOrphans (update_asset db owner asset_id f).1
  unfolding update_asset
  update-HasNoOrphans db asset_id f h = go (get_asset db owner asset_id)
    where
      go :
          (found : Option EnvironmentAsset)
          → HasNoOrphans (update_found db owner asset_id f found).1
      go none = h
      go (some a) =
          All-map db.matches
            (λ m q.
              any-map (is_asset m.owner_id m.asset_id) (update_row owner asset_id f) db.assets
                (λ x. ground arith)
              ∙ q)
            h

  spared_asset :
      (asset_id : ℕ) (m : EnvironmentMatch) (x : EnvironmentAsset)
      → not (is_match_of owner asset_id m) ≡ true
      → is_asset m.owner_id m.asset_id x ≡ true
      → not (is_asset owner asset_id x) ≡ true
  spared_asset asset_id m x h k = ground (
    arith,
    text_eq_iff x.owner_id owner,
    text_eq_iff x.owner_id m.owner_id,
    text_eq_iff m.owner_id owner,
  )

  delete-HasNoOrphans :
      (db : Tables) (asset_id : ℕ)
      → HasNoOrphans db
      → HasNoOrphans (delete_asset db owner asset_id).1
  unfolding delete_asset
  delete-HasNoOrphans db asset_id h = go (get_asset db owner asset_id)
    where
      go : (found : Option EnvironmentAsset) → HasNoOrphans (delete_found db owner asset_id found).1
      go none = h
      go (some a) = filter-All _ _ db.matches (
          All-map db.matches
            (λ m q k.
              any-filter (is_asset m.owner_id m.asset_id) _ db.assets
                (λ x. spared_asset asset_id m x k)
              ∙ q)
            h)

  handle-HasNoOrphans :
      (r : Request) (db : Tables) → HasNoOrphans db → HasNoOrphans (handle like now owner r db).1
  unfolding handle post_asset patch_asset remove_asset
  handle-HasNoOrphans (post f) db h = elim (Bool-cases (leb max_assets (count_assets db owner))) [
    | inl e ↦ rw e h
    | inr e ↦
        rw e (recompute-HasNoOrphans _ _ (create-HasNoOrphans _ _ f (default-HasNoOrphans db h)))
  ]
  handle-HasNoOrphans (patch asset_id f) db h =
      go (update_asset db owner asset_id f) (update-HasNoOrphans db asset_id f h)
    where
      go :
          (u : Option EnvironmentAsset × Tables)
          → HasNoOrphans u.1
          → HasNoOrphans (after_update like now owner u).1
      go (none, db') k = k
      go (some a, db') k = recompute-HasNoOrphans db' a.id k
  handle-HasNoOrphans (remove asset_id) db h =
      go (delete_asset db owner asset_id) (delete-HasNoOrphans db asset_id h)
    where
      go : (u : Bool × Tables) → HasNoOrphans u.1 → HasNoOrphans (after_delete like now owner u).1
      go (true, db') k = k
      go (false, db') k = k

-- From tables in which every match is of an asset that is there and has the same owner, every
-- sequence of requests, by whatever owners, leads to such tables again.
pub serve_leaves_no_orphans :
    (like : Text → Text → Bool) (rs : List (ℕ × Text × Request)) (db : Tables)
    → HasNoOrphans db
    → HasNoOrphans (serve like rs db)
unfolding serve
serve_leaves_no_orphans like [] db h = h
serve_leaves_no_orphans like ((now, owner, r) ∷ rs) db h =
    serve_leaves_no_orphans like rs (handle like now owner r db).1
      (handle-HasNoOrphans like now owner r db h)
