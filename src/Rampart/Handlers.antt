-- ===== src/Rampart/Handlers.antt =====
-- The writing handlers of backend/app/api/rampart.py.
pub mod Isolation
pub mod Limit
pub mod Orphans
use asber.Base.{Bool, Option, Text, false, if◌then◌else◌, leb, none, some, true, ℕ, List, [], ◌∷◌}
use asber.Rampart.Tables.{Tables}
use asber.Rampart.Repository.{
  AssetFields, count_assets, recompute_asset, create_asset, max_assets, default_environment,
  update_asset, delete_asset,
}
use asber.Models.{EnvironmentAsset}

pub data Response : Type 0 where
  created : EnvironmentAsset → Response
  fetched : EnvironmentAsset → Response
  no_content : Response
  conflict : Response
  not_found : Response

module _ (like : Text → Text → Bool) (now : ℕ) (owner : Text) where
  -- POST /assets
  unfoldable pub post_asset : Tables → AssetFields → Response × Tables
  unfolding count_assets
  post_asset db payload =
      if leb max_assets (count_assets db owner)
      then (conflict, db)
      else let (env, db₁) = default_environment db owner in
        let (asset, db₂) = create_asset db₁ owner env.id payload in
        let (_, db₃) = recompute_asset like now db₂ owner asset.id in (created asset, db₃)

  abbrev pub after_update : Option EnvironmentAsset × Tables → Response × Tables
  after_update (none, db) = (not_found, db)
  after_update (some asset, db) =
      let (_, db') = recompute_asset like now db owner asset.id in (fetched asset, db')

  -- PATCH /assets/{asset_id}
  unfoldable pub patch_asset : Tables → ℕ → AssetFields → Response × Tables
  patch_asset db asset_id payload = after_update (update_asset db owner asset_id payload)

  abbrev pub after_delete : Bool × Tables → Response × Tables
  after_delete (false, db) = (not_found, db)
  after_delete (true, db) = (no_content, db)

  -- DELETE /assets/{asset_id}
  unfoldable pub remove_asset : Tables → ℕ → Response × Tables
  remove_asset db asset_id = after_delete (delete_asset db owner asset_id)

-- The writing requests.
pub data Request : Type 0 where
  post : AssetFields → Request
  patch : ℕ → AssetFields → Request
  remove : ℕ → Request

unfoldable pub handle : (Text → Text → Bool) → ℕ → Text → Request → Tables → Response × Tables
handle like now owner (post payload) db = post_asset like now owner db payload
handle like now owner (patch asset_id payload) db = patch_asset like now owner db asset_id payload
handle like now owner (remove asset_id) db = remove_asset like now owner db asset_id

-- A sequence of requests, each at its time and by its owner.
unfoldable pub serve : (Text → Text → Bool) → List (ℕ × Text × Request) → Tables → Tables
serve like [] db = db
serve like ((now, owner, r) ∷ rs) db = serve like rs (handle like now owner r db).1
