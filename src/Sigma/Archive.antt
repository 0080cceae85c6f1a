-- ===== src/Sigma/Archive.antt =====
-- backend/app/workers/sigma.py: `iter_rules` and `pick_asset`. What `zipfile` lists and reads of an
-- archive, decoded, is its list of members.
use asber.Base.{
  Bool, List, Option, Text, [], codes, filter, find, if◌then◌else◌, length, lower, ltb, none, not,
  some, sum_by, ℕ, ◌&&◌, ◌*◌, ◌||◌, ◌∷◌,
}
use asber.Indicators.Families.{ends_with}
use asber.Indicators.{same_kind}
use asber.Indicators.Feed.{is_found}

abbrev pub max_members : ℕ
max_members = 20000

abbrev pub max_member_bytes : ℕ
max_member_bytes = 1024 * 1024

abbrev pub max_total_bytes : ℕ
max_total_bytes = 64 * 1024 * 1024

pub record Member : Type 0 where
  pub filename : Text
  pub is_dir : Bool
  pub file_size : ℕ
  pub content : Text

abbrev pub is_rule_file : Member → Bool
is_rule_file m =
    not m.is_dir
    && (ends_with (lower m.filename) (codes ".yml") || ends_with (lower m.filename) (codes ".yaml"))

abbrev pub yielded : List Member → List (Text × Text)
yielded [] = []
yielded (m ∷ infos) =
    let rest = yielded infos in
    if ltb max_member_bytes m.file_size then rest else (m.filename, m.content) ∷ rest

-- `none` is the error `MalformedRecord`.
unfoldable pub iter_rules : List Member → Option (List (Text × Text))
iter_rules members =
    let infos = filter is_rule_file members in
    if ltb max_members (length infos)
    then none
    else if ltb max_total_bytes (sum_by (λ m. m.file_size) infos)
    then none
    else some (yielded infos)

-- An asset of a release, its absent keys none.
pub record Asset : Type 0 where
  pub name : Option Text
  pub browser_download_url : Option Text

pub record Release : Type 0 where
  pub assets : List Asset
  pub tag_name : Option Text
  pub published_at : Option Text

abbrev pub asset_name : Text
asset_name = codes "sigma_all_rules.zip"

abbrev pub is_rules_asset : Asset → Bool
is_rules_asset a = same_kind a.name asset_name && is_found a.browser_download_url

abbrev pub picked : Release → Option Asset → Option (Option Text × Option Text × Option Text)
picked release none = none
picked release (some a) = some (a.browser_download_url, release.tag_name, release.published_at)

-- `none` is the error `MalformedRecord`.
unfoldable pub pick_asset : Release → Option (Option Text × Option Text × Option Text)
pick_asset release = picked release (find is_rules_asset release.assets)
