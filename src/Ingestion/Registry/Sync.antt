-- ===== src/Ingestion/Registry/Sync.antt =====
-- backend/app/ingestion/base.py: `sync_registry`; backend/app/config.py: `_csv`,
-- `enabled_overrides`, `disabled_overrides` and `interval_override`. The environment is a parameter.
pub mod Runtime
use asber.Base.{
  Dict, insert, lookup, Bool, List, Option, Text, [], all_digits, codes, false, filter,
  if◌then◌else◌, int, is_empty, map, max, none, not, one_of, some, split_on, strip, true, upper, ℕ,
  ◌&&◌, ◌++◌, ◌==◌, ◌∷◌,
}
use asber.Ingestion.Backoff.{Source}
use asber.Ingestion.Registry.Defs.{SourceDef}

-- `[x.strip() for x in value.split(sep) if x.strip()]`
unfoldable pub csv : Text → ℕ → List Text
unfolding split_on strip
csv value sep = filter (λ x. not (is_empty x)) (map strip (split_on (λ c. c == sep) value))

pub record Settings : Type 0 where
  pub sources_enabled : Text
  pub sources_disabled : Text
  pub environ : Text → Option Text
  pub configured_credentials : Text → Bool

abbrev pub enabled_overrides : Settings → List Text
enabled_overrides settings = csv settings.sources_enabled b','

abbrev pub disabled_overrides : Settings → List Text
disabled_overrides settings = csv settings.sources_disabled b','

-- `max(300, int(raw))` where `raw` is set and a number.
abbrev pub read_interval : Option Text → Option ℕ
read_interval none = none
read_interval (some raw) = if all_digits (strip raw) then some (max 300 (int (strip raw))) else none

unfoldable pub interval_override : Settings → Text → Option ℕ
unfolding all_digits strip int upper
interval_override settings source_key =
    read_interval (settings.environ (codes "SOURCE_INTERVAL_" ++ upper source_key))

-- A row of `sources`: what the registry says of it, and what the runs say.
pub record SourceRow (S : Type 0) : Type 0 where
  pub name : Text
  pub homepage : Text
  pub endpoint : Text
  pub category : Text
  pub source_type : Text
  pub tier : ℕ
  pub method : Text
  pub phase : ℕ
  pub requires_auth : Bool
  pub enabled : Bool
  pub source : Source S

abbrev pub is_given : Option Text → Bool
is_given none = false
is_given (some t) = true

abbrev pub has_worker : SourceDef → Bool
has_worker sdef = is_given sdef.worker

-- `sdef.requires_auth and sdef.auth_env and not credentials.get(sdef.auth_env)`
abbrev pub lacks_credential : Settings → Option Text → Bool
lacks_credential settings none = false
lacks_credential settings (some env) =
    not (is_empty env) && not (settings.configured_credentials env)

unfoldable pub is_enabled : Settings → SourceDef → Bool
is_enabled settings sdef =
    let by_default = sdef.enabled_by_default && has_worker sdef in
    let chosen =
      if one_of sdef.key (enabled_overrides settings) then has_worker sdef else by_default in
    let kept = if one_of sdef.key (disabled_overrides settings) then false else chosen in
    if sdef.requires_auth && lacks_credential settings sdef.auth_env then false else kept

-- `settings.interval_override(sdef.key) or sdef.interval`
abbrev pub or_interval : Option ℕ → ℕ → ℕ
or_interval none interval = interval
or_interval (some n) interval = if n == 0 then interval else n

module _ {S : Type 0} (no_state : S) where
  abbrev pub new_source : Source S
  new_source = record {
    interval_seconds = 0;
    state = no_state;
    last_attempt = none;
    last_status = none;
    last_error = none;
    consecutive_failures = some 0;
    last_successful_fetch = none;
    items_fetched = 0;
    items_new = 0;
    items_updated = 0;
  }

  -- The row that has the registry's values, on top of what the runs say.
  abbrev pub with_values : Settings → SourceDef → Source S → SourceRow S
  with_values settings sdef source = record {
    name = sdef.name;
    homepage = sdef.homepage;
    endpoint = sdef.endpoint;
    category = sdef.category;
    source_type = sdef.source_type;
    tier = sdef.tier;
    method = sdef.method;
    phase = sdef.phase;
    requires_auth = sdef.requires_auth;
    enabled = is_enabled settings sdef;
    source = record source {
      interval_seconds = or_interval (interval_override settings sdef.key) sdef.interval;
    };
  }

  abbrev pub synced_row : Settings → SourceDef → Option (SourceRow S) → SourceRow S
  synced_row settings sdef none = with_values settings sdef new_source
  synced_row settings sdef (some row) = with_values settings sdef row.source

  unfoldable pub sync_registry : Settings → List SourceDef → Dict (SourceRow S) → Dict (SourceRow S)
  sync_registry settings [] rows = rows
  sync_registry settings (sdef ∷ registry) rows =
      sync_registry settings registry
        (insert sdef.key (synced_row settings sdef (lookup sdef.key rows)) rows)
