-- ===== src/Ingestion/Registry/Examples.antt =====
-- The theorems on the registry at its own entries, and runs.
use asber.Base.{
  Dict, lookup, [], codes, false, find, if◌then◌else◌, none, refl, some, text_eq, true, ℕ, ◌≡◌, ◌∷◌,
}
use asber.Ingestion.Registry.Table.{source_registry, registry_by_key, has_key}
use asber.Ingestion.Registry.Sync.{
  Settings, sync_registry, SourceRow, csv, interval_override, is_enabled,
}
use asber.Ingestion.Registry.Sync.Runtime.{sync_registry_by_entry, expected, are_unique}
use asber.Ingestion.Registry.Workers.{enabled_source_builds, build_worker, Worker}
use asber.Ingestion.Registry.Intelligence.{nvd_source}

abbrev settings : Settings
settings = record {
  sources_enabled = codes "sigma, otx";
  sources_disabled = codes "krebs";
  environ =
      λ name. if text_eq name (codes "SOURCE_INTERVAL_NVD") then some (codes " 60 ") else none;
  configured_credentials = λ name. false;
}

-- A row with a past, under an old name.
abbrev old_nvd : SourceRow ℕ
old_nvd = record {
  name = codes "NVD (old)";
  homepage = [];
  endpoint = [];
  category = [];
  source_type = [];
  tier = 3;
  method = [];
  phase = 0;
  requires_auth = true;
  enabled = false;
  source = record {
    interval_seconds = 7200;
    state = 41;
    last_attempt = some 900;
    last_status = some (codes "failed");
    last_error = some (codes "timeout");
    consecutive_failures = some 2;
    last_successful_fetch = some 100;
    items_fetched = 12;
    items_new = 3;
    items_updated = 4;
  };
}

abbrev old_rows : Dict (SourceRow ℕ)
old_rows = (codes "nvd", old_nvd) ∷ []

unique_keys : are_unique source_registry ≡ true
unfolding source_registry
unique_keys = refl

-- The least interval is five minutes.
nvd_interval : interval_override settings (codes "nvd") ≡ some 300
unfolding interval_override
nvd_interval = refl

sync_registry_by_entry_example :
    lookup (codes "nvd") (sync_registry 0 settings source_registry old_rows)
    ≡ expected 0 settings (find (has_key (codes "nvd")) source_registry) (some old_nvd)
sync_registry_by_entry_example =
    sync_registry_by_entry 0 settings source_registry old_rows (codes "nvd") unique_keys

nvd_registered : registry_by_key (codes "nvd") ≡ some nvd_source
unfolding registry_by_key source_registry
nvd_registered = refl

nvd_enabled : is_enabled settings nvd_source ≡ true
unfolding is_enabled csv
nvd_enabled = refl

enabled_source_builds_example : (w : Worker) × (build_worker (codes "nvd") ≡ some w)
enabled_source_builds_example =
    enabled_source_builds settings (codes "nvd") nvd_source nvd_registered nvd_enabled
