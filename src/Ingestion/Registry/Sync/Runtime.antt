-- ===== src/Ingestion/Registry/Sync/Runtime.antt =====
-- What the table of sources holds after it was synchronised with a registry.
use asber.Base.{
  Bool-cases, Dict, List, Option, Text, [], any, arith, false, find, inl, inr, insert, lookup,
  lookup-insert, none, refl, some, text_eq, text_eq_iff, ◌∙◌, ◌∷◌, ◌≡◌, ap, sym, Bool, not, true,
  ◌&&◌, ℕ,
}
use asber.Ingestion.Registry.Defs.{SourceDef}
use asber.Ingestion.Registry.Sync.{
  sync_registry, Settings, SourceRow, synced_row, interval_override, is_enabled, or_interval,
}
use asber.Ingestion.Registry.Table.{has_key}
use asber.Ingestion.Backoff.{Source}

-- No two entries have one key.
abbrev pub are_unique : List SourceDef → Bool
are_unique [] = true
are_unique (sdef ∷ registry) = not (any (has_key sdef.key) registry) && are_unique registry

module _ {S : Type 0} (no_state : S) (settings : Settings) where
  -- A row with every value of the entry, and these of the runs.
  abbrev pub listed_row : SourceDef → Source S → SourceRow S
  listed_row sdef source = record {
    name = sdef.name;
    homepage = sdef.homepage;
    endpoint = sdef.endpoint;
    category = sdef.category;
    source_type = sdef.source_type;
    tier = sdef.tier;
    method = sdef.method;
    phase = sdef.phase;
    requires_auth = sdef.requires_auth;
    enabled = is_enabled settings sdef;
    source = source;
  }

  abbrev pub interval_now : SourceDef → ℕ
  interval_now sdef = or_interval (interval_override settings sdef.key) sdef.interval

  -- No run was made.
  abbrev pub fresh_runs : SourceDef → Source S
  fresh_runs sdef = record {
    interval_seconds = interval_now sdef;
    state = no_state;
    last_attempt = none;
    last_status = none;
    last_error = none;
    consecutive_failures = some 0;
    last_successful_fetch = none;
    items_fetched = 0;
    items_new = 0;
    items_updated = 0;
  }

  -- What the runs have left, column by column.
  abbrev pub same_runs : SourceDef → Source S → Source S
  same_runs sdef old = record {
    interval_seconds = interval_now sdef;
    state = old.state;
    last_attempt = old.last_attempt;
    last_status = old.last_status;
    last_error = old.last_error;
    consecutive_failures = old.consecutive_failures;
    last_successful_fetch = old.last_successful_fetch;
    items_fetched = old.items_fetched;
    items_new = old.items_new;
    items_updated = old.items_updated;
  }

  -- The row of a key: as the entry with this key has it, or as it was.
  abbrev pub expected : Option SourceDef → Option (SourceRow S) → Option (SourceRow S)
  expected none row = row
  expected (some sdef) none = some (listed_row sdef (fresh_runs sdef))
  expected (some sdef) (some row) = some (listed_row sdef (same_runs sdef row.source))

  synced_row_lem :
      (sdef : SourceDef) (row : Option (SourceRow S))
      → some (synced_row no_state settings sdef row) ≡ expected (some sdef) row
  synced_row_lem sdef none = refl
  synced_row_lem sdef (some row) = refl

  absent :
      (key : Text) (registry : List SourceDef)
      → any (has_key key) registry ≡ false
      → find (has_key key) registry ≡ none
  absent key [] h = refl
  absent key (sdef ∷ registry) h = ground (arith, absent key registry)

  -- In a registry whose keys differ, every key's row after `sync_registry` is the one of its entry:
  -- it has the entry's values, and is enabled and has an interval by the present settings, and its
  -- state, times, status, error, failures and counts are those that the runs have left, or those of
  -- no run where there was no row. A key that is not in the registry keeps its row, or has none.
  pub sync_registry_by_entry :
      (registry : List SourceDef) (rows : Dict (SourceRow S)) (key : Text)
      → are_unique registry ≡ true
      → lookup key (sync_registry no_state settings registry rows)
        ≡ expected (find (has_key key) registry) (lookup key rows)
  unfolding sync_registry
  sync_registry_by_entry [] rows key u = refl
  sync_registry_by_entry (sdef ∷ registry) rows key u =
      let u0 : any (has_key sdef.key) registry ≡ false = ground arith in
      let u1 : are_unique registry ≡ true = ground arith in
      let row = synced_row no_state settings sdef (lookup sdef.key rows) in
      let ih = sync_registry_by_entry registry (insert sdef.key row rows) key u1 in
      ih ∙ elim (Bool-cases (text_eq sdef.key key)) [
        | inl e ↦
            let q : sdef.key ≡ key = (text_eq_iff sdef.key key).0 e in
            let u' : any (has_key key) registry ≡ false =
              ap (λ k. any (has_key k) registry) (sym q) ∙ u0 in
            rw (lookup-insert sdef.key key row rows, e, absent key registry u')
              (synced_row_lem sdef (lookup sdef.key rows)
                ∙ ap (λ k. expected (some sdef) (lookup k rows)) q)
        | inr e ↦ rw (lookup-insert sdef.key key row rows, e) refl
      ]
