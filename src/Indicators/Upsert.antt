-- ===== src/Indicators/Upsert.antt =====
-- backend/app/workers/abusech.py: `_AbuseChWorker.sync`, and backend/app/models.py: `Indicator`.
-- The table keeps the next identity that the database gives out.
pub mod Families
pub mod Sync
pub mod Table
pub mod Loop
pub mod Runs
pub mod Refine
pub mod Insert
pub mod View
pub mod Refresh
pub mod Changes
use asber.Base.{
  Bool, List, Option, Text, [], any, if◌then◌else◌, length, map, none, some, text_eq, ℕ, ◌&&◌, ◌++◌,
  ◌+◌, ◌==◌, ◌∷◌,
}
use asber.Indicators.Feed.{
  Row, Cache, resolve_family, malformed_row, Observation, skipped_row, Parsed, is_found, published,
}
use asber.Ingestion.Worker.{RunStats}
use asber.Models.{AttackObject}
use asber.Normalize.{clip}

-- A row: the columns that the feed fills are one field.
pub record Indicator : Type 0 where
  pub id : ℕ
  pub source_key : Text
  pub observation : Observation
  pub tier : ℕ
  pub last_seen_at : Option ℕ
  pub collected_at : ℕ

pub record Indicators : Type 0 where
  pub indicators : List Indicator
  pub next_id : ℕ

abbrev pub Key : Type 0
Key = Text × Text

abbrev pub same_key : Key → Key → Bool
same_key k j = text_eq k.0 j.0 && text_eq k.1 j.1

abbrev pub key_of : Observation → Key
key_of o = (o.kind, o.value_norm)

abbrev pub is_row_of : Text → Key → Indicator → Bool
is_row_of source key i = text_eq i.source_key source && same_key (key_of i.observation) key

-- `existing.get(key)`: a later row takes the place of an earlier one.
abbrev pub or_id_of : Indicator → Bool → Option ℕ → Option ℕ
or_id_of i matches (some pk) = some pk
or_id_of i matches none = if matches then some i.id else none

abbrev pub pk_of : Text → Key → List Indicator → Option ℕ
pk_of source key [] = none
pk_of source key (i ∷ rows) = or_id_of i (is_row_of source key i) (pk_of source key rows)

abbrev pub refreshed : ℕ → Observation → Indicator → Indicator
refreshed now o i = record i { observation = o; last_seen_at = some now }

-- The row that `session.get` finds, with the values of the feed.
abbrev pub refresh : ℕ → ℕ → Observation → List Indicator → List Indicator
refresh now pk o = map (λ i. if i.id == pk then refreshed now o i else i)

-- What the loop over the rows changes.
pub record Upserts : Type 0 where
  pub rows : List Indicator
  pub new_rows : List Observation
  pub seen : List Key
  pub updated : ℕ

module _ (now : ℕ) (existing : Key → Option ℕ) where
  abbrev pub add_or_refresh : Observation → Upserts → Option ℕ → Upserts
  add_or_refresh o s none = record s { new_rows = s.new_rows ++ o ∷ [] }
  add_or_refresh o s (some pk) = record s {
    rows = refresh now pk o s.rows;
    updated = s.updated + 1;
  }

  unfoldable pub upsert : Observation → Upserts → Upserts
  upsert o s =
      let key = key_of o in
      if any (same_key key) s.seen
      then s
      else add_or_refresh o (record s { seen = key ∷ s.seen }) (existing key)

module _ (ilike : Text → Text → Bool) (objects : List AttackObject) where
  -- The first candidate that ATT&CK recognises becomes the family.
  abbrev pub with_family : List Text → Observation → Cache → Observation × Cache
  with_family [] o cache = (o, cache)
  with_family (candidate ∷ candidates) o cache =
      let found = resolve_family ilike objects (some candidate) cache in
      let rest = with_family candidates o found.1 in
      if is_found found.0
      then (record o { family = clip (some candidate) 200; attack_stix_id = found.0 }, found.1)
      else rest

pub record Feeding : Type 0 where
  pub upserts : Upserts
  pub cache : Cache
  pub stats : RunStats

abbrev pub count_row : Feeding → Feeding
count_row s = record s { stats = record s.stats { fetched = s.stats.fetched + 1 } }

module _ (ilike : Text → Text → Bool) (objects : List AttackObject) (now : ℕ)
    (existing : Key → Option ℕ) (parse : Row → Parsed) where
  abbrev pub take_parsed : Parsed → Feeding → Feeding
  take_parsed malformed_row s = record s {
    stats = record s.stats { malformed = s.stats.malformed + 1 };
  }
  take_parsed skipped_row s = record s { stats = record s.stats { skipped = s.stats.skipped + 1 } }
  take_parsed (published o candidates) s =
      let resolved = with_family ilike objects candidates o s.cache in
      record s { upserts = upsert now existing resolved.0 s.upserts; cache = resolved.1 }

  -- `for row in _rows(…)`
  abbrev pub take_rows : List Row → Feeding → Feeding
  take_rows [] s = s
  take_rows (row ∷ rows) s = take_rows rows (take_parsed (parse row) (count_row s))

module _ (source : Text) (tier now : ℕ) where
  abbrev pub new_row : ℕ → Observation → Indicator
  new_row id o = record {
    id = id;
    source_key = source;
    observation = o;
    tier = tier;
    last_seen_at = some now;
    collected_at = now;
  }

  abbrev pub number_rows : ℕ → List Observation → List Indicator
  number_rows id [] = []
  number_rows id (o ∷ os) = new_row id o ∷ number_rows (id + 1) os

  -- `session.execute(insert(Indicator), [...])`
  unfoldable pub insert_rows : List Observation → Indicators → Indicators
  insert_rows os table = record {
    indicators = table.indicators ++ number_rows table.next_id os;
    next_id = table.next_id + length os;
  }
