-- ===== src/Indicators/Upsert/Sync.antt =====
-- backend/app/workers/abusech.py: `_AbuseChWorker.sync` as a worker's actions. The body of the
-- response is `none` when the feed is unchanged.
use asber.Base.{
  Bool, List, Option, Text, [], codes, drop, if◌then◌else◌, is_empty, length, none, some, suc, take,
  true, zero, ℕ, ◌++◌, ◌+◌, ◌∷◌,
}
use asber.Indicators.Upsert.{pk_of, Indicators, Feeding, take_rows, insert_rows}
use asber.Indicators.Feed.{payload_rows, Row, Parsed, Observation}
use asber.Models.{AttackObject}
use asber.Ingestion.Worker.{write, checkpoint, tally, RunStats, Action, no_stats, fail}

module _ {S : Type 0} (source : Text) (tier now : ℕ) where
  abbrev pub chunk_actions : List Observation → List (Action Indicators S)
  chunk_actions chunk =
      write (insert_rows source tier now chunk)
      ∷ tally (λ stats. record stats { new = stats.new + length chunk })
      ∷ checkpoint
      ∷ []

  -- `for i in range(0, len(new_rows), 1000)`, on fuel
  abbrev pub insert_chunks : ℕ → List Observation → List (Action Indicators S)
  insert_chunks zero os = []
  insert_chunks (suc fuel) os =
      let rest = insert_chunks fuel (drop 1000 os) in
      if is_empty os then [] else chunk_actions (take 1000 os) ++ rest

abbrev pub add_counts : Feeding → RunStats → RunStats
add_counts s stats = record stats {
  fetched = stats.fetched + s.stats.fetched;
  updated = stats.updated + s.upserts.updated;
  skipped = stats.skipped + s.stats.skipped;
  malformed = stats.malformed + s.stats.malformed;
}

abbrev pub opening : Indicators → Feeding
opening table = record {
  upserts = record { rows = table.indicators; new_rows = []; seen = []; updated = 0 };
  cache = [];
  stats = no_stats;
}

module _ (ilike : Text → Text → Bool) (objects : List AttackObject) (parse : Row → Parsed) where
  abbrev pub fed : Text → ℕ → Indicators → List Row → Feeding
  fed source now table rows =
      take_rows ilike objects now (λ key. pk_of source key table.indicators) parse rows
        (opening table)

  module _ {S : Type 0} (source : Text) (tier now : ℕ) where
    unfoldable pub feed_actions : Indicators → List Row → List (Action Indicators S)
    feed_actions table rows =
        let s = fed source now table rows in
        write (λ t. record t { indicators = s.upserts.rows })
        ∷ tally (add_counts s)
        ∷ insert_chunks source tier now (length s.upserts.new_rows) s.upserts.new_rows

    abbrev pub rows_actions : Indicators → Option (List Row) → List (Action Indicators S)
    unfolding feed_actions
    rows_actions table none = fail (codes "MalformedRecord") ∷ []
    rows_actions table (some rows) = feed_actions table rows

    -- What `sync` does to the table that the session shows it.
    unfoldable pub sync_feed :
        (Text → List (List Text))
        → List Text
        → Indicators
        → Option Text
        → List (Action Indicators S)
    unfolding payload_rows feed_actions
    sync_feed csv_reader required table none =
        tally (λ stats. record stats { not_modified = true }) ∷ []
    sync_feed csv_reader required table (some payload) =
        rows_actions table (payload_rows csv_reader required payload)
