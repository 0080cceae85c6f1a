-- ===== src/Indicators/Upsert/Runs.antt =====
-- A run of an abuse.ch worker over a feed, and a table as a map from keys.
use mathlib.Core.Path.{subst}
use asber.Base.{Bool, List, Option, Text, [], none, refl, some, ℕ, ◌≡◌, ap, arith, length, sym, ◌∙◌}
use asber.Models.{AttackObject}
use asber.Ingestion.Worker.{open_context, Store, Context, run_worker, finish, sync, no_stats}
use asber.Indicators.Upsert.{Key, pk_of, Indicators, insert_rows}
use asber.Indicators.Upsert.Sync.{fed, opening, feed_actions, sync_feed, add_counts}
use asber.Indicators.Feed.{Parsed, Row, payload_rows}
use asber.Indicators.Upsert.Insert.{IsTable}
use asber.Indicators.Upsert.Refine.{
  take_rows-upserts, Refines, stored-Refines, sync-insert_chunks, upserted,
}

module _ {S : Type 0} (recompute_many : List Text → Indicators → Indicators) where
  rows-finish :
      (result : Context Indicators S × Option Text)
      → result.1 ≡ none
      → result.0.stats.touched_cves ≡ []
      → (finish recompute_many result).saved.rows ≡ result.0.session
  unfolding finish
  rows-finish (ctx, none) e h = rw h refl
  rows-finish (ctx, some error) e h = absurd (cc)

  -- A run of the worker on a feed whose header is found keeps the keys of the table distinct, and
  -- has for each key of its own source the first observation of the feed that has the key, else what
  -- the table had. Every row of the table stays where it is: a row of another source, and one whose
  -- key the feed does not have, exactly as it was; a row whose key the feed has with its first
  -- observation, now last seen, and its identity, source, tier and time of collection as they were.
  -- After them come the added rows, of the source and its tier, seen and collected now.
  pub sync_feed-Refines :
      (ilike : Text → Text → Bool) (objects : List AttackObject) (parse : Row → Parsed)
      (csv_reader : Text → List (List Text)) (source : Text) (tier now started ended : ℕ)
      (required : List Text) (payload : Text) (rows : List Row) (store : Store Indicators S)
      (key : Key)
      → payload_rows csv_reader required payload ≡ some rows
      → IsTable store.rows
      → Refines ilike objects parse source tier now rows store.rows key
          (run_worker recompute_many started ended
            (sync_feed ilike objects parse source tier now csv_reader required store.rows
              (some payload))
            store).1.rows
  unfolding run_worker sync_feed feed_actions open_context sync upserted
  sync_feed-Refines ilike objects parse csv_reader source tier now started ended required payload
        rows store key e h =
      let s = fed ilike objects parse source now store.rows rows in
      let u =
        take_rows-upserts ilike objects parse now (λ key. pk_of source key store.rows.indicators)
          rows (opening store.rows) tt in
      let (a, b, c) =
        sync-insert_chunks recompute_many source tier now (length s.upserts.new_rows)
          s.upserts.new_rows
          (record (open_context started store) {
            session = record store.rows { indicators = s.upserts.rows };
            stats = add_counts s no_stats;
          })
          (omega arith) refl in
      let stored =
        ap (λ v. insert_rows source tier now v.new_rows (record store.rows { indicators = v.rows }))
          u in
      rw e (
        subst (Refines ilike objects parse source tier now rows store.rows key)
          (sym (rows-finish _ a c ∙ b ∙ stored))
          (stored-Refines ilike objects parse source tier now rows store.rows key h))
