-- ===== src/Indicators/Upsert/Refine.antt =====
-- What a run over a feed does to the table.
use asber.Base.{
  map, Bool, List, Option, Text, [], ap, arith, length, none, refl, suc, sym, zero, ℕ, ◌++◌, ◌∙◌,
  ◌∷◌, ◌≡◌, ◌≤◌, drop, length-drop, take, take-drop, ◌+◌, All, any, false, some,
}
use asber.Indicators.Upsert.{
  count_row, Key, take_rows, Feeding, insert_rows, upsert, take_parsed, Indicators, Indicator,
  Upserts, is_row_of, key_of, pk_of, number_rows,
}
use asber.Indicators.Upsert.Insert.{
  insert_rows_none, insert_rows-append, IsTable, insert_rows-IsTable, observed-append,
}
use asber.Indicators.Feed.{skipped_row, Parsed, Row, malformed_row, Observation, published}
use asber.Indicators.Upsert.Families.{family_found, with_family-IsSound, IsSound}
use asber.Indicators.Upsert.Sync.{insert_chunks, chunk_actions, opening}
use asber.Models.{AttackObject}
use asber.Ingestion.Worker.{Context, sync, Action, recompute_touched, save_progress}
use asber.Indicators.Upsert.Changes.{row_after, upsert_all-row_after}
use asber.Indicators.Upsert.Loop.{upsert_all, IsOpen, upsert_all-IsOpen}
use asber.Indicators.Upsert.View.{or_observed-none, view-upsert_all}
use asber.Indicators.Upsert.Table.{or_observed, first_of, observed, pk_of-none}

module _ (ilike : Text → Text → Bool) (objects : List AttackObject) (parse : Row → Parsed) where
  abbrev pub observation_of : Parsed → List Observation
  observation_of malformed_row = []
  observation_of skipped_row = []
  observation_of (published o candidates) = family_found ilike objects candidates o ∷ []

  -- What the rows of a feed say, one by one: nothing is remembered from one to the next.
  abbrev pub observations : List Row → List Observation
  observations [] = []
  observations (row ∷ rows) = observation_of (parse row) ++ observations rows

  take_parsed-upserts :
      (now : ℕ) (existing : Key → Option ℕ) (p : Parsed) (s : Feeding) (rows : List Row)
      → ((s : Feeding)
          → IsSound ilike objects s.cache
          → (take_rows ilike objects now existing parse rows s).upserts
            ≡ upsert_all now existing (observations rows) s.upserts)
      → IsSound ilike objects s.cache
      → (take_rows ilike objects now existing parse rows
          (take_parsed ilike objects now existing parse p s)).upserts
        ≡ upsert_all now existing (observation_of p ++ observations rows) s.upserts
  take_parsed-upserts now existing malformed_row s rows ih h = ih _ h
  take_parsed-upserts now existing skipped_row s rows ih h = ih _ h
  take_parsed-upserts now existing (published o candidates) s rows ih h =
      let (e, sound) = with_family-IsSound ilike objects candidates o s.cache h in
      ih _ sound
      ∙ ap (λ o. upsert_all now existing (observations rows) (upsert now existing o s.upserts)) e

  pub take_rows-upserts :
      (now : ℕ) (existing : Key → Option ℕ) (rows : List Row) (s : Feeding)
      → IsSound ilike objects s.cache
      → (take_rows ilike objects now existing parse rows s).upserts
        ≡ upsert_all now existing (observations rows) s.upserts
  take_rows-upserts now existing [] s h = refl
  take_rows-upserts now existing (row ∷ rows) s h =
      take_parsed-upserts now existing (parse row) (count_row s) rows
        (take_rows-upserts now existing rows) h

-- The actions that insert the new rows, from a context that has nothing to recompute.
module _ {S : Type 0} (recompute_many : List Text → Indicators → Indicators) where
  abbrev pub IsInserted : Indicators → Context Indicators S × Option Text → Type 0
  IsInserted t result =
      (result.1 ≡ none) × (result.0.session ≡ t) × (result.0.stats.touched_cves ≡ [])

  sync-chunk_actions :
      (source : Text) (tier now : ℕ) (chunk left os : List Observation)
      (rest : List (Action Indicators S)) (ctx : Context Indicators S)
      → ctx.stats.touched_cves ≡ []
      → chunk ++ left ≡ os
      → ((ctx : Context Indicators S)
          → ctx.stats.touched_cves ≡ []
          → IsInserted
              (insert_rows source tier now left ctx.session)
              (sync recompute_many rest ctx))
      → IsInserted
          (insert_rows source tier now os ctx.session)
          (sync recompute_many (chunk_actions source tier now chunk ++ rest) ctx)
  unfolding sync save_progress
  sync-chunk_actions source tier now chunk left os rest ctx h e ih =
      let (a, b, c) = ih _ refl in
      let stored = insert_rows source tier now chunk ctx.session in
      let same : recompute_touched recompute_many
            (record ctx.stats { new = ctx.stats.new + length chunk }) stored
          ≡ stored =
        rw h refl in
      (
        a,
        b
            ∙ ap (insert_rows source tier now left) same
            ∙ insert_rows-append source tier now chunk left ctx.session
            ∙ ap (λ os. insert_rows source tier now os ctx.session) e,
        c,
      )

  pub sync-insert_chunks :
      (source : Text) (tier now fuel : ℕ) (os : List Observation) (ctx : Context Indicators S)
      → length os ≤ fuel
      → ctx.stats.touched_cves ≡ []
      → IsInserted
          (insert_rows source tier now os ctx.session)
          (sync recompute_many (insert_chunks source tier now fuel os) ctx)
  unfolding sync
  sync-insert_chunks source tier now zero [] ctx l h =
      (refl, sym (insert_rows_none source tier now ctx.session), h)
  sync-insert_chunks source tier now zero (o ∷ os) ctx l h = absurd (omega arith)
  sync-insert_chunks source tier now (suc fuel) [] ctx l h =
      (refl, sym (insert_rows_none source tier now ctx.session), h)
  sync-insert_chunks source tier now (suc fuel) (o ∷ os) ctx l h =
      sync-chunk_actions source tier now (take 1000 (o ∷ os)) (drop 1000 (o ∷ os)) (o ∷ os)
        (insert_chunks source tier now fuel (drop 1000 (o ∷ os))) ctx h (take-drop 1000 (o ∷ os))
        (λ ctx h.
          sync-insert_chunks source tier now fuel (drop 1000 (o ∷ os)) ctx
            (let e = length-drop 1000 (o ∷ os) in omega (arith, e)) h)

module _ (ilike : Text → Text → Bool) (objects : List AttackObject) (parse : Row → Parsed) where
  module _ (source : Text) (tier now : ℕ) (rows : List Row) (table : Indicators) where
    -- A row that the feed added.
    abbrev pub IsAdded : Indicator → Type 0
    IsAdded i =
        (i.source_key ≡ source)
        × (i.tier ≡ tier)
        × (i.last_seen_at ≡ some now)
        × (i.collected_at ≡ now)

    -- The first observation of a key stands in the table, in the place of what stood there, and the
    -- table's rows are followed by the added ones.
    abbrev pub Refines : Key → Indicators → Type 0
    Refines key after =
        IsTable after
        × (observed source key after.indicators
            ≡ or_observed (first_of key (observations ilike objects parse rows))
                (observed source key table.indicators))
        × (added : List Indicator) × (after.indicators
            ≡ map (row_after source now (observations ilike objects parse rows)) table.indicators
              ++ added)
        × All IsAdded added

    number_rows-IsAdded :
        (id : ℕ) (os : List Observation) → All IsAdded (number_rows source tier now id os)
    number_rows-IsAdded id [] = tt
    number_rows-IsAdded id (o ∷ os) = ((refl, refl, refl, refl), number_rows-IsAdded (id + 1) os)

    unfoldable pub upserted : Upserts
    upserted =
        upsert_all now (λ key. pk_of source key table.indicators)
          (observations ilike objects parse rows) (opening table).upserts

    absent_rows :
        (rows : List Indicator) (os : List Observation)
        → ((key : Key) → pk_of source key rows ≡ pk_of source key table.indicators)
        → All (λ o. pk_of source (key_of o) table.indicators ≡ none) os
        → All (λ o. any (is_row_of source (key_of o)) rows ≡ false) os
    absent_rows rows [] ks h = tt
    absent_rows rows (o ∷ os) ks h =
        (pk_of-none source (key_of o) rows (ks (key_of o) ∙ h.0), absent_rows rows os ks h.1)

    pub stored-Refines :
        (key : Key)
        → IsTable table
        → Refines key (
            insert_rows source tier now upserted.new_rows
              (record table { indicators = upserted.rows }))
    unfolding upserted insert_rows
    stored-Refines key h =
        let start = (opening table).upserts in
        let os = observations ilike objects parse rows in
        let begun : IsOpen source table.next_id table.indicators start =
          (h.0, λ k. refl, tt, tt, tt, refl, h.1) in
        let (d, ks, new, absent, nd, others, ids) =
          upsert_all-IsOpen source table.next_id table.indicators now os start begun in
        (
          insert_rows-IsTable source tier now upserted.new_rows
              (record table { indicators = upserted.rows }) (d, ids)
              (absent_rows upserted.rows upserted.new_rows ks absent) nd,
          observed-append source tier now key upserted.rows table.next_id upserted.new_rows
              ∙ view-upsert_all source table.next_id table.indicators now os start key begun
              ∙ ap (or_observed (first_of key os))
                  (or_observed-none (observed source key table.indicators)),
          number_rows source tier now table.next_id upserted.new_rows,
          ap (λ l. l ++ number_rows source tier now table.next_id upserted.new_rows)
              (upsert_all-row_after source now table.next_id table.indicators os start begun refl),
          number_rows-IsAdded table.next_id upserted.new_rows,
        )
