-- ===== src/Nvd/KevFeed.antt =====
-- backend/app/workers/cisa_kev.py: `CisaKevWorker.sync`, as the loop of the NVD worker. The cursor
-- is the version of the catalogue.
use asber.Base.{List, Option, Text, [], codes, false, none, some, take, true, ℕ, ◌+◌, ◌∷◌}
use asber.Correlation.Entry.{apply_kev, Graph}
use asber.Ingestion.Worker.{Context}
use asber.Nvd.{count_entry}
use asber.Correlation.Merge.{KevEntry}
use asber.Normalize.Kev.{KevRow}

-- The body of the feed; `none` stands for one without a list of vulnerabilities.
pub record KevCatalogue : Type 0 where
  pub catalog_version : Text
  pub kev_rows : Option (List (Option KevRow))

abbrev pub KevCtx : Type 0
KevCtx = Context Graph Text

module _ (parse : Option KevRow → Option KevEntry) (now : ℕ) where
  abbrev pub take_kev_parsed : Option KevEntry → KevCtx → KevCtx
  take_kev_parsed none ctx = record ctx {
    stats = record ctx.stats { malformed = ctx.stats.malformed + 1 };
  }
  take_kev_parsed (some entry) ctx =
      let applied = apply_kev now entry ctx.session in
      record ctx { stats = count_entry entry.cve_id false applied.0 ctx.stats; session = applied.1 }

  abbrev pub take_kev_rows : List (Option KevRow) → KevCtx → KevCtx
  take_kev_rows [] ctx = ctx
  take_kev_rows (row ∷ rows) ctx = take_kev_rows rows (
      take_kev_parsed (parse row)
        (record ctx { stats = record ctx.stats { fetched = ctx.stats.fetched + 1 } }))

  abbrev pub take_catalogue : Text → Option (List (Option KevRow)) → KevCtx → KevCtx × Option Text
  take_catalogue version none ctx = (ctx, some (codes "MalformedRecord"))
  take_catalogue version (some rows) ctx =
      (take_kev_rows rows (record ctx { state = take 32 version }), none)

  -- The context at the end, and the error that ended it; no body means that nothing has changed.
  unfoldable pub sync_kev : Option KevCatalogue → KevCtx → KevCtx × Option Text
  sync_kev none ctx = (record ctx { stats = record ctx.stats { not_modified = true } }, none)
  sync_kev (some catalogue) ctx = take_catalogue catalogue.catalog_version catalogue.kev_rows ctx
