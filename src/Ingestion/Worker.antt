-- ===== src/Ingestion/Worker.antt =====
-- backend/app/ingestion/base.py: `run_worker`, `WorkerContext.checkpoint` and `RunStats`. A worker's
-- `sync` is not fixed: it is a list of what it does to its session, its cursors and its counts.
pub mod Bookkeeping
pub mod Streak
use asber.Base.{
  Bool, List, Option, Text, [], false, if◌then◌else◌, is_empty, none, some, ℕ, ◌∷◌, codes, ◌+◌,
}
use asber.Ingestion.Backoff.{Source, or_zero}
use asber.Ingestion.Http.{store}

pub record RunStats : Type 0 where
  pub fetched : ℕ
  pub new : ℕ
  pub updated : ℕ
  pub skipped : ℕ
  pub malformed : ℕ
  pub not_modified : Bool
  pub touched_cves : List Text

abbrev pub no_stats : RunStats
no_stats = record {
  fetched = 0;
  new = 0;
  updated = 0;
  skipped = 0;
  malformed = 0;
  not_modified = false;
  touched_cves = [];
}

pub record IngestionRun : Type 0 where
  pub started_at : ℕ
  pub finished_at : Option ℕ
  pub status : Text
  pub items_fetched : ℕ
  pub items_new : ℕ
  pub items_updated : ℕ
  pub error : Option Text

-- What a worker does: `D` is the data that it writes through its session, `S` its cursors.
pub data Action (D S : Type 0) : Type 0 where
  write : (D → D) → Action D S
  move : (S → S) → Action D S
  tally : (RunStats → RunStats) → Action D S
  checkpoint : Action D S
  fail : Text → Action D S

-- The data and the row of the source as last committed.
pub record Store (D S : Type 0) : Type 0 where
  pub rows : D
  pub source : Source S

-- The committed store, and the worker's own session, cursors and counts.
pub record Context (D S : Type 0) : Type 0 where
  pub saved : Store D S
  pub session : D
  pub state : S
  pub stats : RunStats

abbrev pub status_of : Option Text → RunStats → Text
status_of (some error) stats = codes "error"
status_of none stats = if stats.not_modified then codes "not_modified" else codes "success"

module _ {D S : Type 0} where
  -- `source.last_attempt = run.started_at` and what the worker starts from.
  unfoldable pub open_context : ℕ → Store D S → Context D S
  open_context now store = record {
    saved = record store { source = record store.source { last_attempt = some now } };
    session = store.rows;
    state = store.source.state;
    stats = no_stats;
  }

module _ {S : Type 0} where
  -- What the source's row keeps of the run's counts, on every branch.
  abbrev pub counted_source : Text → RunStats → Source S → Source S
  counted_source status stats source = record source {
    last_status = some status;
    items_fetched = stats.fetched;
    items_new = stats.new;
    items_updated = stats.updated;
  }

  unfoldable pub settle : ℕ → Option Text → RunStats → S → Source S → Source S
  settle now (some error) stats state source =
      record (counted_source (status_of (some error) stats) stats source) {
        last_error = some error;
        consecutive_failures = some (or_zero source.consecutive_failures + 1);
      }
  settle now none stats state source = record (counted_source (status_of none stats) stats source) {
    last_error = none;
    consecutive_failures = some 0;
    last_successful_fetch = some now;
    state = state;
  }

-- `correlation.recompute_many` on the CVEs touched.
module _ {D : Type 0} (recompute_many : List Text → D → D) where
  abbrev pub recompute_touched : RunStats → D → D
  recompute_touched stats rows =
      if is_empty stats.touched_cves then rows else recompute_many stats.touched_cves rows

module _ {D S : Type 0} (recompute_many : List Text → D → D) where
  unfoldable pub save_progress : Context D S → Context D S
  save_progress ctx =
      let rows = recompute_touched recompute_many ctx.stats ctx.session in
      record ctx {
        saved = record { rows = rows; source = record ctx.saved.source { state = ctx.state } };
        session = rows;
        stats = record ctx.stats { touched_cves = [] };
      }

  -- `worker.sync(ctx, stats)`: the context at its end, and the exception that ended it, if any.
  unfoldable pub sync : List (Action D S) → Context D S → Context D S × Option Text
  unfolding save_progress
  sync [] ctx = (ctx, none)
  sync (write f ∷ rest) ctx = sync rest (record ctx { session = f ctx.session })
  sync (move f ∷ rest) ctx = sync rest (record ctx { state = f ctx.state })
  sync (tally f ∷ rest) ctx = sync rest (record ctx { stats = f ctx.stats })
  sync (checkpoint ∷ rest) ctx = sync rest (save_progress ctx)
  sync (fail error ∷ rest) ctx = (ctx, some error)

  -- The final `session.commit()`, or `session.rollback()` if `sync` raised.
  unfoldable pub finish : Context D S × Option Text → Context D S
  finish (ctx, none) = record ctx {
    saved = record ctx.saved { rows = recompute_touched recompute_many ctx.stats ctx.session };
  }
  finish (ctx, some error) = ctx

  -- `ended` is the time at which the bookkeeping after the run reads the clock.
  abbrev pub close_run : ℕ → ℕ → Option Text → Context D S → IngestionRun × Store D S
  close_run started ended error ctx = (
    record {
      started_at = started;
      finished_at = some ended;
      status = status_of error ctx.stats;
      items_fetched = ctx.stats.fetched;
      items_new = ctx.stats.new;
      items_updated = ctx.stats.updated;
      error = error;
    },
    record ctx.saved { source = settle ended error ctx.stats ctx.state ctx.saved.source },
  )

  unfoldable pub run_worker : ℕ → ℕ → List (Action D S) → Store D S → IngestionRun × Store D S
  run_worker started ended actions store =
      let result = sync actions (open_context started store) in
      close_run started ended result.1 (finish result)
