-- ===== src/Ingestion/Worker/Streak.antt =====
-- What a source's row says of its last runs.
use asber.Base.{List, Option, Text, [], ap, if◌then◌else◌, none, refl, some, ℕ, ◌+◌, ◌∙◌, ◌∷◌, ◌≡◌}
use asber.Ingestion.Backoff.{or_zero}
use asber.Ingestion.Worker.{
  Action, Context, Store, checkpoint, close_run, fail, finish, move, open_context, run_worker,
  save_progress, settle, sync, tally, write,
}
use asber.Ingestion.Worker.Bookkeeping.{fails, is_some, sync-fails}
use asber.Ingestion.Http.{store}

-- A run: when it started, when it ended, and what it did.
pub record Run (D S : Type 0) : Type 1 where
  pub started : ℕ
  pub ended : ℕ
  pub actions : List (Action D S)

module _ {D S : Type 0} where
  -- The failures since the last success, where `n` is how many there were at first.
  abbrev pub streak : ℕ → List (Run D S) → ℕ
  streak n [] = n
  streak n (run ∷ runs) = streak (if fails run.actions then n + 1 else 0) runs

module _ {D S : Type 0} (recompute_many : List Text → D → D) where
  -- Runs one after another, each with its own times.
  abbrev pub run_all : List (Run D S) → Store D S → Store D S
  run_all [] store = store
  run_all (run ∷ runs) store =
      run_all runs (run_worker recompute_many run.started run.ended run.actions store).1

  sync_failures :
      (actions : List (Action D S)) (ctx : Context D S)
      → (sync recompute_many actions ctx).0.saved.source.consecutive_failures
        ≡ ctx.saved.source.consecutive_failures
  unfolding sync
  sync_failures [] ctx = refl
  sync_failures (fail error ∷ rest) ctx = refl
  sync_failures (write f ∷ rest) ctx = sync_failures rest (record ctx { session = f ctx.session })
  sync_failures (move f ∷ rest) ctx = sync_failures rest (record ctx { state = f ctx.state })
  sync_failures (tally f ∷ rest) ctx = sync_failures rest (record ctx { stats = f ctx.stats })
  sync_failures (checkpoint ∷ rest) ctx = sync_failures rest (save_progress recompute_many ctx)

  close_failures :
      (started ended n : ℕ) (r : Context D S × Option Text)
      → or_zero r.0.saved.source.consecutive_failures ≡ n
      → or_zero
          (close_run recompute_many started ended r.1
            (finish recompute_many r)).1.source.consecutive_failures
        ≡ (if is_some r.1 then n + 1 else 0)
  unfolding finish settle
  close_failures started ended n (ctx, none) h = refl
  close_failures started ended n (ctx, some e) h = ap (λ k. k + 1) h

  run_failures :
      (started ended : ℕ) (actions : List (Action D S)) (store : Store D S)
      → or_zero
          (run_worker recompute_many started ended actions store).1.source.consecutive_failures
        ≡ (if fails actions then or_zero store.source.consecutive_failures + 1 else 0)
  unfolding run_worker open_context
  run_failures started ended actions store =
      let ctx = open_context started store in
      close_failures started ended (or_zero store.source.consecutive_failures)
        (sync recompute_many actions ctx) (ap or_zero (sync_failures actions ctx))
      ∙ ap (λ b. if b then or_zero store.source.consecutive_failures + 1 else 0)
          (sync-fails recompute_many actions ctx)

  -- After any runs, each started and ended at any time, `consecutive_failures` is the number of runs
  -- that failed since the last one that did not, whatever each of them wrote, moved and
  -- checkpointed on the way.
  pub consecutive_failures_is_streak :
      (runs : List (Run D S)) (store : Store D S)
      → or_zero (run_all runs store).source.consecutive_failures
        ≡ streak (or_zero store.source.consecutive_failures) runs
  consecutive_failures_is_streak [] store = refl
  consecutive_failures_is_streak (run ∷ runs) store =
      consecutive_failures_is_streak runs
        (run_worker recompute_many run.started run.ended run.actions store).1
      ∙ ap (λ n. streak n runs) (run_failures run.started run.ended run.actions store)
