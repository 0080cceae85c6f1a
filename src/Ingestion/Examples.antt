-- ===== src/Ingestion/Examples.antt =====
-- The theorems on the ingestion at concrete sources, calls and runs, and runs.
use asber.Base.{
  List, Option, Text, [], all, arith, codes, false, none, refl, some, true, ℕ, ◌*◌, ◌+◌, ◌∷◌, ◌≡◌,
  ◌≤◌, ◌⊎◌, if◌then◌else◌, leb,
}
use asber.Ingestion.Backoff.{Source, backoff_seconds, or_zero}
use asber.Ingestion.Limiter.{RateLimiter, interval_of, wait}
use asber.Ingestion.Limiter.Spacing.{requests_keep_apart, releases, IsSpaced}
use asber.Ingestion.Backoff.Bounds.{backoff_grows_to_cap}
use asber.Ingestion.Worker.{
  run_worker, Action, Store, checkpoint, fail, move, write, finish, open_context, settle, sync,
}
use asber.Ingestion.Worker.Bookkeeping.{failed_run_keeps_checkpoint, checkpointed}
use asber.Ingestion.Worker.Streak.{run_all, consecutive_failures_is_streak, Run}
use asber.Ingestion.Http.{
  get, HttpCache, Answer, Outcome, answered, network_error, store_validators,
}
use asber.Ingestion.Http.Retries.{get_ends_after_retries, outcome_of, is_retried, count_from}

-- A source that was tried at 100000; its cursor is a number.
abbrev source : ℕ → Source ℕ
source failures = record {
  interval_seconds = 7200;
  state = 10;
  last_attempt = some 100000;
  last_status = some (codes "error");
  last_error = none;
  consecutive_failures = some failures;
  last_successful_fetch = none;
  items_fetched = 0;
  items_new = 0;
  items_updated = 0;
}

backoff_one : backoff_seconds (source 1) ≡ 14400
unfolding backoff_seconds
backoff_one = refl

nine_failures :
    (backoff_seconds (source 1) ≤ backoff_seconds (source 9))
    × (backoff_seconds (source 9) ≤ 6 * 3600)
nine_failures = backoff_grows_to_cap (source 1) (source 9) (omega arith) (omega arith)

abbrev nvd : Text
nvd = codes "services.nvd.nist.gov"

abbrev limiter : RateLimiter
limiter = record { intervals = (nvd, 6000) ∷ []; last = [] }

-- Two calls at one instant and one soon after, with a call to another host in between.
abbrev calls : List (Text × ℕ)
calls = (nvd, 100) ∷ (nvd, 100) ∷ (codes "urlhaus.abuse.ch", 100) ∷ (nvd, 500) ∷ []

releases_run : releases nvd limiter calls ≡ 100 ∷ 6100 ∷ 12100 ∷ []
unfolding wait
releases_run = refl

requests_keep_apart_example : IsSpaced (interval_of limiter nvd) (releases nvd limiter calls)
requests_keep_apart_example = requests_keep_apart limiter nvd calls

-- The rows are a count of CVEs, and recomputing them changes nothing.
abbrev no_change : List Text → ℕ → ℕ
no_change cves rows = rows

abbrev rows_before : Store ℕ ℕ
rows_before = record { rows = 0; source = source 2 }

-- Two pages with a checkpoint after each, a third page, and a network failure.
abbrev pages : List (Action ℕ ℕ)
pages =
    write (λ n. n + 200)
    ∷ move (λ c. c + 1)
    ∷ checkpoint
    ∷ write (λ n. n + 150)
    ∷ move (λ c. c + 1)
    ∷ checkpoint
    ∷ write (λ n. n + 100)
    ∷ move (λ c. c + 1)
    ∷ fail (codes "FetchError: HTTP 403")
    ∷ []

-- The failed run has saved the cursor of its second page.
pages_run : (run_worker no_change 5 9 pages rows_before).1.source.state ≡ 12
unfolding run_worker settle sync finish open_context
pages_run = refl

failed_run_keeps_checkpoint_example :
    let failed = (run_worker no_change 5 9 pages rows_before).1 in
    let kept = run_worker no_change 5 9 (checkpointed pages) rows_before in
    (failed.rows ≡ kept.1.rows)
    × (failed.source.state ≡ kept.1.source.state)
    × (kept.0.error ≡ none)
failed_run_keeps_checkpoint_example =
    failed_run_keeps_checkpoint no_change 5 9 pages rows_before refl

abbrev run_at : ℕ → ℕ → List (Action ℕ ℕ) → Run ℕ ℕ
run_at started ended actions = record { started = started; ended = ended; actions = actions }

abbrev three_runs : List (Run ℕ ℕ)
three_runs = run_at 5 9 pages ∷ run_at 900 930 (checkpoint ∷ []) ∷ run_at 1800 1801 pages ∷ []

consecutive_failures_is_streak_example :
    or_zero (run_all no_change three_runs rows_before).source.consecutive_failures ≡ 1
consecutive_failures_is_streak_example =
    consecutive_failures_is_streak no_change three_runs rows_before

-- A server that is busy twice and then sends the feed.
abbrev reply : ℕ → Answer
reply n =
    if leb n 1
    then network_error
    else answered (record {
      status = if leb n 2 then 503 else 200;
      content = codes "feed";
      etag = none;
      last_modified = none;
    })

abbrev replies : Option HttpCache → ℕ → Answer
replies cache n = reply n

-- A stand-in for the digest.
abbrev digest : Text → Text
digest content = content

get_ends_after_retries_example :
    (m : ℕ) × (o : Outcome) × (get digest 4 nvd true false replies []
      ≡ some (o, store_validators nvd o []))
    × (m ≤ 4)
    × (all (λ k. is_retried (reply k)) (count_from 1 m) ≡ true)
    × (o ≡ outcome_of digest true none (reply (m + 1)))
    × ((m ≡ 4) ⊎ (is_retried (reply (m + 1)) ≡ false))
get_ends_after_retries_example = get_ends_after_retries digest 4 nvd true false replies []
