-- ===== src/Scheduler/Examples.antt =====
-- The scheduler's theorems at concrete sources and threads, and runs.
use asber.Base.{
  Bool, List, Option, Text, [], codes, false, none, refl, some, true, ℕ, ◌∷◌, ◌≡◌, ◌≤◌, All, arith,
}
use asber.Ingestion.Backoff.{Source}
use asber.Scheduler.Bootstrap.{bootstrap, bootstrap_order, order}
use asber.Scheduler.Requests.{
  requests_are_taken_once, request_all, pop_run_requests, count_text, request_run, IsSpop, IsTaken,
}
use asber.Scheduler.Runs.{
  System, Thread, Reach, start, here, acquire, Phase, calling, decide, holding, lock, next, run_it,
  running, expire, release, spawn,
}
use asber.Scheduler.Runs.Exclusion.{runs_never_overlap, running_count}
use asber.Ingestion.Registry.Workers.{nvd_worker, build_worker}
use asber.Ingestion.Registry.Table.{source_registry, registry_by_key}
use asber.Scheduler.Runs.Progress.{runs_can_finish, IsDone}

abbrev fetched_at : ℕ → Source ℕ
fetched_at last = record {
  interval_seconds = 900;
  state = 0;
  last_attempt = none;
  last_status = none;
  last_error = none;
  consecutive_failures = some 0;
  last_successful_fetch = some last;
  items_fetched = 0;
  items_new = 0;
  items_updated = 0;
}

abbrev enabled : List (Text × Source ℕ)
enabled =
    (codes "krebs", fetched_at 100)
    ∷ (codes "nvd", fetched_at 950)
    ∷ (codes "mitre_attack", fetched_at 0)
    ∷ []

bootstrap_run : bootstrap 1000 enabled ≡ codes "mitre_attack" ∷ codes "krebs" ∷ []
unfolding bootstrap order bootstrap_order
bootstrap_run = refl

abbrev requested : List Text
requested = codes "nvd" ∷ codes "krebs" ∷ codes "nvd" ∷ []

-- The second of the members, or the only one, and the others.
abbrev take_second : Text → List Text → Option Text × List Text
take_second t [] = (some t, [])
take_second t (u ∷ ts) = (some u, t ∷ ts)

abbrev spop_second : List Text → Option Text × List Text
spop_second [] = (none, [])
spop_second (t ∷ ts) = take_second t ts

spop_second-IsSpop : IsSpop spop_second
spop_second-IsSpop = record { empty = refl; taken = taken }
  where
    taken :
        (t : Text) (ts : List Text)
        → (item : Text) × (rest : List Text) × (spop_second (t ∷ ts) ≡ (some item, rest))
          × IsTaken item rest (t ∷ ts)
    taken t [] = (t, [], refl, record { members = λ k. refl; size = refl })
    taken t (u ∷ ts) = (u, t ∷ ts, refl, record { members = λ k. omega arith; size = omega arith })

pops_run :
    pop_run_requests spop_second true (request_all requested [])
    ≡ (codes "krebs" ∷ codes "nvd" ∷ [], [])
unfolding pop_run_requests request_run
pops_run = refl

requests_are_taken_once_example :
    let popped = pop_run_requests spop_second true (request_all requested []) in
    (count_text (codes "nvd") popped.0 ≡ 1) × (popped.1 ≡ [])
requests_are_taken_once_example =
    requests_are_taken_once spop_second true requested (codes "nvd") spop_second-IsSpop

abbrev no_sources : Text → Option (Source ℕ)
no_sources key = none

abbrev free : Text → Bool
free key = false

abbrev thread : Phase → Thread
thread phase = record { key = codes "nvd"; force = true; phase = phase }

abbrev two_threads : Phase → Phase → (Text → Bool) → System
two_threads p q held = record { held = held; threads = thread p ∷ thread q ∷ [] }

nvd_decision : decide true true 5 (codes "nvd") (no_sources (codes "nvd")) ≡ run_it nvd_worker
unfolding decide build_worker registry_by_key source_registry
nvd_decision = refl

abbrev idle : System
idle = record { held = free; threads = [] }

-- Two threads for one source, the first of them running.
one_runs :
    (expires : Bool)
    → Reach expires no_sources idle (two_threads running calling (lock (codes "nvd") free))
one_runs expires =
    next
      (next
        (next (next here (spawn idle (codes "nvd") true))
          (spawn (record { held = free; threads = thread calling ∷ [] }) (codes "nvd") true))
        (acquire free [] (thread calling ∷ []) (thread calling) refl refl))
      (start (lock (codes "nvd") free) [] (thread calling ∷ []) (thread holding) 5 nvd_worker refl
        nvd_decision)

runs_never_overlap_example :
    running_count (codes "nvd") (two_threads running calling (lock (codes "nvd") free)).threads ≤ 1
runs_never_overlap_example =
    runs_never_overlap no_sources (two_threads running calling (lock (codes "nvd") free))
      (codes "nvd") (one_runs false)

runs_can_finish_example :
    (u : System) × Reach false no_sources (two_threads running calling (lock (codes "nvd") free)) u
    × IsDone u.threads
    × All (λ t. u.held t.key ≡ false) u.threads
runs_can_finish_example =
    runs_can_finish no_sources (two_threads running calling (lock (codes "nvd") free))
      (one_runs false)

-- Where the lock may run out, the second thread starts beside the first: the overlap that the time
-- to live of a lock in Redis leaves open.
both_run : Reach true no_sources idle (
    two_threads running running
      (lock (codes "nvd") (release (codes "nvd") (lock (codes "nvd") free))))
both_run =
    next
      (next
        (next (one_runs true)
          (expire (two_threads running calling (lock (codes "nvd") free)) (codes "nvd") refl))
        (acquire (release (codes "nvd") (lock (codes "nvd") free)) (thread running ∷ []) []
          (thread calling) refl refl))
      (start (lock (codes "nvd") (release (codes "nvd") (lock (codes "nvd") free)))
        (thread running ∷ []) [] (thread holding) 5 nvd_worker refl nvd_decision)
