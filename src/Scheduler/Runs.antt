-- ===== src/Scheduler/Runs.antt =====
-- backend/app/scheduler.py: `run_source`, by the threads that call it (the interval jobs, the
-- bootstrap and the manual requests), and `source_lock` of coordination.py.
pub mod Exclusion
pub mod Progress
use asber.Base.{
  Bool, List, Option, Text, [], false, if◌then◌else◌, none, not, some, text_eq, true, ℕ, ◌&&◌, ◌++◌,
  ◌∷◌, ◌≡◌, ◌⊎◌,
}
use asber.Ingestion.Backoff.{Source, due_for_run}
use asber.Ingestion.Registry.Workers.{build_worker, Worker}

-- What a call of `run_source` does once it has tried the lock.
pub data Decision : Type 0 where
  in_progress : Decision
  in_backoff : Decision
  no_worker : Decision
  run_it : Worker → Decision

abbrev pub decide_worker : Option Worker → Decision
decide_worker none = no_worker
decide_worker (some w) = run_it w

module _ {S : Type 0} where
  -- `source is not None and not due_for_run(source)`
  abbrev pub is_backed_off : ℕ → Option (Source S) → Bool
  is_backed_off now none = false
  is_backed_off now (some source) = not (due_for_run source now)

  unfoldable pub decide : Bool → Bool → ℕ → Text → Option (Source S) → Decision
  decide acquired force now key source =
      if not acquired
      then in_progress
      else if not force && is_backed_off now source
      then in_backoff
      else decide_worker (build_worker key)

-- Where a thread stands: before the lock, in the `with` block, in `run_worker`, or done.
pub data Phase : Type 0 where
  calling : Phase
  holding : Phase
  running : Phase
  finished : Phase

pub record Thread : Type 0 where
  pub key : Text
  pub force : Bool
  pub phase : Phase

pub record System : Type 0 where
  pub held : Text → Bool
  pub threads : List Thread

abbrev pub lock : Text → (Text → Bool) → Text → Bool
lock key held j = if text_eq key j then true else held j

abbrev pub release : Text → (Text → Bool) → Text → Bool
release key held j = if text_eq key j then false else held j

abbrev pub moved_to : Thread → Phase → Thread
moved_to t phase = record t { phase = phase }

-- One step of one thread, or a new thread. `expires` says whether a lock may run out while it is
-- held, as one in Redis does after its `ttl_seconds`; `sources` are the rows that the check of the
-- backoff reads, at the time of the check.
module _ {S : Type 0} (expires : Bool) (sources : Text → Option (Source S)) where
  pub data Step : System → System → Type 0 where
    spawn :
        (s : System) (key : Text) (force : Bool)
        → Step s (record s {
          threads = s.threads ++ record { key = key; force = force; phase = calling } ∷ [];
        })
    acquire :
        (held : Text → Bool) (before after : List Thread) (t : Thread)
        → t.phase ≡ calling
        → held t.key ≡ false
        → Step
            (record { held = held; threads = before ++ t ∷ after })
            (record { held = lock t.key held; threads = before ++ moved_to t holding ∷ after })
    skip :
        (held : Text → Bool) (before after : List Thread) (t : Thread)
        → t.phase ≡ calling
        → held t.key ≡ true
        → Step
            (record { held = held; threads = before ++ t ∷ after })
            (record { held = held; threads = before ++ moved_to t finished ∷ after })
    start :
        (held : Text → Bool) (before after : List Thread) (t : Thread) (now : ℕ) (w : Worker)
        → t.phase ≡ holding
        → decide true t.force now t.key (sources t.key) ≡ run_it w
        → Step
            (record { held = held; threads = before ++ t ∷ after })
            (record { held = held; threads = before ++ moved_to t running ∷ after })
    give_up :
        (held : Text → Bool) (before after : List Thread) (t : Thread) (now : ℕ)
        → t.phase ≡ holding
        → (decide true t.force now t.key (sources t.key) ≡ in_backoff)
          ⊎ (decide true t.force now t.key (sources t.key) ≡ no_worker)
        → Step
            (record { held = held; threads = before ++ t ∷ after })
            (record { held = release t.key held; threads = before ++ moved_to t finished ∷ after })
    finish_run :
        (held : Text → Bool) (before after : List Thread) (t : Thread)
        → t.phase ≡ running
        → Step
            (record { held = held; threads = before ++ t ∷ after })
            (record { held = release t.key held; threads = before ++ moved_to t finished ∷ after })
    expire :
        (s : System) (key : Text) → expires ≡ true → Step s (record s { held = release key s.held })

  pub data Reach (s : System) : System → Type 0 where
    here : Reach s s
    next : {t u : System} → Reach s t → Step t u → Reach s u
