-- ===== src/Scheduler/Runs/Progress.antt =====
-- Every call of `run_source` can come to its end.
use mathlib.Core.Path.{subst}
use mathlib.Core.List.{append-nil, append_assoc}
use asber.Base.{
  Bool, List, Option, Text, inl, inr, refl, true, ◌++◌, ◌∷◌, ◌≡◌, All, All-append, Bool-cases, [],
  ap, false, none, not, some, sym, ℕ, ◌&&◌, ◌∙◌, arith,
}
use asber.Scheduler.Runs.{
  Reach, no_worker, in_backoff, Decision, give_up, System, holding, running, run_it, finish_run,
  moved_to, Thread, decide, in_progress, Phase, acquire, calling, decide_worker, finished, here,
  is_backed_off, lock, next, release, skip, start,
}
use asber.Ingestion.Backoff.{Source}
use asber.Ingestion.Registry.Workers.{Worker, build_worker}
use asber.Scheduler.Runs.Exclusion.{Reach-IsGuarded, IsGuarded, inside_count, is_inside_phase}

-- All threads are finished.
abbrev pub IsDone : List Thread → Type 0
IsDone threads = All (λ t. t.phase ≡ finished) threads

is_in_progress : Decision → Bool
is_in_progress in_progress = true
is_in_progress in_backoff = false
is_in_progress no_worker = false
is_in_progress (run_it w) = false

decide_worker-decides : (o : Option Worker) → is_in_progress (decide_worker o) ≡ false
unfolding is_in_progress
decide_worker-decides none = refl
decide_worker-decides (some w) = refl

-- Who has the lock is not told that the source is in progress.
decide-decides :
    {S : Type 0} (force : Bool) (now : ℕ) (key : Text) (source : Option (Source S))
    → is_in_progress (decide true force now key source) ≡ false
unfolding decide is_in_progress
decide-decides force now key source = elim (Bool-cases (not force && is_backed_off now source)) [
  | inl e ↦ rw e refl
  | inr e ↦ rw e (decide_worker-decides (build_worker key))
]

module _ {S : Type 0} (expires : Bool) (sources : Text → Option (Source S)) where
  abbrev Steps : System → System → Type 0
  Steps = Reach expires sources

  Steps-trans : {s t u : System} → Steps s t → Steps t u → Steps s u
  Steps-trans p here = p
  Steps-trans p (next q st) = next (Steps-trans p q) st

  -- One thread is finished, wherever it stood, and the others have not moved.
  abbrev CanFinish : (Text → Bool) → List Thread → Thread → List Thread → Type 0
  CanFinish held before t after =
      (held' : Text → Bool) × (t' : Thread) × (t'.phase ≡ finished)
      × Steps (record { held = held; threads = before ++ t ∷ after })
          (record { held = held'; threads = before ++ t' ∷ after })

  finish_running :
      (held : Text → Bool) (before after : List Thread) (t : Thread)
      → t.phase ≡ running
      → CanFinish held before t after
  finish_running held before after t p =
      (release t.key held, moved_to t finished, refl, next here (finish_run held before after t p))

  finish_holding :
      (held : Text → Bool) (before after : List Thread) (t : Thread)
      → t.phase ≡ holding
      → CanFinish held before t after
  unfolding is_in_progress
  finish_holding held before after t p = go (decide true t.force 0 t.key (sources t.key)) refl
    where
      go :
          (d : Decision)
          → decide true t.force 0 t.key (sources t.key) ≡ d
          → CanFinish held before t after
      go in_progress e =
          let bad : true ≡ false =
            sym (ap is_in_progress e) ∙ decide-decides t.force 0 t.key (sources t.key) in
          absurd (cc)
      go in_backoff e = (
        release t.key held,
        moved_to t finished,
        refl,
        next here (give_up held before after t 0 p (inl e)),
      )
      go no_worker e = (
        release t.key held,
        moved_to t finished,
        refl,
        next here (give_up held before after t 0 p (inr e)),
      )
      go (run_it w) e =
          let (held', t', q, r) = finish_running held before after (moved_to t running) refl in
          (held', t', q, Steps-trans (next here (start held before after t 0 w p e)) r)

  finish_calling :
      (held : Text → Bool) (before after : List Thread) (t : Thread)
      → t.phase ≡ calling
      → CanFinish held before t after
  finish_calling held before after t p = elim (Bool-cases (held t.key)) [
    | inl e ↦ (held, moved_to t finished, refl, next here (skip held before after t p e))
    | inr e ↦
        let (held', t', q, r) =
          finish_holding (lock t.key held) before after (moved_to t holding) refl in
        (held', t', q, Steps-trans (next here (acquire held before after t p e)) r)
  ]

  finish_thread :
      (held : Text → Bool) (before after : List Thread) (t : Thread) (phase : Phase)
      → t.phase ≡ phase
      → CanFinish held before t after
  finish_thread held before after t calling p = finish_calling held before after t p
  finish_thread held before after t holding p = finish_holding held before after t p
  finish_thread held before after t running p = finish_running held before after t p
  finish_thread held before after t finished p = (held, t, p, here)

  finish_rest :
      (held : Text → Bool) (before after : List Thread)
      → IsDone before
      → (held' : Text → Bool) × (threads : List Thread) × IsDone threads
        × Steps
            (record { held = held; threads = before ++ after })
            (record { held = held'; threads = threads })
  finish_rest held before [] d = (
    held,
    before,
    d,
    subst
        (λ l.
          Steps (record { held = held; threads = l }) (record { held = held; threads = before }))
        (sym (append-nil before)) here,
  )
  finish_rest held before (t ∷ after) d =
      let (held', t', q, r) = finish_thread held before after t t.phase refl in
      let (held'', threads, e, rs) =
        finish_rest held' (before ++ t' ∷ []) after
          (All-append (λ t. t.phase ≡ finished) before (t' ∷ []) d (q, tt)) in
      (
        held'',
        threads,
        e,
        Steps-trans r (
            subst
              (λ l.
                Steps (record { held = held'; threads = l })
                  (record { held = held''; threads = threads }))
              (append_assoc before (t' ∷ []) after) rs),
      )

inside_count-IsDone :
    (key : Text) (threads : List Thread) → IsDone threads → inside_count key threads ≡ 0
inside_count-IsDone key [] d = refl
inside_count-IsDone key (t ∷ threads) d =
    ground (arith, inside_count-IsDone key threads d.1, ap is_inside_phase d.0)

-- No deadlock: where locks do not run out while they are held, whatever threads are started and in
-- whatever order their steps come, the threads can go on from there until every one of them is
-- finished, and then the lock of none of their sources is held.
pub runs_can_finish :
    {S : Type 0} (sources : Text → Option (Source S)) (s : System)
    → Reach false sources (record { held = λ j. false; threads = [] }) s
    → (u : System) × Reach false sources s u
      × IsDone u.threads
      × All (λ t. u.held t.key ≡ false) u.threads
runs_can_finish sources s r =
    let (held, threads, d, steps) = finish_rest false sources s.held [] s.threads tt in
    let u : System = record { held = held; threads = threads } in
    let guarded = Reach-IsGuarded sources (λ j. refl) (Steps-trans false sources r steps) in
    (u, steps, d, free u guarded d threads)
  where
    free :
        (u : System)
        → IsGuarded u
        → IsDone u.threads
        → (ts : List Thread) → All (λ t. u.held t.key ≡ false) ts
    free u g d [] = tt
    free u g d (t ∷ ts) =
        (ground (arith, g t.key, inside_count-IsDone t.key u.threads d), free u g d ts)
