-- ===== src/Scheduler/Runs/Exclusion.antt =====
-- No two runs of one source at a time.
use asber.Base.{
  Bool, List, Option, Text, [], arith, false, if◌then◌else◌, refl, text_eq, true, ℕ, ◌&&◌, ◌++◌,
  ◌+◌, ◌∷◌, ◌≡◌, ◌≤◌, ap, text_eq_iff,
}
use asber.Ingestion.Backoff.{Source}
use asber.Scheduler.Runs.{
  start, Step, Reach, System, Thread, acquire, skip, Phase, calling, expire, finish_run, finished,
  give_up, here, holding, next, running, spawn, moved_to,
}

abbrev pub is_inside_phase : Phase → Bool
is_inside_phase calling = false
is_inside_phase holding = true
is_inside_phase running = true
is_inside_phase finished = false

abbrev is_running_phase : Phase → Bool
is_running_phase calling = false
is_running_phase holding = false
is_running_phase running = true
is_running_phase finished = false

-- How many threads are past the lock of `k`.
abbrev pub inside_count : Text → List Thread → ℕ
inside_count k [] = 0
inside_count k (t ∷ ts) =
    (if text_eq t.key k && is_inside_phase t.phase then 1 else 0) + inside_count k ts

-- How many threads are in `run_worker` for `k`.
abbrev pub running_count : Text → List Thread → ℕ
running_count k [] = 0
running_count k (t ∷ ts) =
    (if text_eq t.key k && is_running_phase t.phase then 1 else 0) + running_count k ts

inside_count-append :
    (k : Text) (xs ys : List Thread)
    → inside_count k (xs ++ ys) ≡ inside_count k xs + inside_count k ys
inside_count-append k [] ys = omega arith
inside_count-append k (x ∷ xs) ys = omega (arith, inside_count-append k xs ys)

running-le-inside : (k : Text) (ts : List Thread) → running_count k ts ≤ inside_count k ts
running-le-inside k [] = omega arith
running-le-inside k (t ∷ ts) = omega (arith, running-le-inside k ts, one t.phase)
  where
    one :
        (p : Phase)
        → (if text_eq t.key k && is_running_phase p then 1 else 0)
          ≤ (if text_eq t.key k && is_inside_phase p then 1 else 0)
    one calling = ground arith
    one holding = ground arith
    one running = omega arith
    one finished = ground arith

same_held : (held : Text → Bool) (a k : Text) → text_eq a k ≡ true → held a ≡ held k
same_held held a k e = ap held ((text_eq_iff a k).0 e)

-- The lock of a key is held exactly while one thread is past it.
abbrev pub IsGuarded : System → Type 0
IsGuarded s = (k : Text) → inside_count k s.threads ≡ (if s.held k then 1 else 0)

module _ {S : Type 0} (sources : Text → Option (Source S)) where
  Step-IsGuarded : {s u : System} → Step false sources s u → IsGuarded s → IsGuarded u
  Step-IsGuarded (spawn s key force) g k = ground (
    arith,
    inside_count-append k s.threads (record { key = key; force = force; phase = calling } ∷ []),
    g k,
  )
  Step-IsGuarded (acquire held before after t p q) g k = ground (
    arith,
    inside_count-append k before (t ∷ after),
    inside_count-append k before (moved_to t holding ∷ after),
    g k,
    same_held held t.key k,
    ap is_inside_phase p,
  )
  Step-IsGuarded (skip held before after t p q) g k = ground (
    arith,
    inside_count-append k before (t ∷ after),
    inside_count-append k before (moved_to t finished ∷ after),
    g k,
    same_held held t.key k,
    ap is_inside_phase p,
  )
  Step-IsGuarded (start held before after t now w p q) g k = ground (
    arith,
    inside_count-append k before (t ∷ after),
    inside_count-append k before (moved_to t running ∷ after),
    g k,
    same_held held t.key k,
    ap is_inside_phase p,
  )
  Step-IsGuarded (give_up held before after t now p q) g k = ground (
    arith,
    inside_count-append k before (t ∷ after),
    inside_count-append k before (moved_to t finished ∷ after),
    g k,
    same_held held t.key k,
    ap is_inside_phase p,
  )
  Step-IsGuarded (finish_run held before after t p) g k = ground (
    arith,
    inside_count-append k before (t ∷ after),
    inside_count-append k before (moved_to t finished ∷ after),
    g k,
    same_held held t.key k,
    ap is_inside_phase p,
  )
  Step-IsGuarded (expire s key q) g k = ground arith

  pub Reach-IsGuarded : {s u : System} → IsGuarded s → Reach false sources s u → IsGuarded u
  Reach-IsGuarded g here = g
  Reach-IsGuarded g (next r st) = Step-IsGuarded st (Reach-IsGuarded g r)

-- Where locks do not run out while they are held, no source has two runs at a time: whatever
-- threads are started, for whatever sources and in whatever order their steps come, at most one of
-- them is in `run_worker` for any key.
pub runs_never_overlap :
    {S : Type 0} (sources : Text → Option (Source S)) (s : System) (k : Text)
    → Reach false sources (record { held = λ j. false; threads = [] }) s
    → running_count k s.threads ≤ 1
runs_never_overlap sources s k r =
    let g = Reach-IsGuarded sources (λ j. refl) r k in
    ground (arith, running-le-inside k s.threads, g)
