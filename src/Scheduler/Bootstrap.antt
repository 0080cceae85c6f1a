-- ===== src/Scheduler/Bootstrap.antt =====
-- backend/app/scheduler.py: `bootstrap`, up to `maintenance`. The enabled sources are the dict
-- `by_key`, in the order of the query.
use asber.Base.{
  Dict, lookup, Bool, List, Option, Text, [], ap, arith, codes, false, filter, ltb, none, not,
  one_of, refl, some, sym, text_eq, text_eq_comm, text_eq_iff, true, ℕ, ◌&&◌, ◌++◌, ◌+◌, ◌∙◌, ◌∷◌,
  ◌≡◌,
}
use asber.Ingestion.Backoff.{Source}
use asber.Scheduler.Requests.{one_of-append}

unfoldable pub bootstrap_order : List Text
bootstrap_order =
    codes "mitre_attack"
    ∷ codes "cisa_kev"
    ∷ codes "unit42"
    ∷ codes "talos"
    ∷ codes "bleepingcomputer"
    ∷ codes "krebs"
    ∷ codes "therecord"
    ∷ codes "exploitdb"
    ∷ codes "nvd"
    ∷ codes "github"
    ∷ []

-- `last and now - last < timedelta(seconds=src.interval_seconds)`
abbrev pub is_fresh : ℕ → Option ℕ → ℕ → Bool
is_fresh now none interval = false
is_fresh now (some last) interval = ltb now (last + interval)

one_of-filter :
    (p : Text → Bool) (k : Text) (ts : List Text) → one_of k (filter p ts) ≡ (one_of k ts && p k)
one_of-filter p k [] = refl
one_of-filter p k (t ∷ ts) = ground (arith, one_of-filter p k ts, same_answer t)
  where
    same_answer : (t : Text) → text_eq k t ≡ true → p t ≡ p k
    same_answer t e = ap p (sym ((text_eq_iff k t).0 e))

module _ {S : Type 0} where
  abbrev pub keys_of : Dict (Source S) → List Text
  keys_of [] = []
  keys_of ((key, source) ∷ by_key) = key ∷ keys_of by_key

  unfoldable pub order : Dict (Source S) → List Text
  order by_key =
      filter (λ k. one_of k (keys_of by_key)) bootstrap_order
      ++ filter (λ k. not (one_of k bootstrap_order)) (keys_of by_key)

  abbrev pub is_stale : ℕ → Option (Source S) → Bool
  is_stale now none = false
  is_stale now (some source) =
      not (is_fresh now source.last_successful_fetch source.interval_seconds)

  -- The keys that `run_source` is called with, in order.
  unfoldable pub bootstrap : ℕ → Dict (Source S) → List Text
  bootstrap now by_key = filter (λ k. is_stale now (lookup k by_key)) (order by_key)

  absent :
      (now : ℕ) (k : Text) (by_key : Dict (Source S))
      → one_of k (keys_of by_key) ≡ false
      → lookup k by_key ≡ none
  absent now k [] h = refl
  absent now k ((j, source) ∷ by_key) h = ground (arith, absent now k by_key, text_eq_comm k j)

  order-one_of :
      (k : Text) (by_key : Dict (Source S)) → one_of k (order by_key) ≡ one_of k (keys_of by_key)
  unfolding order
  order-one_of k by_key =
      rw
        (
          one_of-append k (filter (λ k. one_of k (keys_of by_key)) bootstrap_order)
              (filter (λ k. not (one_of k bootstrap_order)) (keys_of by_key)),
          one_of-filter (λ k. one_of k (keys_of by_key)) k bootstrap_order,
          one_of-filter (λ k. not (one_of k bootstrap_order)) k (keys_of by_key),
        )
        (ground arith)

  -- The bootstrap runs exactly the enabled sources that are not fresh: those with no successful
  -- fetch within their interval.
  pub bootstrap_runs_stale :
      (now : ℕ) (by_key : Dict (Source S)) (k : Text)
      → one_of k (bootstrap now by_key) ≡ is_stale now (lookup k by_key)
  unfolding bootstrap
  bootstrap_runs_stale now by_key k =
      one_of-filter (λ k. is_stale now (lookup k by_key)) k (order by_key)
      ∙ rw (order-one_of k by_key) (ground (arith, absent now k by_key))
