-- ===== src/Ingestion/Backoff/Bounds.antt =====
-- How long a failing source waits.
use native.Mathlib.Nat.{mul-le-mul, pow-suc}
use asber.Base.{
  Bool-cases, arith, false, inl, inr, leb, some, suc, true, zero, ℕ, ◌*◌, ◌+◌, ◌<◌, ◌^◌, ◌≡◌, ◌≤◌,
  min,
}
use asber.Ingestion.Backoff.{due_for_run, Source, or_zero, backoff_seconds}

pow_step : (n : ℕ) → 2 ^ n ≤ 2 ^ suc n
pow_step n = rw pow-suc (omega arith)

pow_mono : (a b : ℕ) → a ≤ b → 2 ^ a ≤ 2 ^ b
pow_mono a zero h = let e : a ≡ 0 = omega arith in rw e (omega arith)
pow_mono a (suc b) h = elim (Bool-cases (leb a b)) [
  | inl e ↦ omega (arith, pow_mono a b (ground arith), pow_step b)
  | inr e ↦ let q : a ≡ suc b = ground arith in rw q (omega arith)
]

module _ {S : Type 0} where
  -- A source with more failures and no shorter interval waits at least as long, and no source
  -- waits longer than six hours.
  pub backoff_grows_to_cap :
      (a b : Source S)
      → a.interval_seconds ≤ b.interval_seconds
      → or_zero a.consecutive_failures ≤ or_zero b.consecutive_failures
      → (backoff_seconds a ≤ backoff_seconds b) × (backoff_seconds b ≤ 6 * 3600)
  unfolding backoff_seconds
  backoff_grows_to_cap a b i f =
      let fa = or_zero a.consecutive_failures in
      let fb = or_zero b.consecutive_failures in
      let p = pow_mono (min fa 6) (min fb 6) (omega (arith, f)) in
      let q = mul-le-mul i p in ground (arith, p, q, f)

  -- Six hours after its last attempt, and any time after that, every source is due; one with a
  -- failure and an interval of at least an hour is not due within two hours of it.
  pub due_for_run_window :
      (source : Source S) (last now later : ℕ)
      → source.last_attempt ≡ some last
      → 0 < or_zero source.consecutive_failures
      → 3600 ≤ source.interval_seconds
      → now < last + 2 * 3600
      → last + 6 * 3600 ≤ later
      → (due_for_run source now ≡ false) × (due_for_run source later ≡ true)
  unfolding due_for_run
  due_for_run_window source last now later e f i early late =
      let n = or_zero source.consecutive_failures in
      let p = pow_mono 1 (min n 6) (omega (arith, f)) in
      let q = mul-le-mul i p in
      rw e (ground (arith, q, f, early, late), ground (arith, q, f, early, late))
