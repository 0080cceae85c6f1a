-- ===== src/Ingestion/Backoff.antt =====
-- backend/app/ingestion/base.py: `backoff_seconds` and `due_for_run`. Times are seconds.
pub mod Bounds
use asber.Base.{
  Bool, Option, Text, if◌then◌else◌, leb, min, none, some, true, ℕ, ◌*◌, ◌+◌, ◌==◌, ◌^◌,
}

-- The fields of `sources` that the framework reads and writes; `S` is the type of the cursors.
pub record Source (S : Type 0) : Type 0 where
  pub interval_seconds : ℕ
  pub state : S
  pub last_attempt : Option ℕ
  pub last_status : Option Text
  pub last_error : Option Text
  pub consecutive_failures : Option ℕ
  pub last_successful_fetch : Option ℕ
  pub items_fetched : ℕ
  pub items_new : ℕ
  pub items_updated : ℕ

abbrev pub backoff_cap_seconds : ℕ
backoff_cap_seconds = 6 * 3600

abbrev pub backoff_max_doublings : ℕ
backoff_max_doublings = 6

-- `source.consecutive_failures or 0`
abbrev pub or_zero : Option ℕ → ℕ
or_zero none = 0
or_zero (some n) = n

-- `(now or utcnow()) >= last + timedelta(seconds=delay)`, true where `last` is None
abbrev pub waited : Option ℕ → ℕ → ℕ → Bool
waited none delay now = true
waited (some last) delay now = leb (last + delay) now

module _ {S : Type 0} where
  unfoldable pub backoff_seconds : Source S → ℕ
  backoff_seconds source =
      let failures = or_zero source.consecutive_failures in
      if failures == 0
      then 0
      else min (source.interval_seconds * 2 ^ min failures backoff_max_doublings)
          backoff_cap_seconds

  unfoldable pub due_for_run : Source S → ℕ → Bool
  unfolding backoff_seconds
  due_for_run source now =
      if backoff_seconds source == 0
      then true
      else waited source.last_attempt (backoff_seconds source) now
