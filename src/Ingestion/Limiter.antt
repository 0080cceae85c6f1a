-- ===== src/Ingestion/Limiter.antt =====
-- backend/app/ingestion/http.py: `RateLimiter`. Times are milliseconds; a call reads the clock under
-- the lock, so calls are modelled one after another, each with the clock that it read.
pub mod Spacing
use asber.Base.{Dict, insert, lookup, Option, Text, none, some, ℕ, ◌+◌, ◌-◌}

pub record RateLimiter : Type 0 where
  pub intervals : Dict ℕ
  pub last : Dict ℕ

unfoldable pub set_interval : RateLimiter → Text → ℕ → RateLimiter
set_interval limiter host milliseconds = record limiter {
  intervals = insert host milliseconds limiter.intervals;
}

-- `self._intervals.get(host, 1.0)`
abbrev pub or_second : Option ℕ → ℕ
or_second none = 1000
or_second (some n) = n

abbrev pub interval_of : RateLimiter → Text → ℕ
interval_of limiter host = or_second (lookup host limiter.intervals)

-- `max(0.0, last + interval - now)`, which the subtraction on ℕ cuts off at 0 by itself
abbrev pub delay_after : Option ℕ → ℕ → ℕ → ℕ
delay_after none interval now = 0
delay_after (some last) interval now = last + interval - now

-- The delay that the caller sleeps, and the limiter after the call.
unfoldable pub wait : RateLimiter → Text → ℕ → ℕ × RateLimiter
wait limiter host now =
    let delay = delay_after (lookup host limiter.last) (interval_of limiter host) now in
    (delay, record limiter { last = insert host (now + delay) limiter.last })
