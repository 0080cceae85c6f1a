-- ===== src/Ingestion/Limiter/Spacing.antt =====
-- How far apart the limiter lets the requests to one host be.
use mathlib.Core.Path.{subst}
use asber.Base.{
  All, List, Option, Text, [], if◌then◌else◌, lookup, none, some, text_eq, ℕ, ◌+◌, ◌∷◌, ◌≡◌, ◌≤◌,
  All-map, arith, false, Bool-cases, inl, inr, lookup-insert, text_eq_iff, text_eq_self, sym,
}
use asber.Ingestion.Limiter.{RateLimiter, wait, interval_of, delay_after}

-- The times at which the calls for `host` return, out of calls for any hosts.
abbrev pub releases : Text → RateLimiter → List (Text × ℕ) → List ℕ
releases host limiter [] = []
releases host limiter ((h, now) ∷ calls) =
    let rest = releases host (wait limiter h now).1 calls in
    if text_eq h host then (now + (wait limiter h now).0) ∷ rest else rest

-- Each time is at least `gap` after every time before it.
abbrev pub IsSpaced : ℕ → List ℕ → Type 0
IsSpaced gap [] = Unit {0}
IsSpaced gap (t ∷ ts) = All (λ u. t + gap ≤ u) ts × IsSpaced gap ts

abbrev IsAfter : Option ℕ → ℕ → List ℕ → Type 0
IsAfter none gap ts = Unit {0}
IsAfter (some t) gap ts = All (λ u. t + gap ≤ u) ts

abbrev IsSpacedAfter : Option ℕ → ℕ → List ℕ → Type 0
IsSpacedAfter last gap ts = IsAfter last gap ts × IsSpaced gap ts

-- The host's release after the one at `last`, before the later ones.
next_release :
    (gap now : ℕ) (last : Option ℕ) (rest : List ℕ)
    → IsSpacedAfter (some (now + delay_after last gap now)) gap rest
    → IsSpacedAfter last gap ((now + delay_after last gap now) ∷ rest)
next_release gap now none rest h = (tt, h)
next_release gap now (some t) rest h =
    ((omega arith, All-map rest (λ u p. omega (arith, p)) h.0), h)

no_release : (gap : ℕ) (last : Option ℕ) → IsSpacedAfter last gap []
no_release gap none = (tt, tt)
no_release gap (some t) = (tt, tt)

module _ (host : Text) (limiter : RateLimiter) (now : ℕ) (ts : List ℕ) where
  wait_host :
      IsSpacedAfter (lookup host (wait limiter host now).1.last) (interval_of limiter host) ts
      → IsSpacedAfter
          (lookup host limiter.last)
          (interval_of limiter host)
          ((now + (wait limiter host now).0) ∷ ts)
  unfolding wait
  wait_host later =
      next_release (interval_of limiter host) now (lookup host limiter.last) ts (go later)
    where
      go :
          IsSpacedAfter (lookup host (wait limiter host now).1.last) (interval_of limiter host) ts
          → IsSpacedAfter (some (now + (wait limiter host now).0)) (interval_of limiter host) ts
      go later =
          rw
            (
              lookup-insert host host (now + (wait limiter host now).0) limiter.last,
              text_eq_self host,
            )
            at later

  wait_same :
      (h : Text)
      → h ≡ host
      → IsSpacedAfter (lookup host (wait limiter h now).1.last) (interval_of limiter host) ts
      → IsSpacedAfter
          (lookup host limiter.last)
          (interval_of limiter host)
          ((now + (wait limiter h now).0) ∷ ts)
  wait_same h q =
      subst
        (λ x.
          IsSpacedAfter (lookup host (wait limiter x now).1.last) (interval_of limiter host) ts
          → IsSpacedAfter (lookup host limiter.last) (interval_of limiter host)
              ((now + (wait limiter x now).0) ∷ ts))
        (sym q) wait_host

  wait_other :
      (h : Text)
      → text_eq h host ≡ false
      → IsSpacedAfter (lookup host (wait limiter h now).1.last) (interval_of limiter host) ts
      → IsSpacedAfter (lookup host limiter.last) (interval_of limiter host) ts
  unfolding wait
  wait_other h e later =
      rw (lookup-insert h host (now + (wait limiter h now).0) limiter.last, e) at later

spaced :
    (host : Text) (limiter : RateLimiter) (calls : List (Text × ℕ))
    → IsSpacedAfter
        (lookup host limiter.last)
        (interval_of limiter host)
        (releases host limiter calls)
unfolding wait
spaced host limiter [] = no_release (interval_of limiter host) (lookup host limiter.last)
spaced host limiter ((h, now) ∷ calls) =
    let rest = releases host (wait limiter h now).1 calls in
    let later : IsSpacedAfter (lookup host (wait limiter h now).1.last) (interval_of limiter host)
        rest =
      spaced host (wait limiter h now).1 calls in
    elim (Bool-cases (text_eq h host)) [
      | inl e ↦
          let q : h ≡ host = (text_eq_iff h host).0 e in
          rw e (wait_same host limiter now rest h q later)
      | inr e ↦ rw e (wait_other host limiter now rest h e later)
    ]

-- Whatever the clock reads at each call, any two requests that the limiter releases to one host
-- are at least the host's interval apart, in any mix of calls for any hosts.
pub requests_keep_apart :
    (limiter : RateLimiter) (host : Text) (calls : List (Text × ℕ))
    → IsSpaced (interval_of limiter host) (releases host limiter calls)
requests_keep_apart limiter host calls = (spaced host limiter calls).1
