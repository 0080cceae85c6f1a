-- ===== src/RateLimit.antt =====
-- backend/app/ratelimit.py: `client_ip` and `allow`. Redis, the clock and the address parser are
-- arguments. Times are milliseconds.
pub mod Window
pub mod Proxies
mod Examples
use asber.Base.{
  Bool, List, Option, Text, [], codes, false, filter, if◌then◌else◌, is_empty, leb, length, ltb,
  map, none, not, reverse, some, split_on, strip, true, ℕ, ◌++◌, ◌-◌, ◌==◌, ◌∷◌,
}

-- `while hits and now - hits[0] > 60: hits.popleft()`
unfoldable pub drop_old : ℕ → List ℕ → List ℕ
drop_old now [] = []
drop_old now (t ∷ hits) =
    let rest = drop_old now hits in if ltb 60000 (now - t) then rest else t ∷ hits

-- The in-process branch of `allow`, on the deque of one key.
unfoldable pub allow_local : ℕ → ℕ → List ℕ → Bool × List ℕ
unfolding drop_old
allow_local now limit hits =
    let hits' = drop_old now hits in
    if leb limit (length hits') then (false, hits') else (true, hits' ++ now ∷ [])

-- What Redis answers to `incr` of this minute's bucket: the new count, or an error.
pub data Counter : Type 0 where
  counted : ℕ → Counter
  unavailable : Counter

-- `allow`: Redis where there is a client and it answers, else the deque.
unfoldable pub allow : Option Counter → ℕ → ℕ → List ℕ → Bool × List ℕ
unfolding allow_local
allow (some (counted n)) now limit hits = (leb n limit, hits)
allow (some unavailable) now limit hits = allow_local now limit hits
allow none now limit hits = allow_local now limit hits

-- `[p.strip() for p in forwarded.split(",") if p.strip()]`
unfoldable pub hops : Text → List Text
unfolding split_on strip
hops forwarded = filter (λ p. not (is_empty p)) (map strip (split_on (λ c. c == b',') forwarded))

-- `_trusted(addr, nets)` is the argument `trusted`; the header is walked from right to left.
unfoldable pub first_untrusted : (Text → Bool) → Text → List Text → Text
first_untrusted trusted peer [] = peer
first_untrusted trusted peer (p ∷ ps) =
    let rest = first_untrusted trusted peer ps in if trusted p then rest else p

-- The peer's address, if the request has one.
abbrev pub peer_of : Option Text → Text
peer_of none = codes "unknown"
peer_of (some host) = host

-- `client_ip` behind `nets`: no networks at all are a `trusted` that is never true.
unfoldable pub client_ip : (Text → Bool) → Option Text → Text → Text
unfolding hops first_untrusted
client_ip trusted client forwarded =
    if trusted (peer_of client)
    then first_untrusted trusted (peer_of client) (reverse (hops forwarded))
    else peer_of client
