-- ===== src/Ingestion/Http/Retries.antt =====
-- Which of the attempts of a GET decides what it returns.
use asber.Base.{
  Bool, List, Option, Text, [], all, arith, false, some, suc, true, zero, ℕ, ◌+◌, ◌<◌, ◌∷◌, ◌≡◌,
  ◌≤◌, ◌⊎◌, Dict, if◌then◌else◌, inl, inr, refl, ◌∙◌,
}
use asber.Ingestion.Http.{
  Answer, HttpCache, Outcome, after_answer, answered, conclude_get, fetch_error, get_loop,
  is_retry_status, network_error, too_large, cached, get, store_validators,
}

abbrev pub is_retried : Answer → Bool
is_retried network_error = true
is_retried too_large = false
is_retried (answered r) = is_retry_status r.status

-- The `n` numbers from `a` on.
abbrev pub count_from : ℕ → ℕ → List ℕ
count_from a zero = []
count_from a (suc n) = a ∷ count_from (a + 1) n

module _ (sha256 : Text → Text) (conditional : Bool) (cache : Option HttpCache) where
  -- What the answer of the attempt that decides amounts to.
  abbrev pub outcome_of : Answer → Outcome
  outcome_of network_error = fetch_error
  outcome_of too_large = fetch_error
  outcome_of (answered r) = conclude_get sha256 conditional cache r

  -- The loop ends at the attempt after `m` that are retried, and returns that attempt's outcome.
  abbrev pub EndsAfter : ℕ → (ℕ → Answer) → Option (ℕ × Outcome) → ℕ → ℕ → Type 0
  EndsAfter max_retries replies result attempt m =
      (result ≡ some (attempt + m + 1, outcome_of (replies (attempt + m + 1))))
      × (attempt + m ≤ max_retries)
      × (all (λ k. is_retried (replies k)) (count_from (attempt + 1) m) ≡ true)
      × ((attempt + m ≡ max_retries) ⊎ (is_retried (replies (attempt + m + 1)) ≡ false))

  round :
      (max_retries attempt : ℕ) (a : Answer) (next : Option (ℕ × Outcome))
      → attempt ≤ max_retries
      → ((after_answer sha256 max_retries conditional cache (attempt + 1) a next
            ≡ some (attempt + 1, outcome_of a))
          × ((attempt ≡ max_retries) ⊎ (is_retried a ≡ false)))
        ⊎ ((after_answer sha256 max_retries conditional cache (attempt + 1) a next ≡ next)
            × (is_retried a ≡ true)
            × (attempt < max_retries))
  round max_retries attempt network_error next h = ground arith
  round max_retries attempt too_large next h = ground arith
  round max_retries attempt (answered r) next h = ground arith

  loop-EndsAfter :
      (max_retries : ℕ) (replies : ℕ → Answer) (fuel attempt : ℕ)
      → attempt ≤ max_retries
      → max_retries < attempt + fuel
      → (m : ℕ) × EndsAfter max_retries replies
          (get_loop sha256 max_retries conditional cache replies fuel attempt)
          attempt
          m
  unfolding get_loop
  loop-EndsAfter max_retries replies zero attempt h k = absurd (omega arith)
  loop-EndsAfter max_retries replies (suc fuel) attempt h k =
      elim (round max_retries attempt (replies (attempt + 1))
        (get_loop sha256 max_retries conditional cache replies fuel (attempt + 1)) h) [
          | inl (e, s) ↦ let z : attempt + 0 ≡ attempt = omega arith in (0, rw z (e, h, refl, s))
          | inr (e, r, less) ↦
              let (m, w) =
                loop-EndsAfter max_retries replies fuel (attempt + 1) (omega arith) (omega arith) in
              let (q, b, al, s) = w in
              let z : attempt + (suc m) ≡ attempt + 1 + m = omega arith in
              (suc m, rw z (e ∙ q, b, rw r al, s))
        ]

  from_start :
      (max_retries : ℕ) (replies : ℕ → Answer) (result : Option (ℕ × Outcome)) (m : ℕ)
      → EndsAfter max_retries replies result 0 m
      → (result ≡ some (m + 1, outcome_of (replies (m + 1))))
        × (m ≤ max_retries)
        × (all (λ k. is_retried (replies k)) (count_from 1 m) ≡ true)
        × ((m ≡ max_retries) ⊎ (is_retried (replies (m + 1)) ≡ false))
  from_start max_retries replies result m w = let z : 0 + m ≡ m = omega arith in rw z at w

-- A GET always returns, after at most `max_retries` retries: it takes the first attempt whose
-- answer is not retried, or the last one allowed, returns that answer's outcome, and saves its
-- validators unless that is deferred.
pub get_ends_after_retries :
    (sha256 : Text → Text) (max_retries : ℕ) (url : Text) (conditional defer_cache : Bool)
    (replies : Option HttpCache → ℕ → Answer) (caches : Dict HttpCache)
    → let cache = cached sha256 conditional url caches in
      (m : ℕ) × (o : Outcome) × (get sha256 max_retries url conditional defer_cache replies caches
        ≡ some (o, if defer_cache then caches else store_validators url o caches))
      × (m ≤ max_retries)
      × (all (λ k. is_retried (replies cache k)) (count_from 1 m) ≡ true)
      × (o ≡ outcome_of sha256 conditional cache (replies cache (m + 1)))
      × ((m ≡ max_retries) ⊎ (is_retried (replies cache (m + 1)) ≡ false))
unfolding get
get_ends_after_retries sha256 max_retries url conditional defer_cache replies caches =
    let cache = cached sha256 conditional url caches in
    let (m, w) =
      loop-EndsAfter sha256 conditional cache max_retries (replies cache) (max_retries + 1) 0
        (omega arith) (omega arith) in
    let (e, b, al, s) =
      from_start sha256 conditional cache max_retries (replies cache)
        (get_loop sha256 max_retries conditional cache (replies cache) (max_retries + 1) 0) m w in
    (m, outcome_of sha256 conditional cache (replies cache (m + 1)), rw e refl, b, al, refl, s)
