-- ===== src/Ingestion/Http.antt =====
-- backend/app/ingestion/http.py: `HttpClient.get` and `store_validators`. The transport is a
-- parameter: what it replies to the attempts of one call, given the headers of the conditional
-- GET. The digest is a parameter too. `get` begins after `validate_url`, and its pauses
-- (`RateLimiter.wait`, `_backoff`) take no part in what it returns.
pub mod Retries
use asber.Base.{
  Dict, insert, Bool, List, Option, Text, [], any, false, none, some, text_eq, ℕ, ◌==◌, ◌∷◌,
  if◌then◌else◌, leb, lookup, ltb, suc, true, zero, ◌&&◌, ◌+◌,
}

pub record Response : Type 0 where
  pub status : ℕ
  pub content : Text
  pub etag : Option Text
  pub last_modified : Option Text

-- What `_do_get` does: it returns, or raises a network error or a `FetchError` for a body that
-- is too large.
pub data Answer : Type 0 where
  answered : Response → Answer
  network_error : Answer
  too_large : Answer

pub record HttpCache : Type 0 where
  pub etag : Option Text
  pub last_modified : Option Text
  pub content_sha256 : Text

pub record FetchResult : Type 0 where
  pub status : ℕ
  pub content : Text
  pub not_modified : Bool
  pub validators : Option HttpCache

pub data Outcome : Type 0 where
  fetched : FetchResult → Outcome
  fetch_error : Outcome

abbrev pub retry_statuses : List ℕ
retry_statuses = 429 ∷ 500 ∷ 502 ∷ 503 ∷ 504 ∷ []

abbrev pub is_retry_status : ℕ → Bool
is_retry_status status = any (λ s. s == status) retry_statuses

abbrev pub same_digest : Option HttpCache → Text → Bool
same_digest none digest = false
same_digest (some cache) digest = text_eq cache.content_sha256 digest

abbrev pub store : Text → Option HttpCache → Dict HttpCache → Dict HttpCache
store url none caches = caches
store url (some v) caches = insert url v caches

unfoldable pub store_validators : Text → Outcome → Dict HttpCache → Dict HttpCache
store_validators url (fetched result) caches = store url result.validators caches
store_validators url fetch_error caches = caches

module _ (sha256 : Text → Text) where
  -- From `if conditional and session is not None`
  abbrev pub validated : Bool → Option HttpCache → Response → FetchResult
  validated conditional cache r =
      let digest = sha256 r.content in
      record {
        status = r.status;
        content = r.content;
        not_modified = conditional && same_digest cache digest;
        validators =
            if conditional
            then some
                (record { etag = r.etag; last_modified = r.last_modified; content_sha256 = digest })
            else none;
      }

  -- From `if result.status == 304`
  abbrev pub conclude_get : Bool → Option HttpCache → Response → Outcome
  conclude_get conditional cache r =
      if r.status == 304
      then fetched
          (record { status = 304; content = r.content; not_modified = true; validators = none })
      else if leb 400 r.status
      then fetch_error
      else fetched (validated conditional cache r)

  -- One round of the loop, given what the next rounds return.
  abbrev pub after_answer :
      ℕ → Bool → Option HttpCache → ℕ → Answer → Option (ℕ × Outcome) → Option (ℕ × Outcome)
  after_answer max_retries conditional cache attempt network_error next =
      if ltb max_retries attempt then some (attempt, fetch_error) else next
  after_answer max_retries conditional cache attempt too_large next = some (attempt, fetch_error)
  after_answer max_retries conditional cache attempt (answered r) next =
      if is_retry_status r.status && leb attempt max_retries
      then next
      else some (attempt, conclude_get conditional cache r)

  -- `while True` on fuel: how many attempts were made, and what came of them.
  unfoldable pub get_loop :
      ℕ → Bool → Option HttpCache → (ℕ → Answer) → ℕ → ℕ → Option (ℕ × Outcome)
  get_loop max_retries conditional cache replies zero attempt = none
  get_loop max_retries conditional cache replies (suc fuel) attempt =
      after_answer max_retries conditional cache (attempt + 1) (replies (attempt + 1))
        (get_loop max_retries conditional cache replies fuel (attempt + 1))

  abbrev pub save :
      Text → Bool → Dict HttpCache → Option (ℕ × Outcome) → Option (Outcome × Dict HttpCache)
  save url defer_cache caches none = none
  save url defer_cache caches (some (attempts, outcome)) =
      some (outcome, if defer_cache then caches else store_validators url outcome caches)

  abbrev pub cached : Bool → Text → Dict HttpCache → Option HttpCache
  cached conditional url caches = if conditional then lookup url caches else none

  -- The fuel is one more than the retries.
  unfoldable pub get :
      ℕ
      → Text
      → Bool
      → Bool
      → (Option HttpCache → ℕ → Answer)
      → Dict HttpCache
      → Option (Outcome × Dict HttpCache)
  get max_retries url conditional defer_cache replies caches =
      let cache = cached conditional url caches in
      save url defer_cache caches
        (get_loop max_retries conditional cache (replies cache) (max_retries + 1) 0)
