-- ===== src/Scheduler/Requests.antt =====
-- backend/app/ingestion/coordination.py: `request_run` and `pop_run_requests`. Redis' `sadd`, and the
-- in-process branch, act on a set: the list of its members, none of them twice. Redis' `spop` is a
-- parameter, of which IsSpop says what is documented: it removes a member, any one, and returns it,
-- or returns nothing where there is none.
use asber.Base.{
  List, Text, [], arith, if◌then◌else◌, one_of, refl, text_eq, true, ℕ, ◌++◌, ◌+◌, ◌∷◌, ◌≡◌,
  Bool-cases, inl, inr, text_eq_iff, ◌||◌, ap, text_eq_comm, ◌∙◌, Bool, Option, false, length, none,
  some, suc, zero, ◌≤◌,
}

unfoldable pub request_run : Text → List Text → List Text
request_run key triggers = if one_of key triggers then triggers else triggers ++ key ∷ []

module _ (spop : List Text → Option Text × List Text) where
  -- `while True`: the keys, and the set that the loop leaves.
  abbrev pub pop_all : ℕ → List Text → Option Text × List Text → List Text × List Text
  pop_all fuel keys (none, triggers) = (keys, triggers)
  pop_all zero keys (some item, triggers) = (keys ++ item ∷ [], triggers)
  pop_all (suc fuel) keys (some item, triggers) = pop_all fuel (keys ++ item ∷ []) (spop triggers)

  -- With a Redis client, and without one. A call takes one member, so as many rounds as there are
  -- members are enough.
  unfoldable pub pop_run_requests : Bool → List Text → List Text × List Text
  pop_run_requests true triggers = pop_all (length triggers) [] (spop triggers)
  pop_run_requests false triggers = (triggers, [])

-- Requests one after another.
abbrev pub request_all : List Text → List Text → List Text
request_all [] triggers = triggers
request_all (key ∷ keys) triggers = request_all keys (request_run key triggers)

abbrev pub count_text : Text → List Text → ℕ
count_text k [] = 0
count_text k (t ∷ ts) = (if text_eq t k then 1 else 0) + count_text k ts

count-append :
    (k : Text) (xs ys : List Text) → count_text k (xs ++ ys) ≡ count_text k xs + count_text k ys
count-append k [] ys = omega arith
count-append k (x ∷ xs) ys = omega (arith, count-append k xs ys)

pub one_of-append :
    (k : Text) (xs ys : List Text) → one_of k (xs ++ ys) ≡ (one_of k xs || one_of k ys)
one_of-append k [] ys = refl
one_of-append k (x ∷ xs) ys = ground (arith, one_of-append k xs ys)

-- A list in which `k` stands once if it is a member.
abbrev StandsOnce : Text → List Text → Type 0
StandsOnce k ts = count_text k ts ≡ (if one_of k ts then 1 else 0)

same_member : (k key : Text) (ts : List Text) → text_eq k key ≡ true → one_of k ts ≡ one_of key ts
same_member k key ts e = ap (λ t. one_of t ts) ((text_eq_iff k key).0 e)

request_run-member :
    (k key : Text) (triggers : List Text)
    → one_of k (request_run key triggers) ≡ (one_of k triggers || text_eq k key)
unfolding request_run
request_run-member k key triggers = elim (Bool-cases (one_of key triggers)) [
  | inl e ↦ rw e (ground (arith, same_member k key triggers))
  | inr e ↦ rw (e, one_of-append k triggers (key ∷ [])) (ground arith)
]

request_run-StandsOnce :
    (k key : Text) (triggers : List Text)
    → StandsOnce k triggers
    → StandsOnce k (request_run key triggers)
unfolding request_run
request_run-StandsOnce k key triggers h = elim (Bool-cases (one_of key triggers)) [
  | inl e ↦ rw e h
  | inr e ↦
      rw (e, one_of-append k triggers (key ∷ []), count-append k triggers (key ∷ []))
        (ground (arith, same_member k key triggers, text_eq_comm k key))
]

request_all-StandsOnce :
    (k : Text) (keys triggers : List Text)
    → StandsOnce k triggers
    → StandsOnce k (request_all keys triggers)
      × (one_of k (request_all keys triggers) ≡ (one_of k triggers || one_of k keys))
request_all-StandsOnce k [] triggers h = (h, ground arith)
request_all-StandsOnce k (key ∷ keys) triggers h =
    let ih =
      request_all-StandsOnce k keys (request_run key triggers)
        (request_run-StandsOnce k key triggers h) in
    (ih.0, ih.1 ∙ rw (request_run-member k key triggers) (ground arith))

-- `item` and the members of `rest` are the members of `triggers`.
pub record IsTaken (item : Text) (rest triggers : List Text) : Type 0 where
  pub members :
      (k : Text) → (if text_eq item k then 1 else 0) + count_text k rest ≡ count_text k triggers
  pub size : length rest + 1 ≡ length triggers

pub record IsSpop (spop : List Text → Option Text × List Text) : Type 0 where
  pub empty : spop [] ≡ (none, [])
  pub taken :
      (t : Text) (ts : List Text)
      → (item : Text) × (rest : List Text) × (spop (t ∷ ts) ≡ (some item, rest))
        × IsTaken item rest (t ∷ ts)

module _ (spop : List Text → Option Text × List Text) (redis : IsSpop spop) (k : Text) where
  -- The loop takes every member, whichever comes first.
  count-pop_all :
      (fuel : ℕ) (keys triggers : List Text)
      → length triggers ≤ fuel
      → (count_text k (pop_all spop fuel keys (spop triggers)).0
          ≡ count_text k keys + count_text k triggers)
        × ((pop_all spop fuel keys (spop triggers)).1 ≡ [])
  count-pop_all fuel keys [] l = rw redis.empty (omega arith, refl)
  count-pop_all zero keys (t ∷ ts) l = absurd (omega arith)
  count-pop_all (suc fuel) keys (t ∷ ts) l =
      let (item, rest, e, taken) = redis.taken t ts in
      let size = taken.size in
      let (counts, none_left) = count-pop_all fuel (keys ++ item ∷ []) rest (omega (arith, size)) in
      let c = count-append k keys (item ∷ []) in
      rw e (omega (arith, counts, c, taken.members k), none_left)

  count-pop_run_requests :
      (with_client : Bool) (triggers : List Text)
      → (count_text k (pop_run_requests spop with_client triggers).0 ≡ count_text k triggers)
        × ((pop_run_requests spop with_client triggers).1 ≡ [])
  unfolding pop_run_requests
  count-pop_run_requests true triggers =
      let (counts, none_left) = count-pop_all (length triggers) [] triggers (omega arith) in
      (omega (arith, counts), none_left)
  count-pop_run_requests false triggers = (refl, refl)

-- The keys that are taken out after any requests are the requested ones, each of them once, and
-- nothing is left for the next time: with Redis, in whatever order `spop` takes them, the loop ends
-- with an empty set, and so it is within one process.
pub requests_are_taken_once :
    (spop : List Text → Option Text × List Text) (with_client : Bool) (keys : List Text) (k : Text)
    → IsSpop spop
    → let popped = pop_run_requests spop with_client (request_all keys []) in
      (count_text k popped.0 ≡ (if one_of k keys then 1 else 0)) × (popped.1 ≡ [])
requests_are_taken_once spop with_client keys k redis =
    let q = request_all-StandsOnce k keys [] refl in
    let (counts, none_left) =
      count-pop_run_requests spop redis k with_client (request_all keys []) in
    (counts ∙ q.0 ∙ ap (λ b. if b then 1 else 0) q.1, none_left)
