-- ===== src/RateLimit/Window.antt =====
-- The deque of the limiter against the whole history of what was allowed.
use mathlib.Core.Path.{ap₂}
use mathlib.Core.List.{append_assoc}
use asber.Base.{
  All, Bool, Bool-cases, List, [], ap, arith, false, if◌then◌else◌, inl, inr, length, ltb, refl,
  true, ℕ, ◌++◌, ◌+◌, ◌-◌, ◌<◌, ◌∷◌, ◌≡◌, ◌≤◌, All-append, All-map, leb, sym, ◌∙◌,
}
use asber.RateLimit.{drop_old, allow_local}

-- How many of these times are at most 60 seconds before `now`.
abbrev pub count_recent : ℕ → List ℕ → ℕ
count_recent now [] = 0
count_recent now (t ∷ log) = (if ltb 60000 (now - t) then 0 else 1) + count_recent now log

-- The limiter that remembers every call that it allowed: it allows one more exactly when fewer
-- than `limit` of them fall in the last 60 seconds.
abbrev pub allow_spec : ℕ → ℕ → List ℕ → Bool × List ℕ
allow_spec now limit log =
    if ltb (count_recent now log) limit then (true, log ++ now ∷ []) else (false, log)

-- The answers to a sequence of calls of one key at these times.
abbrev pub answers : (ℕ → ℕ → List ℕ → Bool × List ℕ) → ℕ → List ℕ → List ℕ → List Bool
answers step limit hits [] = []
answers step limit hits (now ∷ times) =
    (step now limit hits).0 ∷ answers step limit (step now limit hits).1 times

-- The times do not fall, and begin no earlier than `t`.
abbrev pub IsRising : ℕ → List ℕ → Type 0
IsRising t [] = Unit {0}
IsRising t (u ∷ us) = (t ≤ u) × IsRising u us

IsRising-weaken : (s t : ℕ) (us : List ℕ) → s ≤ t → IsRising t us → IsRising s us
IsRising-weaken s t [] p h = tt
IsRising-weaken s t (u ∷ us) p h = (omega arith, h.1)

-- The times do not fall, and end no later than `t`.
abbrev IsBefore : ℕ → List ℕ → Type 0
IsBefore t us = All (λ u. u ≤ t) us

count-append :
    (now : ℕ) (xs ys : List ℕ)
    → count_recent now (xs ++ ys) ≡ count_recent now xs + count_recent now ys
count-append now [] ys = omega arith
count-append now (x ∷ xs) ys = omega (arith, count-append now xs ys)

count_old : (now : ℕ) (xs : List ℕ) → All (λ t. t + 60000 < now) xs → count_recent now xs ≡ 0
count_old now [] h = refl
count_old now (t ∷ xs) h = ground (arith, count_old now xs h.1)

rising-count :
    (now s : ℕ) (hits : List ℕ)
    → ltb 60000 (now - s) ≡ false
    → IsRising s hits
    → count_recent now hits ≡ length hits
rising-count now s [] e h = refl
rising-count now s (t ∷ hits) e h = ground (arith, rising-count now t hits (ground arith) h.1)

-- What is dropped is old, what stays is recent and rising, and together they are the deque.
drop_old_lem :
    (now s : ℕ) (hits : List ℕ)
    → IsRising s hits
    → (dropped : List ℕ) × (hits ≡ dropped ++ drop_old now hits)
      × All (λ t. t + 60000 < now) dropped
      × IsRising s (drop_old now hits)
      × (count_recent now (drop_old now hits) ≡ length (drop_old now hits))
unfolding drop_old
drop_old_lem now s [] h = ([], refl, tt, tt, refl)
drop_old_lem now s (t ∷ hits) h = elim (Bool-cases (ltb 60000 (now - t))) [
  | inl e ↦
      let (dropped, q, old, rising, n) = drop_old_lem now t hits h.1 in
      rw e (
        t ∷ dropped,
        ap (λ l. t ∷ l) q,
        (ground arith, old),
        IsRising-weaken s t (drop_old now hits) h.0 rising,
        n,
      )
  | inr e ↦ rw e ([], refl, tt, h, ground (arith, rising-count now t hits e h.1))
]

All-drop_old : (P : ℕ → Type 0) (now : ℕ) (hits : List ℕ) → All P hits → All P (drop_old now hits)
unfolding drop_old
All-drop_old P now [] h = tt
All-drop_old P now (t ∷ hits) h = elim (Bool-cases (ltb 60000 (now - t))) [
  | inl e ↦ rw e (All-drop_old P now hits h.1)
  | inr e ↦ rw e h
]

IsRising-append :
    (s now : ℕ) (hits : List ℕ)
    → s ≤ now
    → IsRising s hits
    → IsBefore now hits
    → IsRising s (hits ++ now ∷ [])
IsRising-append s now [] p h k = (p, tt)
IsRising-append s now (t ∷ hits) p h k = (h.0, IsRising-append t now hits k.0 h.1 k.1)

-- The history is what the deque has lost, all of it old, and the deque.
record Agrees (last : ℕ) (hits log : List ℕ) : Type 0 where
  gone : List ℕ
  split : log ≡ gone ++ hits
  old : All (λ t. t + 60000 < last) gone
  rising : IsRising 0 hits
  before : IsBefore last hits

-- After the old entries are dropped at a later time, the deque holds exactly the recent history.
dropped-Agrees :
    (last now : ℕ) (hits log : List ℕ)
    → last ≤ now
    → Agrees last hits log
    → Agrees now (drop_old now hits) log × (count_recent now log ≡ length (drop_old now hits))
dropped-Agrees last now hits log p a =
    let (dropped, q, old, rising, n) = drop_old_lem now 0 hits a.rising in
    let all_old : All (λ t. t + 60000 < now) (a.gone ++ dropped) =
      All-append (λ t. t + 60000 < now) a.gone dropped (All-map a.gone (λ t k. omega arith) a.old)
        old in
    let e : log ≡ (a.gone ++ dropped) ++ drop_old now hits =
      a.split ∙ ap (λ l. a.gone ++ l) q ∙ sym (append_assoc a.gone dropped (drop_old now hits)) in
    (
      record {
        gone = a.gone ++ dropped;
        split = e;
        old = all_old;
        rising = rising;
        before = All-drop_old (λ t. t ≤ now) now hits (All-map hits (λ t k. omega arith) a.before);
      },
      ap (count_recent now) e
          ∙ count-append now (a.gone ++ dropped) (drop_old now hits)
          ∙ rw (count_old now (a.gone ++ dropped) all_old) (omega (arith, n)),
    )

step-Agrees :
    (last now limit : ℕ) (hits log : List ℕ)
    → last ≤ now
    → Agrees last hits log
    → ((allow_local now limit hits).0 ≡ (allow_spec now limit log).0)
      × Agrees now (allow_local now limit hits).1 (allow_spec now limit log).1
unfolding allow_local
step-Agrees last now limit hits log p a =
    let (b, n) = dropped-Agrees last now hits log p a in
    elim (Bool-cases (leb limit (length (drop_old now hits)))) [
      | inl e ↦
          let full : ltb (count_recent now log) limit ≡ false = rw n (ground arith) in
          rw (e, full) (refl, b)
      | inr e ↦
          let room : ltb (count_recent now log) limit ≡ true = rw n (ground arith) in
          rw (e, room)
            (
              refl,
              record {
                gone = b.gone;
                split =
                    ap (λ l. l ++ now ∷ []) b.split
                    ∙ append_assoc b.gone (drop_old now hits) (now ∷ []);
                old = b.old;
                rising = IsRising-append 0 now (drop_old now hits) (omega arith) b.rising b.before;
                before =
                    All-append (λ t. t ≤ now) (drop_old now hits) (now ∷ []) b.before
                      (omega arith, tt);
              },
            )
    ]

answers_agree :
    (last limit : ℕ) (hits log times : List ℕ)
    → IsRising last times
    → Agrees last hits log
    → answers allow_local limit hits times ≡ answers allow_spec limit log times
answers_agree last limit hits log [] r a = refl
answers_agree last limit hits log (now ∷ times) r a =
    let (e, b) = step-Agrees last now limit hits log r.0 a in
    ap₂ (λ x xs. x ∷ xs) e
      (answers_agree now limit (allow_local now limit hits).1 (allow_spec now limit log).1 times r.1
        b)

-- Over any sequence of calls of one key at times that do not fall, the in-process limiter answers
-- as the one that remembers everything: it allows a call exactly when fewer than `limit` of the
-- calls that were allowed are at most 60 seconds old.
pub sliding_window_is_exact :
    (limit : ℕ) (times : List ℕ)
    → IsRising 0 times
    → answers allow_local limit [] times ≡ answers allow_spec limit [] times
sliding_window_is_exact limit times h =
    answers_agree 0 limit [] [] times h
      (record { gone = []; split = refl; old = tt; rising = tt; before = tt })
