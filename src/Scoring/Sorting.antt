-- ===== src/Scoring/Sorting.antt =====
-- The returned reasons are the collected ones, by falling points, and none is empty.
use mathlib.Core.List.{Perm}
use mathlib.Core.List.Perm
use asber.Base.{
  All, All-append, All-map, Bool, Bool-cases, List, Option, Text, [], arith, false, inl, inr, leb,
  leb→le, ltb, none, some, true, ℕ, ◌<◌, ◌∷◌, ◌≤◌, if◌then◌else◌, ◌++◌,
}
use asber.Models.{Reason}
use asber.Scoring.{
  ScoreInput, compute_relevance, add, add_if, collect, exploitation_reasons, impact_reasons,
  insert_reason, recency_reasons, sort_reasons, cvss_reasons, product_reasons, source_reasons,
}

abbrev pub Descending : List Reason → Type 0
Descending [] = Unit {0}
Descending (r ∷ rs) = All (λ x. x.points ≤ r.points) rs × Descending rs

abbrev pub HasPoints : Reason → Type 0
HasPoints r = 0 < r.points

insert-All :
    (P : Reason → Type 0) (r : Reason) (rs : List Reason)
    → P r
    → All P rs
    → All P (insert_reason r rs)
unfolding insert_reason
insert-All P r [] p h = (p, tt)
insert-All P r (x ∷ xs) p h = elim (Bool-cases (leb x.points r.points)) [
  | inl e ↦ rw e (p, h)
  | inr e ↦ rw e (h.0, insert-All P r xs p h.1)
]

insert-Descending :
    (r : Reason) (rs : List Reason) → Descending rs → Descending (insert_reason r rs)
unfolding insert_reason
insert-Descending r [] h = (tt, tt)
insert-Descending r (x ∷ xs) h = elim (Bool-cases (leb x.points r.points)) [
  | inl e ↦ rw e (
    (leb→le x.points r.points e, All-map xs (λ y q. omega (arith, leb→le x.points r.points e)) h.0),
    h,
  )
  | inr e ↦
      rw e
        (insert-All (λ y. y.points ≤ x.points) r xs (ground arith) h.0, insert-Descending r xs h.1)
]

insert-perm : (r : Reason) (rs : List Reason) → Perm (insert_reason r rs) (r ∷ rs)
unfolding insert_reason
insert-perm r [] = Perm.refl (r ∷ [])
insert-perm r (x ∷ xs) = elim (Bool-cases (leb x.points r.points)) [
  | inl e ↦ rw e (Perm.refl (r ∷ x ∷ xs))
  | inr e ↦ rw e (Perm.trans (Perm.cons x (insert-perm r xs)) (Perm.swap r x xs))
]

sort-perm : (rs : List Reason) → Perm (sort_reasons rs) rs
unfolding sort_reasons
sort-perm [] = Perm.refl []
sort-perm (r ∷ rs) = Perm.trans (insert-perm r (sort_reasons rs)) (Perm.cons r (sort-perm rs))

sort-Descending : (rs : List Reason) → Descending (sort_reasons rs)
unfolding sort_reasons
sort-Descending [] = tt
sort-Descending (r ∷ rs) = insert-Descending r (sort_reasons rs) (sort-Descending rs)

sort-All : (P : Reason → Type 0) (rs : List Reason) → All P rs → All P (sort_reasons rs)
unfolding sort_reasons
sort-All P [] h = tt
sort-All P (r ∷ rs) h = insert-All P r (sort_reasons rs) h.0 (sort-All P rs h.1)

add-HasPoints : (factor detail : Text) (n : ℕ) → All HasPoints (add factor n detail)
unfolding add
add-HasPoints factor detail n = elim (Bool-cases (ltb 0 n)) [
  | inl e ↦ rw e (ground arith, tt)
  | inr e ↦ rw e tt
]

add_if-HasPoints :
    (b : Bool) (factor detail : Text) (n : ℕ) → All HasPoints (add_if b factor n detail)
add_if-HasPoints true factor detail n = add-HasPoints factor detail n
add_if-HasPoints false factor detail n = tt

if-HasPoints :
    (b : Bool) (xs ys : List Reason)
    → All HasPoints xs
    → All HasPoints ys
    → All HasPoints (if b then xs else ys)
if-HasPoints true xs ys h k = h
if-HasPoints false xs ys h k = k

append-HasPoints :
    (xs ys : List Reason) → All HasPoints xs → All HasPoints ys → All HasPoints (xs ++ ys)
append-HasPoints = All-append HasPoints

none-HasPoints : All HasPoints []
none-HasPoints = tt

ruleset positive = (append-HasPoints, add_if-HasPoints, add-HasPoints, if-HasPoints, none-HasPoints)

exploitation-HasPoints : (inp : ScoreInput) → All HasPoints (exploitation_reasons inp)
unfolding exploitation_reasons
exploitation-HasPoints inp = search positive depth 12

impact-HasPoints : (inp : ScoreInput) → All HasPoints (impact_reasons inp)
unfolding impact_reasons
impact-HasPoints inp = search positive depth 12

cvss-HasPoints : (o : Option ℕ) → All HasPoints (cvss_reasons o)
unfolding cvss_reasons
cvss-HasPoints none = tt
cvss-HasPoints (some t) = search positive

source-HasPoints : (n : ℕ) → All HasPoints (source_reasons n)
unfolding source_reasons
source-HasPoints n = search positive

recency-HasPoints : (now : ℕ) (o : Option ℕ) → All HasPoints (recency_reasons now o)
unfolding recency_reasons
recency-HasPoints now none = tt
recency-HasPoints now (some signal) = search positive

product-HasPoints : (n : ℕ) → All HasPoints (product_reasons n)
unfolding product_reasons
product-HasPoints n = search positive

collect-HasPoints : (inp : ScoreInput) (now : ℕ) → All HasPoints (collect inp now)
unfolding collect
collect-HasPoints inp now =
    search
      (
        append-HasPoints, exploitation-HasPoints, impact-HasPoints, cvss-HasPoints,
        source-HasPoints, recency-HasPoints, product-HasPoints,
      )
      depth 12

-- The returned reasons are the collected ones in another order: their points do not rise from one
-- to the next, and each has more than zero points.
pub reasons_are_sorted :
    (inp : ScoreInput) (now : ℕ)
    → Perm (compute_relevance inp now).reasons (collect inp now)
      × Descending (compute_relevance inp now).reasons
      × All HasPoints (compute_relevance inp now).reasons
unfolding compute_relevance
reasons_are_sorted inp now =
    let rs = collect inp now in
    (sort-perm rs, sort-Descending rs, sort-All HasPoints rs (collect-HasPoints inp now))
