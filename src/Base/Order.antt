-- ===== src/Base/Order.antt =====
-- The order of texts, and `sorted(set(…))`: strictly sorted, with the same members.
use asber.Base.Tests.{Bool-cases}
use asber.Base.Lists.{All, All-map}
use asber.Base.Strings.{Text, text_eq, text_lt, one_of, insert_text, sorted_set, text_eq_iff}
use mathlib.Core.Path.{◌≡◌, refl, ◌∙◌}
use mathlib.Core.Logic.{inl, inr}
use mathlib.Core.Bool.{true, false, ◌||◌}
use mathlib.Core.List.{List, [], ◌∷◌}
use native.Mathlib.Omega.{arith}

pub text_lt_trans : (a b c : Text) → text_lt a b ≡ true → text_lt b c ≡ true → text_lt a c ≡ true
text_lt_trans a b [] h k = cc
text_lt_trans a [] (z ∷ c) h k = cc
text_lt_trans [] (y ∷ b) (z ∷ c) h k = refl
text_lt_trans (x ∷ a) (y ∷ b) (z ∷ c) h k = ground (arith, text_lt_trans a b c)

pub text_lt_irrefl : (a : Text) → text_lt a a ≡ false
text_lt_irrefl [] = refl
text_lt_irrefl (x ∷ a) = ground (arith, text_lt_irrefl a)

pub text_lt_total : (a b : Text) → text_eq a b ≡ false → text_lt a b ≡ false → text_lt b a ≡ true
text_lt_total [] [] h k = cc
text_lt_total [] (y ∷ b) h k = cc
text_lt_total (x ∷ a) [] h k = refl
text_lt_total (x ∷ a) (y ∷ b) h k = ground (arith, text_lt_total a b)

abbrev pub StrictlySorted : List Text → Type 0
StrictlySorted [] = Unit {0}
StrictlySorted (t ∷ ts) = All (λ u. text_lt t u ≡ true) ts × StrictlySorted ts

pub one_of-insert_text :
    (x y : Text) (ts : List Text) → one_of x (insert_text y ts) ≡ (text_eq x y || one_of x ts)
one_of-insert_text x y [] = refl
one_of-insert_text x y (t ∷ ts) = elim (Bool-cases (text_eq y t)) [
  | inl e ↦ rw (e, (text_eq_iff y t).0 e) (ground arith)
  | inr e ↦ rw e (ground (arith, one_of-insert_text x y ts))
]

-- The set has the members of the list.
pub one_of-sorted_set : (x : Text) (ts : List Text) → one_of x (sorted_set ts) ≡ one_of x ts
unfolding sorted_set
one_of-sorted_set x [] = refl
one_of-sorted_set x (t ∷ ts) = one_of-insert_text x t (sorted_set ts) ∙ rw (one_of-sorted_set x ts)

insert-All :
    (P : Text → Type 0) (y : Text) (ts : List Text) → P y → All P ts → All P (insert_text y ts)
insert-All P y [] p h = (p, tt)
insert-All P y (t ∷ ts) p h = elim (Bool-cases (text_eq y t)) [
  | inl e ↦ rw e h
  | inr e ↦ elim (Bool-cases (text_lt y t)) [
    | inl l ↦ rw (e, l) (p, h)
    | inr l ↦ rw (e, l) (h.0, insert-All P y ts p h.1)
  ]
]

insert-StrictlySorted :
    (y : Text) (ts : List Text) → StrictlySorted ts → StrictlySorted (insert_text y ts)
insert-StrictlySorted y [] h = (tt, tt)
insert-StrictlySorted y (t ∷ ts) h = elim (Bool-cases (text_eq y t)) [
  | inl e ↦ rw e h
  | inr e ↦ elim (Bool-cases (text_lt y t)) [
    | inl l ↦ rw (e, l) ((l, All-map ts (λ u q. text_lt_trans y t u l q) h.0), h)
    | inr l ↦
        rw (e, l)
          (
            insert-All (λ u. text_lt t u ≡ true) y ts (text_lt_total y t e l) h.0,
            insert-StrictlySorted y ts h.1,
          )
  ]
]

pub sorted_set-StrictlySorted : (ts : List Text) → StrictlySorted (sorted_set ts)
unfolding sorted_set
sorted_set-StrictlySorted [] = tt
sorted_set-StrictlySorted (t ∷ ts) =
    insert-StrictlySorted t (sorted_set ts) (sorted_set-StrictlySorted ts)

-- A text below all members is none of them.
pub not_one_of :
    (t : Text) (ts : List Text) → All (λ u. text_lt t u ≡ true) ts → one_of t ts ≡ false
not_one_of t [] h = refl
not_one_of t (u ∷ ts) h = elim (Bool-cases (text_eq t u)) [
  | inl e ↦ cc (h.0, (text_eq_iff t u).0 e, text_lt_irrefl u)
  | inr e ↦ rw e (not_one_of t ts h.1)
]
