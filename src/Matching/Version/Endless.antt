-- ===== src/Matching/Version/Endless.antt =====
-- The components of versions as sequences that go on with zeros for ever.
use asber.Base.{
  ℕ, zero, suc, ◌+◌, ◌≡◌, refl, ap, some, List, [], ◌∷◌, ◌++◌, length, replicate, ltb, ◌==◌,
  if◌then◌else◌, arith,
}
use asber.Matching.Version.{Sign, below, same, above, pad, compare_lists, compare_tokens}

abbrev pub flip : Sign → Sign
flip below = above
flip same = same
flip above = below

-- The comparison of two sequences that go on with zeros for ever.
abbrev pub compare_endless : List ℕ → List ℕ → Sign
compare_endless [] [] = same
compare_endless [] (b ∷ bs) = if b == 0 then compare_endless [] bs else below
compare_endless (a ∷ as') [] = if a == 0 then compare_endless as' [] else above
compare_endless (a ∷ as') (b ∷ bs) =
    let rest = compare_endless as' bs in if ltb a b then below else if a == b then rest else above

compare_zeros : (m : ℕ) → compare_lists (replicate m 0) (replicate m 0) ≡ same
unfolding compare_lists
compare_zeros zero = refl
compare_zeros (suc m) = compare_zeros m

compare-zeros_left :
    (bs : List ℕ) (m n : ℕ)
    → m ≡ length bs + n
    → compare_lists (replicate m 0) (bs ++ replicate n 0) ≡ compare_endless [] bs
unfolding compare_lists
compare-zeros_left [] m n e = (let e' : m ≡ n = omega arith in rw e' (compare_zeros n))
compare-zeros_left (b ∷ bs) zero n e = absurd (omega arith)
compare-zeros_left (b ∷ bs) (suc m) n e = ground (arith, compare-zeros_left bs m n (omega arith))

compare-zeros_right :
    (as' : List ℕ) (m n : ℕ)
    → n ≡ length as' + m
    → compare_lists (as' ++ replicate m 0) (replicate n 0) ≡ compare_endless as' []
unfolding compare_lists
compare-zeros_right [] m n e = (let e' : n ≡ m = omega arith in rw e' (compare_zeros m))
compare-zeros_right (a ∷ as') m zero e = absurd (omega arith)
compare-zeros_right (a ∷ as') m (suc n) e =
    ground (arith, compare-zeros_right as' m n (omega arith))

compare-padded :
    (as' bs : List ℕ) (m n : ℕ)
    → length as' + m ≡ length bs + n
    → compare_lists (as' ++ replicate m 0) (bs ++ replicate n 0) ≡ compare_endless as' bs
unfolding compare_lists
compare-padded [] bs m n e = compare-zeros_left bs m n (omega arith)
compare-padded (a ∷ as') [] m n e = compare-zeros_right (a ∷ as') m n (omega arith)
compare-padded (a ∷ as') (b ∷ bs) m n e = ground (arith, compare-padded as' bs m n (omega arith))

-- The padding that the code does is enough to compare the endless sequences.
pub compare_tokens_lem :
    (as' bs : List ℕ) → compare_tokens (some as') (some bs) ≡ some (compare_endless as' bs)
unfolding pad
compare_tokens_lem as' bs = ap some (compare-padded as' bs _ _ (omega arith))

pub flip_endless : (as' bs : List ℕ) → compare_endless bs as' ≡ flip (compare_endless as' bs)
flip_endless [] [] = refl
flip_endless [] (b ∷ bs) = ground (arith, flip_endless [] bs)
flip_endless (a ∷ as') [] = ground (arith, flip_endless as' [])
flip_endless (a ∷ as') (b ∷ bs) = ground (arith, flip_endless as' bs)

-- `s` is below or the same.
abbrev pub AtMost : Sign → Type 0
AtMost below = Unit {0}
AtMost same = Unit {0}
AtMost above = ⊥

pub AtMost-endless_trans :
    (as' bs cs : List ℕ)
    → AtMost (compare_endless as' bs)
    → AtMost (compare_endless bs cs)
    → AtMost (compare_endless as' cs)
AtMost-endless_trans [] [] cs h k = k
AtMost-endless_trans [] (b ∷ bs) [] h k = tt
AtMost-endless_trans [] (b ∷ bs) (c ∷ cs) h k = ground (arith, AtMost-endless_trans [] bs cs)
AtMost-endless_trans (a ∷ as') [] [] h k = h
AtMost-endless_trans (a ∷ as') [] (c ∷ cs) h k = ground (arith, AtMost-endless_trans as' [] cs)
AtMost-endless_trans (a ∷ as') (b ∷ bs) [] h k = ground (arith, AtMost-endless_trans as' bs [])
AtMost-endless_trans (a ∷ as') (b ∷ bs) (c ∷ cs) h k =
    ground (arith, AtMost-endless_trans as' bs cs)

pub compare_endless_self : (as' : List ℕ) → compare_endless as' as' ≡ same
compare_endless_self [] = refl
compare_endless_self (a ∷ as') = ground (arith, compare_endless_self as')
