-- ===== src/Matching/Version/Order.antt =====
-- `compare_versions` is an order: swapping the sides swaps the sign, and it is transitive.
use mathlib.Core.Path.{subst}
use mathlib.Core.Option.{some-injective}
use asber.Base.{
  ℕ, ◌∙◌, sym, inl, inr, text_eq, text_eq_iff, text_eq_comm, text_eq_self, strip, Bool-cases, ◌⊎◌,
  ◌≡◌, refl, ap, Option, none, some, List, arith, Text, Bool, false, not, true, ◌&&◌,
}
use asber.Matching.Version.{Sign, below, same, above, tokens, compare_tokens, compare_versions}
use asber.Matching.Version.Endless.{
  AtMost, flip, compare_endless, flip_endless, compare_endless_self, AtMost-endless_trans,
  compare_tokens_lem,
}

abbrev pub flip_result : Option Sign → Option Sign
flip_result none = none
flip_result (some s) = some (flip s)

swap_tokens : (ta tb : Option (List ℕ)) → compare_tokens tb ta ≡ flip_result (compare_tokens ta tb)
swap_tokens none none = refl
swap_tokens none (some tb) = refl
swap_tokens (some ta) none = refl
swap_tokens (some ta) (some tb) =
    compare_tokens_lem tb ta
    ∙ ap some (flip_endless ta tb)
    ∙ sym (ap flip_result (compare_tokens_lem ta tb))

-- Versions that read alike have the same components.
tokens_of_strip : (a b : Text) → strip a ≡ strip b → tokens a ≡ tokens b
unfolding tokens
tokens_of_strip a b e = rw e

-- How a comparison was decided.
abbrev Decided : Text → Text → Sign → Type 0
Decided a b s =
    ((strip a ≡ strip b) × (s ≡ same))
    ⊎ ((ta : List ℕ) × (tb : List ℕ) × (tokens a ≡ some ta)
        × (tokens b ≡ some tb)
        × (s ≡ compare_endless ta tb))

compare-Decided : (a b : Text) {s : Sign} → compare_versions a b ≡ some s → Decided a b s
unfolding compare_versions
compare-Decided a b {s} h = elim (Bool-cases (text_eq (strip a) (strip b))) [
  | inl e ↦ inl ((text_eq_iff (strip a) (strip b)).0 e, ground arith)
  | inr n ↦ decided (tokens a) (tokens b) refl refl (rw n at h)
]
  where
    decided :
        (oa ob : Option (List ℕ))
        → tokens a ≡ oa
        → tokens b ≡ ob
        → compare_tokens (tokens a) (tokens b) ≡ some s
        → Decided a b s
    decided none ob ea eb k = cc (rw ea at k)
    decided (some ta) none ea eb k = cc (rw (ea, eb) at k)
    decided (some ta) (some tb) ea eb k =
        inr (ta, tb, ea, eb, cc (rw (ea, eb) at k, compare_tokens_lem ta tb))

compare_of_strip : (a b : Text) → strip a ≡ strip b → compare_versions a b ≡ some same
unfolding compare_versions
compare_of_strip a b e = rw (e, text_eq_self (strip b))

compare_of_tokens :
    (a b : Text) (ta tb : List ℕ)
    → tokens a ≡ some ta
    → tokens b ≡ some tb
    → compare_versions a b ≡ some (compare_endless ta tb)
unfolding compare_versions
compare_of_tokens a b ta tb ea eb = elim (Bool-cases (text_eq (strip a) (strip b))) [
  | inl e ↦
      ground (
        arith,
        compare_endless_self ta,
        tokens_of_strip a b ((text_eq_iff (strip a) (strip b)).0 e),
      )
  | inr n ↦ rw (n, ea, eb) (compare_tokens_lem ta tb)
]

-- Two versions that cannot be ordered one way cannot be ordered the other way, and swapping two
-- versions swaps the sign of their comparison.
pub compare_versions_swap : (a b : Text) → compare_versions b a ≡ flip_result (compare_versions a b)
unfolding compare_versions
compare_versions_swap a b = elim (Bool-cases (text_eq (strip a) (strip b))) [
  | inl e ↦ rw (e, text_eq_comm (strip b) (strip a), e)
  | inr n ↦ rw (text_eq_comm (strip b) (strip a), n) (swap_tokens (tokens a) (tokens b))
]

-- Not above and not above is not above: over any three versions, if the first two and the last two
-- could be compared and neither comparison is above, then the outer two can be compared and the
-- first is not above the last.
pub compare_versions_trans :
    (a b c : Text) {s t : Sign}
    → compare_versions a b ≡ some s
    → compare_versions b c ≡ some t
    → AtMost s
    → AtMost t
    → (u : Sign) × (compare_versions a c ≡ some u) × AtMost u
compare_versions_trans a b c {s} {t} p q hs ht = go (compare-Decided a b p) (compare-Decided b c q)
  where
    go : Decided a b s → Decided b c t → (u : Sign) × (compare_versions a c ≡ some u) × AtMost u
    go (inl (e, x)) (inl (f, y)) = (same, compare_of_strip a c (e ∙ f), tt)
    go (inl (e, x)) (inr (tb, tc, eb, ec, y)) = (
      compare_endless tb tc,
      compare_of_tokens a c tb tc (tokens_of_strip a b e ∙ eb) ec,
      rw y at ht,
    )
    go (inr (ta, tb, ea, eb, x)) (inl (f, y)) = (
      compare_endless ta tb,
      compare_of_tokens a c ta tb ea (sym (tokens_of_strip b c f) ∙ eb),
      rw x at hs,
    )
    go (inr (ta, tb, ea, eb, x)) (inr (tb', tc, eb', ec, y)) = (
      compare_endless ta tc,
      compare_of_tokens a c ta tc ea ec,
      AtMost-endless_trans ta tb tc (rw x at hs) (
          subst (λ l. AtMost (compare_endless l tc)) (some-injective tb' tb (sym eb' ∙ eb))
            (rw y at ht)),
    )

-- The versions could be compared, and the first is not above the second.
abbrev pub is_at_most : Option Sign → Bool
is_at_most none = false
is_at_most (some below) = true
is_at_most (some same) = true
is_at_most (some above) = false

is_at_most-AtMost : (o : Option Sign) → is_at_most o ≡ true → (s : Sign) × (o ≡ some s) × AtMost s
is_at_most-AtMost none h = absurd (cc)
is_at_most-AtMost (some below) h = (below, refl, tt)
is_at_most-AtMost (some same) h = (same, refl, tt)
is_at_most-AtMost (some above) h = absurd (cc)

AtMost-is_at_most : (s : Sign) → AtMost s → is_at_most (some s) ≡ true
AtMost-is_at_most below h = refl
AtMost-is_at_most same h = refl
AtMost-is_at_most above h = absurd h

-- Of any three versions: two that cannot be compared one way cannot be compared the other way, and
-- swapping two swaps the sign of their comparison; and never are the first two compared with the
-- first not above, the last two likewise, and the outer two not.
pub compare_versions_is_order :
    (a b c : Text)
    → (compare_versions b a ≡ flip_result (compare_versions a b))
      × ((is_at_most (compare_versions a b)
            && is_at_most (compare_versions b c)
            && not (is_at_most (compare_versions a c)))
          ≡ false)
compare_versions_is_order a b c = (
  compare_versions_swap a b,
  elim (Bool-cases (is_at_most (compare_versions a b))) [
    | inl e ↦ elim (Bool-cases (is_at_most (compare_versions b c))) [
      | inl f ↦
          let (s, p, hs) = is_at_most-AtMost (compare_versions a b) e in
          let (t, q, ht) = is_at_most-AtMost (compare_versions b c) f in
          let (u, r, hu) = compare_versions_trans a b c p q hs ht in
          let g : is_at_most (compare_versions a c) ≡ true =
            ap is_at_most r ∙ AtMost-is_at_most u hu in
          rw (e, f, g) refl
      | inr f ↦ rw (e, f) refl
    ]
    | inr e ↦ rw e refl
  ],
)
