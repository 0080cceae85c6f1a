-- ===== src/Correlation/Upserts.antt =====
-- Adding what is missing, in any order and any number of times.
use asber.Base.{
  All, Bool, Bool-cases, List, [], any, any-append, arith, inl, inr, refl, true, ◌∷◌, ◌≡◌, ◌++◌,
}
use asber.Correlation.Links.{add_missing, add_all_missing}

module _ {A : Type 0} (finds : A → A → Bool) where
  add_missing-keeps :
      (x new : A) (rows : List A)
      → any (finds x) rows ≡ true
      → any (finds x) (add_missing finds new rows).1 ≡ true
  add_missing-keeps x new rows h = elim (Bool-cases (any (finds new) rows)) [
    | inl e ↦ rw (e, h)
    | inr e ↦ rw (e, any-append (finds x) rows (new ∷ []), h)
  ]

  any-last :
      (p : A → Bool) (rows : List A) (new : A) → p new ≡ true → any p (rows ++ new ∷ []) ≡ true
  any-last p [] new h = ground arith
  any-last p (x ∷ rows) new h = ground (arith, any-last p rows new h)

  add_missing-has :
      (new : A) (rows : List A)
      → finds new new ≡ true
      → any (finds new) (add_missing finds new rows).1 ≡ true
  add_missing-has new rows h = elim (Bool-cases (any (finds new) rows)) [
    | inl e ↦ rw (e, e)
    | inr e ↦ rw e (any-last (finds new) rows new h)
  ]

  missing_kept :
      (x : A) (more rows : List A)
      → any (finds x) rows ≡ true
      → any (finds x) (add_all_missing finds more rows) ≡ true
  missing_kept x [] rows h = h
  missing_kept x (new ∷ more) rows h =
      missing_kept x more (add_missing finds new rows).1 (add_missing-keeps x new rows h)

  missing_added :
      (more rows : List A)
      → All (λ new. finds new new ≡ true) more
      → All (λ new. any (finds new) (add_all_missing finds more rows) ≡ true) more
  missing_added [] rows h = tt
  missing_added (new ∷ more) rows h = (
    missing_kept new more (add_missing finds new rows).1 (add_missing-has new rows h.0),
    missing_added more (add_missing finds new rows).1 h.1,
  )

  missing_none :
      (more rows : List A)
      → All (λ new. any (finds new) rows ≡ true) more
      → add_all_missing finds more rows ≡ rows
  missing_none [] rows h = refl
  missing_none (new ∷ more) rows h = rw h.0 (missing_none more rows h.1)

  pub missing_twice :
      (more rows : List A)
      → All (λ new. finds new new ≡ true) more
      → add_all_missing finds more (add_all_missing finds more rows)
        ≡ add_all_missing finds more rows
  missing_twice more rows h =
      missing_none more (add_all_missing finds more rows) (missing_added more rows h)
