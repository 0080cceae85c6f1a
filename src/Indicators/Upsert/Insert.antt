-- ===== src/Indicators/Upsert/Insert.antt =====
-- The new rows at the end of the table, in chunks.
use mathlib.Core.Path.{ap₂}
use mathlib.Core.List.{append-nil, append_assoc}
use asber.Base.{
  All, Bool-cases, List, Text, [], any, ap, arith, false, inl, inr, length, length-append, refl,
  suc, sym, text_eq_self, ℕ, ◌++◌, ◌+◌, ◌<◌, ◌==◌, ◌||◌, ◌∙◌, ◌∷◌, ◌≡◌, ◌≤◌,
}
use asber.Indicators.Upsert.{
  Indicator, Indicators, same_key, key_of, Key, is_row_of, new_row, number_rows, insert_rows,
}
use asber.Indicators.Upsert.Table.{
  is_same_row, or_observed, is_same_row_comm, first_of, observed, KeysDistinct,
}
use asber.Indicators.Feed.{Observation}
use asber.Indicators.Upsert.Loop.{NewDistinct}

-- Identities are below the next one, and the primary key and the unique constraint hold.
abbrev pub IsTable : Indicators → Type 0
IsTable t = KeysDistinct t.indicators × All (λ i. i.id < t.next_id) t.indicators

module _ (source : Text) (tier now : ℕ) where
  number_rows-append :
      (id : ℕ) (os ps : List Observation)
      → number_rows source tier now id (os ++ ps)
        ≡ number_rows source tier now id os ++ number_rows source tier now (id + length os) ps
  number_rows-append id [] ps =
      ap (λ n. number_rows source tier now n ps) (let e : id ≡ id + 0 = omega arith in e)
  number_rows-append id (o ∷ os) ps =
      let e : id + 1 + length os ≡ id + suc (length os) = omega arith in
      ap (λ l. new_row source tier now id o ∷ l)
        (number_rows-append (id + 1) os ps
          ∙ ap (λ n. number_rows source tier now (id + 1) os ++ number_rows source tier now n ps) e)

  pub insert_rows-append :
      (os ps : List Observation) (t : Indicators)
      → insert_rows source tier now ps (insert_rows source tier now os t)
        ≡ insert_rows source tier now (os ++ ps) t
  unfolding insert_rows
  insert_rows-append os ps t =
      ap₂ (λ l n. record { indicators = l; next_id = n })
        (append_assoc t.indicators _ _
          ∙ ap (λ l. t.indicators ++ l) (sym (number_rows-append t.next_id os ps)))
        (let e = length-append os ps in omega (arith, e))

  pub insert_rows_none : (t : Indicators) → insert_rows source tier now [] t ≡ t
  unfolding insert_rows
  insert_rows_none t =
      ap₂ (λ l n. record { indicators = l; next_id = n }) (append-nil t.indicators) (omega arith)

  pub observed-append :
      (key : Key) (rows : List Indicator) (id : ℕ) (os : List Observation)
      → observed source key (rows ++ number_rows source tier now id os)
        ≡ or_observed (observed source key rows) (first_of key os)
  observed-append key [] id [] = refl
  observed-append key [] id (o ∷ os) =
      let own = text_eq_self source in
      elim (Bool-cases (same_key (key_of o) key)) [
        | inl e ↦ rw (own, e) refl
        | inr e ↦ rw (own, e) (observed-append key [] (id + 1) os)
      ]
  observed-append key (i ∷ rows) id os = elim (Bool-cases (is_row_of source key i)) [
    | inl m ↦ rw m refl
    | inr m ↦ rw m (observed-append key rows id os)
  ]

  ids-append :
      (n : ℕ) (rows : List Indicator) (id : ℕ) (os : List Observation)
      → All (λ i. i.id < n) rows
      → id + length os ≤ n
      → All (λ i. i.id < n) (rows ++ number_rows source tier now id os)
  ids-append n [] id [] h k = tt
  ids-append n [] id (o ∷ os) h k = (omega arith, ids-append n [] (id + 1) os tt (omega arith))
  ids-append n (i ∷ rows) id os h k = (h.0, ids-append n rows id os h.1 k)

  -- No new row is the same as one of the table.
  apart :
      (i : Indicator) (rows : List Indicator) (id : ℕ) (os : List Observation)
      → i.id < id
      → any (λ j. j.id == i.id || is_same_row i j) rows ≡ false
      → All (λ o. is_row_of source (key_of o) i ≡ false) os
      → any (λ j. j.id == i.id || is_same_row i j) (rows ++ number_rows source tier now id os)
        ≡ false
  apart i [] id [] l d h = refl
  apart i [] id (o ∷ os) l d h =
      let n : (id == i.id) ≡ false = ground arith in
      let c = is_same_row_comm i (new_row source tier now id o) in
      rw (n, c, h.0) (apart i [] (id + 1) os (omega arith) d h.1)
  apart i (j ∷ rows) id os l d h = ground (arith, apart i rows id os)

  new_apart :
      (id : ℕ) (o : Observation) (os : List Observation)
      → any (λ p. same_key (key_of o) (key_of p)) os ≡ false
      → All (λ p. is_row_of source (key_of p) (new_row source tier now id o) ≡ false) os
  new_apart id o [] h = tt
  new_apart id o (p ∷ os) h =
      let e : same_key (key_of o) (key_of p) ≡ false = ground arith in
      (rw (text_eq_self source, e) refl, new_apart id o os (ground arith))

  head_apart :
      (i : Indicator) (rows : List Indicator) (os : List Observation)
      → All (λ o. any (is_row_of source (key_of o)) (i ∷ rows) ≡ false) os
      → All (λ o. is_row_of source (key_of o) i ≡ false) os
        × All (λ o. any (is_row_of source (key_of o)) rows ≡ false) os
  head_apart i rows [] h = (tt, tt)
  head_apart i rows (o ∷ os) h =
      let (a, b) = head_apart i rows os h.1 in let t = h.0 in ((ground arith, a), (ground arith, b))

  append-KeysDistinct :
      (rows : List Indicator) (id : ℕ) (os : List Observation)
      → KeysDistinct rows
      → All (λ i. i.id < id) rows
      → All (λ o. any (is_row_of source (key_of o)) rows ≡ false) os
      → NewDistinct os
      → KeysDistinct (rows ++ number_rows source tier now id os)
  append-KeysDistinct [] id [] d l h k = tt
  append-KeysDistinct [] id (o ∷ os) d l h k = (
    apart (new_row source tier now id o) [] (id + 1) os (omega arith) refl (new_apart id o os k.0),
    append-KeysDistinct [] (id + 1) os tt tt (head_apart_none os) k.1,
  )
    where
      head_apart_none :
          (os : List Observation) → All (λ o. any (is_row_of source (key_of o)) [] ≡ false) os
      head_apart_none [] = tt
      head_apart_none (o ∷ os) = (refl, head_apart_none os)
  append-KeysDistinct (i ∷ rows) id os d l h k =
      let (a, b) = head_apart i rows os h in
      (apart i rows id os l.0 d.0 a, append-KeysDistinct rows id os d.1 l.1 b k)

  ids_below :
      (n m : ℕ) (rows : List Indicator)
      → n ≤ m
      → All (λ i. i.id < n) rows
      → All (λ i. i.id < m) rows
  ids_below n m [] l h = tt
  ids_below n m (i ∷ rows) l h = let below = h.0 in (omega arith, ids_below n m rows l h.1)

  pub insert_rows-IsTable :
      (os : List Observation) (t : Indicators)
      → IsTable t
      → All (λ o. any (is_row_of source (key_of o)) t.indicators ≡ false) os
      → NewDistinct os
      → IsTable (insert_rows source tier now os t)
  unfolding insert_rows
  insert_rows-IsTable os t h new k = (
    append-KeysDistinct t.indicators t.next_id os h.0 h.1 new k,
    ids-append (t.next_id + length os) t.indicators t.next_id os
        (ids_below t.next_id (t.next_id + length os) t.indicators (omega arith) h.1) (omega arith),
  )
