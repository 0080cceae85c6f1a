-- ===== src/Indicators/Upsert/Table.antt =====
-- Rows by their keys: what a lookup finds, and what refreshing a row by its identity does to it.
use mathlib.Core.Path.{ap₂, subst}
use mathlib.Core.Option.{some-injective}
use asber.Base.{
  Bool, Bool-cases, List, Option, Option-cases, Text, [], any, ap, arith, false, find,
  if◌then◌else◌, inl, inr, none, refl, some, text_eq, text_eq_iff, text_eq_self, true, ◌==◌, ◌||◌,
  ◌↔◌, ◌∷◌, ◌≡◌, ℕ, ◌&&◌, ◌∙◌, map, sym, text_eq_comm,
}
use asber.Indicators.Upsert.{Key, pk_of, key_of, Indicator, is_row_of, same_key, refresh, refreshed}
use asber.Indicators.Feed.{Observation}

abbrev pub is_same_row : Indicator → Indicator → Bool
is_same_row i j = is_row_of i.source_key (key_of i.observation) j

-- No two rows have the same identity, or the same source, kind and lookup form.
abbrev pub KeysDistinct : List Indicator → Type 0
KeysDistinct [] = Unit {0}
KeysDistinct (i ∷ rows) =
    (any (λ j. j.id == i.id || is_same_row i j) rows ≡ false) × KeysDistinct rows

-- What the table says of an observable, by a source.
abbrev pub observed : Text → Key → List Indicator → Option Observation
observed source key [] = none
observed source key (i ∷ rows) =
    let rest = observed source key rows in
    if is_row_of source key i then some i.observation else rest

abbrev pub or_observed : Option Observation → Option Observation → Option Observation
or_observed (some o) other = some o
or_observed none other = other

-- The first of the observations that has the key.
abbrev pub first_of : Key → List Observation → Option Observation
first_of key os = find (λ o. same_key (key_of o) key) os

pub same_key_iff : (k j : Key) → (same_key k j ≡ true) ↔ (k ≡ j)
same_key_iff (k, v) (j, w) = (
  λ e.
      let p : text_eq k j ≡ true = ground arith in
      let q : text_eq v w ≡ true = ground arith in
      ap₂ (λ a b. (a, b)) ((text_eq_iff k j).0 p) ((text_eq_iff v w).0 q),
  λ e. rw (ap (λ x. x.0) e, ap (λ x. x.1) e, text_eq_self j, text_eq_self w) refl,
)

pub same_key_comm : (k j : Key) → same_key k j ≡ same_key j k
same_key_comm k j = rw (text_eq_comm k.0 j.0, text_eq_comm k.1 j.1) refl

pub is_same_row_comm :
    (i j : Indicator) → is_same_row i j ≡ is_row_of j.source_key (key_of j.observation) i
is_same_row_comm i j =
    rw
      (
        text_eq_comm j.source_key i.source_key,
        text_eq_comm j.observation.kind i.observation.kind,
        text_eq_comm j.observation.value_norm i.observation.value_norm,
      )
      refl

-- A row that has the key stands for the key.
is_row_of-same :
    (source : Text) (key : Key) (i j : Indicator)
    → is_row_of source key j ≡ true
    → is_row_of source key i ≡ is_same_row i j
is_row_of-same source key i j h =
    let p : text_eq j.source_key source ≡ true = ground arith in
    let q : same_key (key_of j.observation) key ≡ true = ground arith in
    ap₂ (λ s k. is_row_of s k i) (sym ((text_eq_iff j.source_key source).0 p))
      (sym ((same_key_iff (key_of j.observation) key).0 q))
    ∙ sym (is_same_row_comm i j)

module _ (source : Text) (key : Key) where
  pub pk_of-none :
      (rows : List Indicator)
      → pk_of source key rows ≡ none
      → any (is_row_of source key) rows ≡ false
  pk_of-none [] e = refl
  pk_of-none (i ∷ rows) e = elim (Option-cases (pk_of source key rows)) [
    | inl q ↦ elim (Bool-cases (is_row_of source key i)) [
      | inl m ↦ (let bad : some i.id ≡ none = rw (q, m) at e in absurd (cc))
      | inr m ↦ rw (m, pk_of-none rows q) refl
    ]
    | inr (pk, q) ↦ (let bad : some pk ≡ none = rw q at e in absurd (cc))
  ]

  pub pk_of-some :
      (rows : List Indicator) (pk : ℕ)
      → pk_of source key rows ≡ some pk
      → any (λ j. j.id == pk && is_row_of source key j) rows ≡ true
  pk_of-some [] pk e = absurd (cc)
  pk_of-some (i ∷ rows) pk e = elim (Option-cases (pk_of source key rows)) [
    | inl q ↦ elim (Bool-cases (is_row_of source key i)) [
      | inl m ↦
          let same : i.id ≡ pk = some-injective _ _ (rw (q, m) at e) in rw (m, same) (ground arith)
      | inr m ↦ (let bad : none ≡ some pk = rw (q, m) at e in absurd (cc))
    ]
    | inr (n, q) ↦
        let same : n ≡ pk = some-injective _ _ (rw q at e) in
        let there = pk_of-some rows pk (q ∙ ap (λ n. some n) same) in rw there (ground arith)
  ]

  -- Another row than the one found has another identity, and another key.
  other_row :
      (rows : List Indicator) (i : Indicator) (pk : ℕ)
      → any (λ j. j.id == i.id || is_same_row i j) rows ≡ false
      → any (λ j. j.id == pk && is_row_of source key j) rows ≡ true
      → ((i.id == pk) ≡ false) × (is_row_of source key i ≡ false)
  other_row [] i pk d h = absurd (cc)
  other_row (j ∷ rows) i pk d h = elim (Bool-cases (j.id == pk && is_row_of source key j)) [
    | inl m ↦
        let same : is_row_of source key i ≡ is_same_row i j =
          is_row_of-same source key i j (ground arith) in
        (ground arith, same ∙ ground arith)
    | inr m ↦ other_row rows i pk (ground arith) (rw m at h)
  ]

  -- The rows that have the key, with the values of the feed.
  abbrev pub refresh_key : ℕ → Observation → List Indicator → List Indicator
  refresh_key now o = map (λ i. if is_row_of source key i then refreshed now o i else i)

  refresh_none :
      (now pk : ℕ) (o : Observation) (rows : List Indicator) (i : Indicator)
      → any (λ j. j.id == i.id || is_same_row i j) rows ≡ false
      → is_row_of source key i ≡ true
      → (refresh now i.id o rows ≡ rows) × (refresh_key now o rows ≡ rows)
  refresh_none now pk o [] i d h = (refl, refl)
  refresh_none now pk o (j ∷ rows) i d h =
      let same : is_row_of source key j ≡ is_same_row j i = is_row_of-same source key j i h in
      let n : (j.id == i.id) ≡ false = ground arith in
      let m : is_row_of source key j ≡ false =
        same ∙ is_same_row_comm j i ∙ (let e : is_same_row i j ≡ false = ground arith in e) in
      let (r, s) = refresh_none now pk o rows i (ground arith) h in (rw (n, r) refl, rw (m, s) refl)

  -- Refreshing by the identity that the key has is refreshing by the key.
  pub refresh-pk_of :
      (now pk : ℕ) (o : Observation) (rows : List Indicator)
      → KeysDistinct rows
      → pk_of source key rows ≡ some pk
      → refresh now pk o rows ≡ refresh_key now o rows
  refresh-pk_of now pk o [] d e = refl
  refresh-pk_of now pk o (i ∷ rows) d e = elim (Option-cases (pk_of source key rows)) [
    | inl q ↦ elim (Bool-cases (is_row_of source key i)) [
      | inl m ↦
          let same : i.id ≡ pk = some-injective _ _ (rw (q, m) at e) in
          let (r, s) = refresh_none now pk o rows i d.0 m in
          let t : (i.id == i.id) ≡ true = ground arith in
          subst (λ n. refresh now n o (i ∷ rows) ≡ refresh_key now o (i ∷ rows)) same
            (rw (t, m, r, s) refl)
      | inr m ↦ (let bad : none ≡ some pk = rw (q, m) at e in absurd (cc))
    ]
    | inr (n, q) ↦
        let same : n ≡ pk = some-injective _ _ (rw q at e) in
        let there = q ∙ ap (λ n. some n) same in
        let (a, b) = other_row rows i pk d.0 (pk_of-some rows pk there) in
        rw (a, b) (ap (λ l. i ∷ l) (refresh-pk_of now pk o rows d.1 there))
  ]
