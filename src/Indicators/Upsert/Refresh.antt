-- ===== src/Indicators/Upsert/Refresh.antt =====
-- What refreshing the rows of a key leaves as it was.
use mathlib.Core.Path.{ap₂, subst}
use asber.Base.{
  All, Bool-cases, List, Text, [], any, arith, false, filter, if◌then◌else◌, inl, inr, map, not,
  refl, some, sym, text_eq, true, ℕ, ◌&&◌, ◌<◌, ◌==◌, ◌||◌, ◌∙◌, ◌∷◌, ◌≡◌, Bool, Option, ap, none,
}
use asber.Indicators.Upsert.{
  Key, pk_of, refreshed, same_key, key_of, Indicator, is_row_of, or_id_of,
}
use asber.Indicators.Upsert.Table.{refresh_key, observed, KeysDistinct, same_key_iff, is_same_row}
use asber.Indicators.Feed.{Observation}

module _ (source : Text) (now : ℕ) (o : Observation) where
  abbrev anew : Indicator → Indicator
  anew i = if is_row_of source (key_of o) i then refreshed now o i else i

  anew_id : (i : Indicator) → (anew i).id ≡ i.id
  anew_id i = elim (Bool-cases (is_row_of source (key_of o) i)) [
    | inl m ↦ rw m refl
    | inr m ↦ rw m refl
  ]

  anew_source : (i : Indicator) → (anew i).source_key ≡ i.source_key
  anew_source i = elim (Bool-cases (is_row_of source (key_of o) i)) [
    | inl m ↦ rw m refl
    | inr m ↦ rw m refl
  ]

  anew_key : (i : Indicator) → key_of (anew i).observation ≡ key_of i.observation
  anew_key i = elim (Bool-cases (is_row_of source (key_of o) i)) [
    | inl m ↦
        let k : same_key (key_of i.observation) (key_of o) ≡ true = ground arith in
        rw m (sym ((same_key_iff (key_of i.observation) (key_of o)).0 k))
    | inr m ↦ rw m refl
  ]

  anew_is_row : (s : Text) (k : Key) (i : Indicator) → is_row_of s k (anew i) ≡ is_row_of s k i
  anew_is_row s k i = ap₂ (λ t j. text_eq t s && same_key j k) (anew_source i) (anew_key i)

  anew_same :
      (i : Indicator) (rows : List Indicator)
      → any (λ j. j.id == (anew i).id || is_same_row (anew i) j) (map anew rows)
        ≡ any (λ j. j.id == i.id || is_same_row i j) rows
  anew_same i [] = refl
  anew_same i (j ∷ rows) =
      let e : is_same_row (anew i) (anew j) ≡ is_same_row i j =
        anew_is_row (anew i).source_key (key_of (anew i).observation) j
        ∙ ap₂ (λ t k. is_row_of t k j) (anew_source i) (anew_key i) in
      ap₂ (λ a b. a || b) (ap₂ (λ a b. a || b) (ap₂ (λ a b. a == b) (anew_id j) (anew_id i)) e)
        (anew_same i rows)

  pub refresh_key-KeysDistinct :
      (rows : List Indicator)
      → KeysDistinct rows
      → KeysDistinct (refresh_key source (key_of o) now o rows)
  refresh_key-KeysDistinct [] d = tt
  refresh_key-KeysDistinct (i ∷ rows) d =
      (anew_same i rows ∙ d.0, refresh_key-KeysDistinct rows d.1)

  anew_or_id :
      (i : Indicator) (b : Bool) (rest : Option ℕ) → or_id_of (anew i) b rest ≡ or_id_of i b rest
  anew_or_id i b (some pk) = refl
  anew_or_id i true none = ap (λ id. some id) (anew_id i)
  anew_or_id i false none = refl

  pub pk_of-refresh_key :
      (key : Key) (rows : List Indicator)
      → pk_of source key (refresh_key source (key_of o) now o rows) ≡ pk_of source key rows
  pk_of-refresh_key key [] = refl
  pk_of-refresh_key key (i ∷ rows) =
      ap₂ (or_id_of (anew i)) (anew_is_row source key i) (pk_of-refresh_key key rows)
      ∙ anew_or_id i (is_row_of source key i) (pk_of source key rows)

  pub observed-refresh_key_same :
      (rows : List Indicator)
      → any (is_row_of source (key_of o)) rows ≡ true
      → observed source (key_of o) (refresh_key source (key_of o) now o rows) ≡ some o
  observed-refresh_key_same [] h = absurd (cc)
  observed-refresh_key_same (i ∷ rows) h = elim (Bool-cases (is_row_of source (key_of o) i)) [
    | inl m ↦
        let e : is_row_of source (key_of o) (refreshed now o i) ≡ true =
          rw m at (anew_is_row source (key_of o) i) in
        rw (m, e) refl
    | inr m ↦ rw (m, m) (observed-refresh_key_same rows (rw m at h))
  ]

  pub observed-refresh_key_other :
      (key : Key) (rows : List Indicator)
      → same_key (key_of o) key ≡ false
      → observed source key (refresh_key source (key_of o) now o rows) ≡ observed source key rows
  observed-refresh_key_other key [] h = refl
  observed-refresh_key_other key (i ∷ rows) h = elim (Bool-cases (is_row_of source (key_of o) i)) [
    | inl m ↦
        let e : is_row_of source key (refreshed now o i) ≡ is_row_of source key i =
          rw m at (anew_is_row source key i) in
        let f : is_row_of source key (refreshed now o i) ≡ false = ground arith in
        let g : is_row_of source key i ≡ false = sym e ∙ f in
        rw (m, f, g, observed-refresh_key_other key rows h) refl
    | inr m ↦ rw (m, observed-refresh_key_other key rows h) refl
  ]

  pub refresh_key-others :
      (rows : List Indicator)
      → filter (λ i. not (text_eq i.source_key source)) (refresh_key source (key_of o) now o rows)
        ≡ filter (λ i. not (text_eq i.source_key source)) rows
  refresh_key-others [] = refl
  refresh_key-others (i ∷ rows) = elim (Bool-cases (is_row_of source (key_of o) i)) [
    | inl m ↦
        let t : text_eq i.source_key source ≡ true = ground arith in
        rw (m, t, refresh_key-others rows) refl
    | inr m ↦ rw (m, refresh_key-others rows) refl
  ]

  pub refresh_key_ids :
      (n : ℕ) (rows : List Indicator)
      → All (λ i. i.id < n) rows
      → All (λ i. i.id < n) (refresh_key source (key_of o) now o rows)
  refresh_key_ids n [] h = tt
  refresh_key_ids n (i ∷ rows) h =
      (subst (λ id. id < n) (sym (anew_id i)) h.0, refresh_key_ids n rows h.1)
