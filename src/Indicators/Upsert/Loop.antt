-- ===== src/Indicators/Upsert/Loop.antt =====
-- The loop over the observations of a feed: the new rows have keys that are not in the table and
-- differ from each other, and the rows of the table keep their keys.
use asber.Base.{
  All, All-append, Bool-cases, List, Option, Text, [], any, ap, arith, false, filter, inl, inr,
  none, not, refl, some, sym, text_eq, true, ℕ, ◌++◌, ◌<◌, ◌∙◌, ◌∷◌, ◌≡◌,
}
use asber.Indicators.Upsert.{
  Indicator, Key, Upserts, pk_of, refresh, key_of, same_key, upsert, add_or_refresh,
}
use asber.Indicators.Upsert.Refresh.{
  pk_of-refresh_key, refresh_key-others, refresh_key-KeysDistinct, refresh_key_ids,
}
use asber.Indicators.Upsert.Table.{refresh-pk_of, KeysDistinct, same_key_iff, refresh_key}
use asber.Indicators.Feed.{Observation}

abbrev pub NewDistinct : List Observation → Type 0
NewDistinct [] = Unit {0}
NewDistinct (o ∷ os) = (any (λ p. same_key (key_of o) (key_of p)) os ≡ false) × NewDistinct os

module _ (now : ℕ) (existing : Key → Option ℕ) where
  abbrev pub upsert_all : List Observation → Upserts → Upserts
  upsert_all [] s = s
  upsert_all (o ∷ os) s = upsert_all os (upsert now existing o s)

pub unseen_new :
    (key : Key) (seen : List Key) (os : List Observation)
    → any (same_key key) seen ≡ false
    → All (λ o. any (same_key (key_of o)) seen ≡ true) os
    → All (λ o. same_key (key_of o) key ≡ false) os
unseen_new key seen [] h k = tt
unseen_new key seen (o ∷ os) h k = (
  elim (Bool-cases (same_key (key_of o) key)) [
    | inl e ↦
        let same = (same_key_iff (key_of o) key).0 e in
        let bad : any (same_key key) seen ≡ true =
          ap (λ j. any (same_key j) seen) (sym same) ∙ k.0 in
        absurd (cc)
    | inr e ↦ e
  ],
  unseen_new key seen os h k.1,
)

append-NewDistinct :
    (os : List Observation) (o : Observation)
    → NewDistinct os
    → All (λ p. same_key (key_of p) (key_of o) ≡ false) os
    → NewDistinct (os ++ o ∷ [])
append-NewDistinct [] o d h = (refl, tt)
append-NewDistinct (p ∷ os) o d h = (go os d.0, append-NewDistinct os o d.1 h.1)
  where
    go :
        (os : List Observation)
        → any (λ q. same_key (key_of p) (key_of q)) os ≡ false
        → any (λ q. same_key (key_of p) (key_of q)) (os ++ o ∷ []) ≡ false
    go [] e = rw h.0 refl
    go (q ∷ os) e = ground (arith, go os)

module _ (source : Text) (n : ℕ) (start : List Indicator) where
  -- What the loop keeps.
  abbrev pub IsOpen : Upserts → Type 0
  IsOpen s =
      KeysDistinct s.rows
      × ((key : Key) → pk_of source key s.rows ≡ pk_of source key start)
      × All (λ o. any (same_key (key_of o)) s.seen ≡ true) s.new_rows
      × All (λ o. pk_of source (key_of o) start ≡ none) s.new_rows
      × NewDistinct s.new_rows
      × (filter (λ i. not (text_eq i.source_key source)) s.rows
          ≡ filter (λ i. not (text_eq i.source_key source)) start)
      × All (λ i. i.id < n) s.rows

  seen_more :
      (key : Key) (seen : List Key) (os : List Observation)
      → All (λ o. any (same_key (key_of o)) seen ≡ true) os
      → All (λ o. any (same_key (key_of o)) (key ∷ seen) ≡ true) os
  seen_more key seen [] h = tt
  seen_more key seen (o ∷ os) h = (ground arith, seen_more key seen os h.1)

  add_or_refresh-IsOpen :
      (now : ℕ) (o : Observation) (s : Upserts)
      → IsOpen s
      → any (same_key (key_of o)) s.seen ≡ false
      → (found : Option ℕ) → pk_of source (key_of o) start ≡ found
      → IsOpen (
          add_or_refresh now
            (λ key. pk_of source key start)
            o
            (record s { seen = key_of o ∷ s.seen })
            found)
  add_or_refresh-IsOpen now o s (d, ks, new, absent, nd, others, ids) e none q =
      let key = key_of o in
      let self : same_key key key ≡ true = (same_key_iff key key).1 refl in
      (
        d,
        ks,
        All-append (λ o. any (same_key (key_of o)) (key ∷ s.seen) ≡ true) s.new_rows (o ∷ [])
            (seen_more key s.seen s.new_rows new) (ground arith, tt),
        All-append (λ o. pk_of source (key_of o) start ≡ none) s.new_rows (o ∷ []) absent (q, tt),
        append-NewDistinct s.new_rows o nd (unseen_new key s.seen s.new_rows e new),
        others,
        ids,
      )
  add_or_refresh-IsOpen now o s (d, ks, new, absent, nd, others, ids) e (some pk) q =
      let key = key_of o in
      let r : refresh now pk o s.rows ≡ refresh_key source key now o s.rows =
        refresh-pk_of source key now pk o s.rows d (ks key ∙ q) in
      (
        rw r (refresh_key-KeysDistinct source now o s.rows d),
        λ k. rw r (pk_of-refresh_key source now o k s.rows ∙ ks k),
        seen_more key s.seen s.new_rows new,
        absent,
        nd,
        rw r (refresh_key-others source now o s.rows ∙ others),
        rw r (refresh_key_ids source now o n s.rows ids),
      )

  pub upsert-IsOpen :
      (now : ℕ) (o : Observation) (s : Upserts)
      → IsOpen s
      → IsOpen (upsert now (λ key. pk_of source key start) o s)
  unfolding upsert
  upsert-IsOpen now o s h = elim (Bool-cases (any (same_key (key_of o)) s.seen)) [
    | inl e ↦ rw e h
    | inr e ↦ rw e (add_or_refresh-IsOpen now o s h e (pk_of source (key_of o) start) refl)
  ]

  pub upsert_all-IsOpen :
      (now : ℕ) (os : List Observation) (s : Upserts)
      → IsOpen s
      → IsOpen (upsert_all now (λ key. pk_of source key start) os s)
  upsert_all-IsOpen now [] s h = h
  upsert_all-IsOpen now (o ∷ os) s h =
      upsert_all-IsOpen now os (upsert now (λ key. pk_of source key start) o s)
        (upsert-IsOpen now o s h)
