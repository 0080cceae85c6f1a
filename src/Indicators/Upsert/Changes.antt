-- ===== src/Indicators/Upsert/Changes.antt =====
-- What the loop over the observations of a feed makes of each row of the table.
use mathlib.Core.Path.{ap₂}
use asber.Base.{
  Bool, Bool-cases, List, Option, Text, [], any, ap, false, if◌then◌else◌, inl, inr, map, none,
  refl, some, sym, text_eq, true, ℕ, ◌∙◌, ◌∷◌, ◌≡◌, arith,
}
use asber.Indicators.Upsert.{
  Indicator, Key, is_row_of, key_of, refreshed, same_key, Upserts, add_or_refresh, pk_of, upsert,
}
use asber.Indicators.Upsert.Table.{
  first_of, same_key_comm, same_key_iff, pk_of-none, refresh-pk_of, refresh_key,
}
use asber.Indicators.Feed.{Observation}
use asber.Indicators.Upsert.Loop.{upsert-IsOpen, IsOpen, upsert_all}

-- A row with what a feed says of its observable: all but the values of the feed, and when it was
-- last seen, is as it was.
abbrev pub seen_again : ℕ → Option Observation → Indicator → Indicator
seen_again now none i = i
seen_again now (some o) i = record {
  id = i.id;
  source_key = i.source_key;
  observation = o;
  tier = i.tier;
  last_seen_at = some now;
  collected_at = i.collected_at;
}

module _ (source : Text) (now : ℕ) where
  -- A row after a feed: a row of the source, if the feed has its key, is seen again; any other row
  -- is as it was.
  abbrev pub row_after : List Observation → Indicator → Indicator
  row_after os i =
      if text_eq i.source_key source
      then seen_again now (first_of (key_of i.observation) os) i
      else i

  -- The same, where the keys of `seen` are done.
  abbrev row_left : List Key → List Observation → Indicator → Indicator
  row_left seen os i = if any (same_key (key_of i.observation)) seen then i else row_after os i

  row_left_none : (seen : List Key) (i : Indicator) → row_left seen [] i ≡ i
  row_left_none seen i =
      go (any (same_key (key_of i.observation)) seen) (text_eq i.source_key source)
    where
      go : (b c : Bool) → (if b then i else if c then i else i) ≡ i
      go true c = refl
      go false true = refl
      go false false = refl

  map_same :
      (f : Indicator → Indicator)
      → ((i : Indicator) → f i ≡ i)
      → (rows : List Indicator) → map f rows ≡ rows
  map_same f h [] = refl
  map_same f h (i ∷ rows) = ap₂ (λ x xs. x ∷ xs) (h i) (map_same f h rows)

  module _ (o : Observation) where
    -- A key that was seen keeps its row.
    row_left_seen :
        (seen : List Key) (os : List Observation) (i : Indicator)
        → any (same_key (key_of o)) seen ≡ true
        → row_left seen os i ≡ row_left seen (o ∷ os) i
    row_left_seen seen os i h = elim (Bool-cases (same_key (key_of o) (key_of i.observation))) [
      | inl e ↦
          let q : any (same_key (key_of i.observation)) seen ≡ true =
            ap (λ k. any (same_key k) seen) (sym ((same_key_iff (key_of o) _).0 e)) ∙ h in
          rw (q) refl
      | inr e ↦ rw (e) refl
    ]

    abbrev anew : Indicator → Indicator
    anew i = if is_row_of source (key_of o) i then refreshed now o i else i

    row_left-anew :
        (seen : List Key) (os : List Observation) (i : Indicator)
        → any (same_key (key_of o)) seen ≡ false
        → row_left (key_of o ∷ seen) os (anew i) ≡ row_left seen (o ∷ os) i
    row_left-anew seen os i h = elim (Bool-cases (text_eq i.source_key source)) [
      | inl s ↦ elim (Bool-cases (same_key (key_of i.observation) (key_of o))) [
        | inl e ↦
            let k = (same_key_iff (key_of i.observation) (key_of o)).0 e in
            let q : any (same_key (key_of i.observation)) seen ≡ false =
              ap (λ k. any (same_key k) seen) k ∙ h in
            let c : same_key (key_of o) (key_of i.observation) ≡ true =
              same_key_comm (key_of o) (key_of i.observation) ∙ e in
            let self : same_key (key_of o) (key_of o) ≡ true = (same_key_iff (key_of o) _).1 refl in
            rw (s, e, q, c, self) refl
        | inr e ↦
            let c : same_key (key_of o) (key_of i.observation) ≡ false =
              same_key_comm (key_of o) (key_of i.observation) ∙ e in
            let kept : anew i ≡ i = rw (s, e) refl in
            ap (row_left (key_of o ∷ seen) os) kept ∙ rw (e, c) refl
      ]
      | inr s ↦
          let kept : anew i ≡ i = rw s refl in
          ap (row_left (key_of o ∷ seen) os) kept
          ∙ rw s (
              go (any (same_key (key_of i.observation)) seen)
                (any (same_key (key_of i.observation)) (key_of o ∷ seen)))
    ]
      where
        go : (b c : Bool) → (if c then i else i) ≡ (if b then i else i)
        go true true = refl
        go true false = refl
        go false true = refl
        go false false = refl

  map-row_left :
      (seen seen' : List Key) (os os' : List Observation) (f : Indicator → Indicator)
      → ((i : Indicator) → row_left seen os (f i) ≡ row_left seen' os' i)
      → (rows : List Indicator)
      → map (row_left seen os) (map f rows) ≡ map (row_left seen' os') rows
  map-row_left seen seen' os os' f h [] = refl
  map-row_left seen seen' os os' f h (i ∷ rows) =
      ap₂ (λ x xs. x ∷ xs) (h i) (map-row_left seen seen' os os' f h rows)

  refresh_absent :
      (o : Observation) (rows : List Indicator)
      → any (is_row_of source (key_of o)) rows ≡ false
      → refresh_key source (key_of o) now o rows ≡ rows
  refresh_absent o [] h = refl
  refresh_absent o (i ∷ rows) h =
      let n : is_row_of source (key_of o) i ≡ false = ground arith in
      rw n (ap (λ l. i ∷ l) (refresh_absent o rows (ground arith)))

  module _ (n : ℕ) (start : List Indicator) where
    rows-add_or_refresh :
        (o : Observation) (s : Upserts)
        → IsOpen source n start s
        → (found : Option ℕ) → pk_of source (key_of o) start ≡ found
        → (add_or_refresh now
            (λ key. pk_of source key start)
            o
            (record s { seen = key_of o ∷ s.seen })
            found).rows
          ≡ refresh_key source (key_of o) now o s.rows
    rows-add_or_refresh o s (d, ks, new, absent, nd, others, ids) none q =
        sym (refresh_absent o s.rows (pk_of-none source (key_of o) s.rows (ks (key_of o) ∙ q)))
    rows-add_or_refresh o s (d, ks, new, absent, nd, others, ids) (some pk) q =
        refresh-pk_of source (key_of o) now pk o s.rows d (ks (key_of o) ∙ q)

    seen-add_or_refresh :
        (o : Observation) (s : Upserts) (found : Option ℕ)
        → (add_or_refresh now (λ key. pk_of source key start) o s found).seen ≡ s.seen
    seen-add_or_refresh o s none = refl
    seen-add_or_refresh o s (some pk) = refl

    rows-upsert_all :
        (os : List Observation) (s : Upserts)
        → IsOpen source n start s
        → (upsert_all now (λ key. pk_of source key start) os s).rows
          ≡ map (row_left s.seen os) s.rows
    unfolding upsert
    rows-upsert_all [] s h = sym (map_same (row_left s.seen []) (row_left_none s.seen) s.rows)
    rows-upsert_all (o ∷ os) s h =
        let more = upsert now (λ key. pk_of source key start) o s in
        let ih = rows-upsert_all os more (upsert-IsOpen source n start now o s h) in
        ih ∙ elim (Bool-cases (any (same_key (key_of o)) s.seen)) [
          | inl e ↦ rw e (map_row_same s.rows (λ i. row_left_seen o s.seen os i e))
          | inr e ↦
              let found = pk_of source (key_of o) start in
              rw
                (
                  e,
                  rows-add_or_refresh o s h found refl,
                  seen-add_or_refresh o (record s { seen = key_of o ∷ s.seen }) found,
                )
                (map-row_left (key_of o ∷ s.seen) s.seen os (o ∷ os) (anew o)
                  (λ i. row_left-anew o s.seen os i e) s.rows)
        ]
      where
        map_row_same :
            {f g : Indicator → Indicator} (rows : List Indicator)
            → ((i : Indicator) → f i ≡ g i)
            → map f rows ≡ map g rows
        map_row_same [] h = refl
        map_row_same (i ∷ rows) h = ap₂ (λ x xs. x ∷ xs) (h i) (map_row_same rows h)

    -- From no seen key, each row is the one that the whole feed makes of it.
    pub upsert_all-row_after :
        (os : List Observation) (s : Upserts)
        → IsOpen source n start s
        → s.seen ≡ []
        → (upsert_all now (λ key. pk_of source key start) os s).rows ≡ map (row_after os) s.rows
    upsert_all-row_after os s h e =
        rows-upsert_all os s h ∙ ap (λ seen. map (row_left seen os) s.rows) e
