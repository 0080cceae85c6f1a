-- ===== src/Indicators/Upsert/View.antt =====
-- What the table and the new rows together say of a key, while the loop runs.
use asber.Base.{
  All, Bool, Bool-cases, List, Option, Text, [], any, ap, arith, false, if◌then◌else◌, inl, inr,
  none, refl, some, sym, true, ℕ, ◌&&◌, ◌++◌, ◌==◌, ◌||◌, ◌∙◌, ◌∷◌, ◌≡◌,
}
use asber.Indicators.Upsert.{
  Indicator, key_of, same_key, is_row_of, Upserts, upsert, Key, add_or_refresh, pk_of,
}
use asber.Indicators.Upsert.Table.{
  refresh-pk_of, pk_of-none, observed, or_observed, pk_of-some, first_of, same_key_iff,
  same_key_comm,
}
use asber.Indicators.Upsert.Loop.{unseen_new, IsOpen, upsert-IsOpen, upsert_all}
use asber.Indicators.Upsert.Refresh.{observed-refresh_key_same, observed-refresh_key_other}
use asber.Indicators.Feed.{Observation}

abbrev pub view : Text → Key → Upserts → Option Observation
view source key s = or_observed (observed source key s.rows) (first_of key s.new_rows)

pub or_observed-none : (o : Option Observation) → or_observed o none ≡ o
or_observed-none none = refl
or_observed-none (some o) = refl

or_observed_assoc :
    (a b c : Option Observation) → or_observed (or_observed a b) c ≡ or_observed a (or_observed b c)
or_observed_assoc none b c = refl
or_observed_assoc (some a) b c = refl

first_of-append :
    (key : Key) (os ps : List Observation)
    → first_of key (os ++ ps) ≡ or_observed (first_of key os) (first_of key ps)
first_of-append key [] ps = refl
first_of-append key (o ∷ os) ps = elim (Bool-cases (same_key (key_of o) key)) [
  | inl e ↦ rw e refl
  | inr e ↦ rw e (first_of-append key os ps)
]

first_of-none :
    (key : Key) (os : List Observation)
    → All (λ o. same_key (key_of o) key ≡ false) os
    → first_of key os ≡ none
first_of-none key [] h = refl
first_of-none key (o ∷ os) h = rw h.0 (first_of-none key os h.1)

pub observed-none :
    (source : Text) (key : Key) (rows : List Indicator)
    → any (is_row_of source key) rows ≡ false
    → observed source key rows ≡ none
observed-none source key [] h = refl
observed-none source key (i ∷ rows) h = elim (Bool-cases (is_row_of source key i)) [
  | inl m ↦ absurd (ground arith)
  | inr m ↦ rw m (observed-none source key rows (rw m at h))
]

pk_any :
    (source : Text) (key : Key) (rows : List Indicator) (pk : ℕ)
    → any (λ j. j.id == pk && is_row_of source key j) rows ≡ true
    → any (is_row_of source key) rows ≡ true
pk_any source key [] pk h = h
pk_any source key (i ∷ rows) pk h = ground (arith, pk_any source key rows pk)

module _ (source : Text) (n : ℕ) (start : List Indicator) (now : ℕ) (o : Observation) where
  view-add_or_refresh_same :
      (s : Upserts) (seen : List Key)
      → IsOpen source n start s
      → any (same_key (key_of o)) s.seen ≡ false
      → (found : Option ℕ) → pk_of source (key_of o) start ≡ found
      → view source
          (key_of o)
          (add_or_refresh now (λ key. pk_of source key start) o (record s { seen = seen }) found)
        ≡ some o
  view-add_or_refresh_same s seen (d, ks, new, absent, nd, others, ids) e none q =
      let key = key_of o in
      let self : same_key key key ≡ true = (same_key_iff key key).1 refl in
      let a = observed-none source key s.rows (pk_of-none source key s.rows (ks key ∙ q)) in
      let b = first_of-none key s.new_rows (unseen_new key s.seen s.new_rows e new) in
      rw (a, first_of-append key s.new_rows (o ∷ []), b, self) refl
  view-add_or_refresh_same s seen (d, ks, new, absent, nd, others, ids) e (some pk) q =
      let key = key_of o in
      let r = refresh-pk_of source key now pk o s.rows d (ks key ∙ q) in
      let there = pk_any source key s.rows pk (pk_of-some source key s.rows pk (ks key ∙ q)) in
      rw (r, observed-refresh_key_same source now o s.rows there) refl

  view-add_or_refresh_other :
      (s : Upserts) (seen : List Key) (key : Key)
      → IsOpen source n start s
      → same_key (key_of o) key ≡ false
      → (found : Option ℕ) → pk_of source (key_of o) start ≡ found
      → view source key
          (add_or_refresh now (λ key. pk_of source key start) o (record s { seen = seen }) found)
        ≡ view source key s
  view-add_or_refresh_other s seen key h e none q =
      let last : first_of key (o ∷ []) ≡ none = rw e refl in
      rw (first_of-append key s.new_rows (o ∷ []), last, or_observed-none (first_of key s.new_rows))
        refl
  view-add_or_refresh_other s seen key (d, ks, new, absent, nd, others, ids) e (some pk) q =
      let r = refresh-pk_of source (key_of o) now pk o s.rows d (ks (key_of o) ∙ q) in
      rw (r, observed-refresh_key_other source now o key s.rows e) refl

  -- One observation changes what is said of its own key, unless the key was seen.
  view-upsert :
      (s : Upserts) (key : Key)
      → IsOpen source n start s
      → view source key (upsert now (λ key. pk_of source key start) o s) ≡ (
          if any (same_key key) s.seen
          then view source key s
          else if same_key (key_of o) key
          then some o
          else view source key s)
  unfolding upsert
  view-upsert s key h = elim (Bool-cases (same_key (key_of o) key)) [
    | inl e ↦
        let same : key_of o ≡ key = (same_key_iff (key_of o) key).0 e in
        elim (Bool-cases (any (same_key (key_of o)) s.seen)) [
          | inl m ↦
              let m' : any (same_key key) s.seen ≡ true =
                ap (λ k. any (same_key k) s.seen) (sym same) ∙ m in
              rw (m, m') refl
          | inr m ↦
              let m' : any (same_key key) s.seen ≡ false =
                ap (λ k. any (same_key k) s.seen) (sym same) ∙ m in
              let found = pk_of source (key_of o) start in
              rw (m, m', e)
                (ap
                    (λ k. view source k (
                      add_or_refresh now (λ key. pk_of source key start) o
                        (record s { seen = key_of o ∷ s.seen }) found))
                    (sym same)
                  ∙ view-add_or_refresh_same s (key_of o ∷ s.seen) h m found refl)
        ]
    | inr e ↦
        let found = pk_of source (key_of o) start in
        let t = view-add_or_refresh_other s (key_of o ∷ s.seen) key h e found refl in
        elim (Bool-cases (any (same_key (key_of o)) s.seen)) [
          | inl m ↦ rw (m, e) (both (any (same_key key) s.seen) (view source key s))
          | inr m ↦ rw (m, e, t) (both (any (same_key key) s.seen) (view source key s))
        ]
  ]
    where
      both : (b : Bool) (v : Option Observation) → v ≡ (if b then v else v)
      both true v = refl
      both false v = refl

  seen-upsert :
      (s : Upserts) (key : Key)
      → any (same_key key) (upsert now (λ key. pk_of source key start) o s).seen
        ≡ (same_key (key_of o) key || any (same_key key) s.seen)
  unfolding upsert
  seen-upsert s key =
      let c = same_key_comm (key_of o) key in
      elim (Bool-cases (any (same_key (key_of o)) s.seen)) [
        | inl m ↦ elim (Bool-cases (same_key (key_of o) key)) [
          | inl e ↦
              let same : key_of o ≡ key = (same_key_iff (key_of o) key).0 e in
              let m' : any (same_key key) s.seen ≡ true =
                ap (λ k. any (same_key k) s.seen) (sym same) ∙ m in
              rw (m, e, m') refl
          | inr e ↦ rw (m, e) refl
        ]
        | inr m ↦
            let found = pk_of source (key_of o) start in
            let t = added (record s { seen = key_of o ∷ s.seen }) found in
            rw (m, c) (ap (any (same_key key)) t)
      ]
    where
      added :
          (s : Upserts) (found : Option ℕ)
          → (add_or_refresh now (λ key. pk_of source key start) o s found).seen ≡ s.seen
      added s none = refl
      added s (some pk) = refl

-- After the loop, the first observation of a key stands for it, and without one the table's row.
pub view-upsert_all :
    (source : Text) (n : ℕ) (start : List Indicator) (now : ℕ) (os : List Observation) (s : Upserts)
    (key : Key)
    → IsOpen source n start s
    → view source key (upsert_all now (λ key. pk_of source key start) os s) ≡ (
        if any (same_key key) s.seen
        then view source key s
        else or_observed (first_of key os) (view source key s))
view-upsert_all source n start now [] s key h = go (any (same_key key) s.seen) (view source key s)
  where
    go : (b : Bool) (v : Option Observation) → v ≡ (if b then v else v)
    go true v = refl
    go false v = refl
view-upsert_all source n start now (o ∷ os) s key h =
    let more = upsert now (λ key. pk_of source key start) o s in
    let ih =
      view-upsert_all source n start now os more key (upsert-IsOpen source n start now o s h) in
    let v = view-upsert source n start now o s key h in
    let w = seen-upsert source n start now o s key in
    elim (Bool-cases (any (same_key key) s.seen)) [
      | inl m ↦
          let m' : any (same_key key) more.seen ≡ true =
            w ∙ rw m (or_true (same_key (key_of o) key)) in
          let v' : view source key more ≡ view source key s = rw m at v in rw (m, ih, m', v') refl
      | inr m ↦ elim (Bool-cases (same_key (key_of o) key)) [
        | inl e ↦
            let m' : any (same_key key) more.seen ≡ true = w ∙ rw e refl in
            let v' : view source key more ≡ some o = rw (m, e) at v in rw (m, e, ih, m', v') refl
        | inr e ↦
            let m' : any (same_key key) more.seen ≡ false = w ∙ rw (e, m) refl in
            let v' : view source key more ≡ view source key s = rw (m, e) at v in
            rw (m, e, ih, m', v') refl
      ]
    ]
  where
    or_true : (b : Bool) → b || true ≡ true
    or_true true = refl
    or_true false = refl
