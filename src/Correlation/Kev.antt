-- ===== src/Correlation/Kev.antt =====
-- Applying a KEV entry again.
use mathlib.Core.Option.{some-injective}
use asber.Base.{
  Bool, Dict, List, Option, Text, [], arith, false, if◌then◌else◌, insert, lookup, none, not, refl,
  some, text_eq_self, true, ℕ, ◌&&◌, ◌∷◌, ◌≡◌, Bool-cases, ap, inl, inr, sym, text_eq, All,
  lookup-insert, ◌||◌, ◌∙◌,
}
use asber.Models.{Vulnerability, AffectedProduct}
use asber.Correlation.Upserts.{missing_twice}
use asber.Correlation.Links.{is_same_product, is_same_reference, SourceReference}
use asber.Correlation.Merge.{
  fill_cwes, fill_empty, is_changed, fill_given, same_text, stamped, same_date, KevEntry, merge_kev,
  same_texts,
}
use asber.Correlation.Entry.{
  get_or_create_vulnerability, Graph, kev_row, kev_products, apply_kev, kev_references,
}

pub same_text_self : (o : Option Text) → same_text o o ≡ true
same_text_self none = refl
same_text_self (some t) = text_eq_self t

pub same_date_self : (o : Option ℕ) → same_date o o ≡ true
same_date_self none = refl
same_date_self (some t) = ground arith

pub same_texts_self : (ts : List Text) → same_texts ts ts ≡ true
same_texts_self [] = refl
same_texts_self (t ∷ ts) = rw (text_eq_self t, same_texts_self ts) refl

is_changed_self : (v : Vulnerability) → is_changed v v ≡ false
unfolding is_changed
is_changed_self v =
    rw
      (
        same_text_self v.kev_name,
        same_date_self v.kev_date_added,
        same_date_self v.kev_due_date,
        same_text_self v.kev_required_action,
        same_text_self v.kev_ransomware,
        same_text_self v.kev_notes,
        same_text_self v.title,
        same_text_self v.description,
        same_text_self v.vendor,
        same_text_self v.product,
        same_texts_self v.cwes,
      )
      (go v.in_kev)
  where
    go :
        (b : Bool)
        → not (
            true
            && true
            && true
            && true
            && true
            && true
            && (if b then b else not b)
            && true
            && true
            && true
            && true
            && true)
          ≡ false
    go true = refl
    go false = refl

fill_empty_twice :
    (old new : Option Text) → fill_empty (fill_empty old new) new ≡ fill_empty old new
fill_empty_twice old new = ground arith

fill_given_twice :
    (old new : Option Text) → fill_given (fill_given old new) new ≡ fill_given old new
fill_given_twice old new = ground arith

fill_cwes_twice : (old new : List Text) → fill_cwes (fill_cwes old new) new ≡ fill_cwes old new
fill_cwes_twice old new = ground arith

module _ (entry : KevEntry) where
  merge_kev_twice :
      (now : ℕ) (b : Bool) (v : Vulnerability)
      → merge_kev entry (stamped now b (merge_kev entry v)) ≡ stamped now b (merge_kev entry v)
  unfolding merge_kev
  merge_kev_twice now true v =
      rw
        (
          fill_empty_twice v.title entry.kev_name,
          fill_empty_twice v.vendor entry.vendor,
          fill_empty_twice v.product entry.product,
          fill_given_twice v.description entry.short_description,
          fill_cwes_twice v.cwes entry.cwes,
        )
        refl
  merge_kev_twice now false v =
      rw
        (
          fill_empty_twice v.title entry.kev_name,
          fill_empty_twice v.vendor entry.vendor,
          fill_empty_twice v.product entry.product,
          fill_given_twice v.description entry.short_description,
          fill_cwes_twice v.cwes entry.cwes,
        )
        refl

pub insert-same :
    (k : Text) (v : Vulnerability) (d : Dict Vulnerability) → lookup k d ≡ some v → insert k v d ≡ d
insert-same k v [] h = ground arith
insert-same k v ((j, w) ∷ d) h = elim (Bool-cases (text_eq j k)) [
  | inl e ↦ rw e (ap (λ x. (j, x) ∷ d) (sym (some-injective w v (rw e at h))))
  | inr e ↦ rw e (ap (λ l. (j, w) ∷ l) (insert-same k v d (rw e at h)))
]

pub every :
    {A : Type 0} (finds : A → A → Bool)
    → ((x : A) → finds x x ≡ true)
    → (xs : List A) → All (λ x. finds x x ≡ true) xs
every finds h [] = tt
every finds h (x ∷ xs) = (h x, every finds h xs)

pub is_same_reference_self : (r : SourceReference) → is_same_reference r r ≡ true
is_same_reference_self r = rw (text_eq_self r.cve_id, text_eq_self r.url) refl

pub is_same_product_self : (p : AffectedProduct) → is_same_product p p ≡ true
is_same_product_self p =
    rw (text_eq_self p.cve_id, text_eq_self p.vendor, text_eq_self p.product, text_eq_self p.cpe)
      refl

kev_row_twice :
    (now later : ℕ) (entry : KevEntry) (p : Vulnerability × Bool)
    → kev_row later entry ((kev_row now entry p).1, false)
      ≡ ((false, false), (kev_row now entry p).1)
unfolding kev_row
kev_row_twice now later entry (v, is_new) =
    let b = is_new || is_changed v (merge_kev entry v) in
    let row : Vulnerability = stamped now b (merge_kev entry v) in
    rw (merge_kev_twice entry now b v, is_changed_self row) refl

pub get_back :
    (later : ℕ) (row : Vulnerability) (cve_id : Text) (rows : Dict Vulnerability)
    → (lookup cve_id (insert cve_id row rows) ≡ some row)
      × (get_or_create_vulnerability later (insert cve_id row rows) cve_id ≡ (row, false))
unfolding get_or_create_vulnerability
get_back later row cve_id rows =
    let e : lookup cve_id (insert cve_id row rows) ≡ some row =
      lookup-insert cve_id cve_id row rows ∙ rw (text_eq_self cve_id) refl in
    (e, rw e refl)

-- A KEV entry that was applied, applied again at any later time, is reported as neither created
-- nor changed, and leaves every table as it is: no row, reference or product is added, and no
-- attribute or time stamp moves.
pub apply_kev_twice :
    (now later : ℕ) (entry : KevEntry) (graph : Graph)
    → apply_kev later entry (apply_kev now entry graph).1
      ≡ ((false, false), (apply_kev now entry graph).1)
unfolding apply_kev
apply_kev_twice now later entry graph =
    let p = get_or_create_vulnerability now graph.vulnerabilities entry.cve_id in
    let row : Vulnerability = (kev_row now entry p).1 in
    let back = get_back later row entry.cve_id graph.vulnerabilities in
    rw
      (
        back.1,
        kev_row_twice now later entry p,
        insert-same entry.cve_id row (insert entry.cve_id row graph.vulnerabilities) back.0,
        missing_twice is_same_reference (kev_references entry) graph.references
            (every is_same_reference is_same_reference_self (kev_references entry)),
        missing_twice is_same_product (kev_products entry) graph.products
            (every is_same_product is_same_product_self (kev_products entry)),
      )
      refl
