-- ===== src/Correlation/Unchanged.antt =====
-- What `apply_kev` means by a row that did not change.
use mathlib.Core.Path.{ap₂}
use asber.Base.{
  ==_iff, Bool, List, Option, Text, [], ap, arith, false, none, refl, some, sym, text_eq,
  text_eq_iff, true, ℕ, ◌&&◌, ◌∷◌, ◌≡◌, if◌then◌else◌, not, Dict, insert, lookup,
}
use asber.Models.{Vulnerability}
use asber.Correlation.Kev.{insert-same}
use asber.Correlation.Entry.{found_or_new, get_or_create_vulnerability, Graph, kev_row, apply_kev}
use asber.Correlation.Merge.{is_changed, same_text, same_date, KevEntry, merge_kev, same_texts}

same_text-eq : (s t : Option Text) → same_text s t ≡ true → t ≡ s
same_text-eq none none h = refl
same_text-eq none (some t) h = ground arith
same_text-eq (some s) none h = ground arith
same_text-eq (some s) (some t) h = ap (λ x. some x) (sym ((text_eq_iff s t).0 h))

same_date-eq : (s t : Option ℕ) → same_date s t ≡ true → t ≡ s
same_date-eq none none h = refl
same_date-eq none (some t) h = ground arith
same_date-eq (some s) none h = ground arith
same_date-eq (some s) (some t) h = ap (λ x. some x) (sym ((==_iff s t).0 h))

both : (a b : Bool) → a && b ≡ true → (a ≡ true) × (b ≡ true)
both true true h = (refl, refl)
both true false h = ground arith
both false b h = ground arith

same_texts-eq : (s t : List Text) → same_texts s t ≡ true → t ≡ s
same_texts-eq [] [] h = refl
same_texts-eq [] (t ∷ ts) h = ground arith
same_texts-eq (s ∷ ss) [] h = ground arith
same_texts-eq (s ∷ ss) (t ∷ ts) h =
    let (e, q) = both (text_eq s t) (same_texts ss ts) h in
    ap₂ (λ x xs. x ∷ xs) (sym ((text_eq_iff s t).0 e)) (same_texts-eq ss ts q)

same_bool-eq : (a b : Bool) → (if a then b else not b) ≡ true → b ≡ a
same_bool-eq a b h = ground arith

-- The row with the attributes of `w` that `apply_kev` assigns.
abbrev assigned : Vulnerability → Vulnerability → Vulnerability
assigned v w = record v {
  kev_name = w.kev_name;
  kev_date_added = w.kev_date_added;
  kev_due_date = w.kev_due_date;
  kev_required_action = w.kev_required_action;
  kev_ransomware = w.kev_ransomware;
  kev_notes = w.kev_notes;
  in_kev = w.in_kev;
  title = w.title;
  description = w.description;
  vendor = w.vendor;
  product = w.product;
  cwes = w.cwes;
}

assigned-unchanged : (v w : Vulnerability) → is_changed v w ≡ false → assigned v w ≡ v
unfolding is_changed
assigned-unchanged v w h =
    rw
      (
        same_text-eq v.kev_name w.kev_name (ground arith),
        same_date-eq v.kev_date_added w.kev_date_added (ground arith),
        same_date-eq v.kev_due_date w.kev_due_date (ground arith),
        same_text-eq v.kev_required_action w.kev_required_action (ground arith),
        same_text-eq v.kev_ransomware w.kev_ransomware (ground arith),
        same_text-eq v.kev_notes w.kev_notes (ground arith),
        same_text-eq v.title w.title (ground arith),
        same_text-eq v.description w.description (ground arith),
        same_text-eq v.vendor w.vendor (ground arith),
        same_text-eq v.product w.product (ground arith),
        same_texts-eq v.cwes w.cwes (ground arith),
        same_bool-eq v.in_kev w.in_kev (ground arith),
      )
      refl

merge_kev-unchanged :
    (entry : KevEntry) (v : Vulnerability)
    → is_changed v (merge_kev entry v) ≡ false
    → merge_kev entry v ≡ v
unfolding merge_kev
merge_kev-unchanged entry v h = assigned-unchanged v (merge_kev entry v) h

kev_row-unchanged :
    (now : ℕ) (entry : KevEntry) (rows : Dict Vulnerability) (o : Option Vulnerability)
    → lookup entry.cve_id rows ≡ o
    → (kev_row now entry (found_or_new now entry.cve_id o)).0 ≡ (false, false)
    → insert entry.cve_id (kev_row now entry (found_or_new now entry.cve_id o)).1 rows ≡ rows
unfolding kev_row
kev_row-unchanged now entry rows none e h =
    let q : true ≡ false = ap (λ p. p.0) h in absurd (ground arith)
kev_row-unchanged now entry rows (some v) e h =
    let c : is_changed v (merge_kev entry v) ≡ false = ap (λ p. p.1) h in
    rw (c, merge_kev-unchanged entry v c) (insert-same entry.cve_id v rows e)

-- When `apply_kev` reports that the entry's row was neither created nor changed, the whole table
-- of vulnerabilities is as it was, time stamps included.
pub unchanged_is_unchanged :
    (now : ℕ) (entry : KevEntry) (graph : Graph)
    → (apply_kev now entry graph).0 ≡ (false, false)
    → (apply_kev now entry graph).1.vulnerabilities ≡ graph.vulnerabilities
unfolding apply_kev get_or_create_vulnerability
unchanged_is_unchanged now entry graph h =
    kev_row-unchanged now entry graph.vulnerabilities (lookup entry.cve_id graph.vulnerabilities)
      refl h
