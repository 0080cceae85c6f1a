-- ===== src/Correlation/Links.antt =====
-- backend/app/services/correlation.py: `link`, `add_reference` and `_ensure_product`. A table is the
-- list of its rows.
use asber.Base.{
  Bool, List, Option, Text, [], any, false, find, if◌then◌else◌, is_empty, none, some, take,
  text_eq, true, ℕ, ◌&&◌, ◌++◌, ◌∷◌,
}
use asber.Models.{AffectedProduct}

pub record EntityLink : Type 0 where
  pub subject_type : Text
  pub subject_id : Text
  pub object_type : Text
  pub object_id : Text
  pub relation : Text
  pub method : Text
  pub confidence : Text
  pub source_key : Text
  pub evidence : Option Text
  pub observed_at : Option ℕ

pub record SourceReference : Type 0 where
  pub cve_id : Text
  pub source_key : Text
  pub url : Text
  pub ref_type : Text
  pub title : Option Text
  pub tags : List Text
  pub published_at : Option ℕ

-- A row is added unless there is one already that the query finds, in the order of the calls.
module _ {A : Type 0} (finds : A → A → Bool) where
  abbrev pub add_missing : A → List A → Bool × List A
  add_missing row rows = if any (finds row) rows then (false, rows) else (true, rows ++ row ∷ [])

  abbrev pub add_all_missing : List A → List A → List A
  add_all_missing [] rows = rows
  add_all_missing (new ∷ more) rows = add_all_missing more (add_missing new rows).1

abbrev pub is_same_edge : EntityLink → EntityLink → Bool
is_same_edge new l =
    text_eq l.subject_type new.subject_type
    && text_eq l.subject_id new.subject_id
    && text_eq l.object_type new.object_type
    && text_eq l.object_id new.object_id
    && text_eq l.relation new.relation

-- `(evidence or "")[:500] or None`
abbrev pub cut_evidence : Option Text → Option Text
cut_evidence none = none
cut_evidence (some t) = if is_empty (take 500 t) then none else some (take 500 t)

abbrev pub existing_or_new :
    EntityLink → List EntityLink → Option EntityLink → (EntityLink × Bool) × List EntityLink
existing_or_new edge links (some existing) = ((existing, false), links)
existing_or_new edge links none = ((edge, true), links ++ edge ∷ [])

unfoldable pub link : EntityLink → List EntityLink → (EntityLink × Bool) × List EntityLink
link fields links =
    let edge = record fields { evidence = cut_evidence fields.evidence } in
    existing_or_new edge links (find (is_same_edge edge) links)

abbrev pub is_same_reference : SourceReference → SourceReference → Bool
is_same_reference new r = text_eq r.cve_id new.cve_id && text_eq r.url new.url

unfoldable pub add_reference : SourceReference → List SourceReference → Bool × List SourceReference
add_reference new references = add_missing is_same_reference new references

abbrev pub is_same_product : AffectedProduct → AffectedProduct → Bool
is_same_product new p =
    text_eq p.cve_id new.cve_id
    && text_eq p.vendor new.vendor
    && text_eq p.product new.product
    && text_eq p.cpe new.cpe

unfoldable pub ensure_product : AffectedProduct → List AffectedProduct → List AffectedProduct
ensure_product new products = (add_missing is_same_product new products).1
