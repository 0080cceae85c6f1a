-- ===== src/Correlation/Nvd/Again.antt =====
-- Applying an NVD entry again.
use asber.Base.{
  Bool, List, Option, Text, arith, false, refl, true, ℕ, ◌≡◌, insert, lookup, some, ◌||◌,
  Option-cases, inl, inr, ◌∙◌,
}
use asber.Correlation.Nvd.{
  merge_nvd, NvdEntry, new_or_old_cwes, new_or_old, is_changed_nvd, fill_cut, apply_nvd, nvd_row,
  with_fetch_time, nvd_products, nvd_references, store_nvd,
}
use asber.Models.{Vulnerability}
use asber.Correlation.Merge.{stamped}
use asber.Correlation.Kev.{
  same_date_self, same_text_self, same_texts_self, get_back, every, is_same_product_self,
  is_same_reference_self,
}
use asber.Correlation.Entry.{get_or_create_vulnerability, Graph}
use asber.Correlation.Upserts.{missing_twice}
use asber.Correlation.Links.{is_same_product, is_same_reference}

is_changed_nvd_self :
    (v : Vulnerability) (t : Option ℕ) → is_changed_nvd v (record v { nvd_fetched_at = t }) ≡ false
unfolding is_changed_nvd
is_changed_nvd_self v t =
    rw
      (
        same_text_self v.vuln_status,
        same_date_self v.published,
        same_date_self v.last_modified,
        same_date_self v.cvss_score,
        same_text_self v.cvss_severity,
        same_text_self v.cvss_vector,
        same_text_self v.cvss_version,
        same_text_self v.ssvc_exploitation,
        same_text_self v.ssvc_automatable,
        same_text_self v.ssvc_technical_impact,
        same_text_self v.description,
        same_texts_self v.cwes,
        same_text_self v.vendor,
        same_text_self v.product,
        same_text_self v.title,
      )
      refl

new_or_old_twice :
    (old new : Option Text) → new_or_old (new_or_old old new) new ≡ new_or_old old new
new_or_old_twice old new = ground arith

new_or_old_cwes_twice :
    (old new : List Text) → new_or_old_cwes (new_or_old_cwes old new) new ≡ new_or_old_cwes old new
new_or_old_cwes_twice old new = ground arith

fill_cut_twice :
    (n : ℕ) (old new : Option Text) → fill_cut n (fill_cut n old new) new ≡ fill_cut n old new
fill_cut_twice n old new = ground arith

module _ (entry : NvdEntry) where
  -- A second entry finds the row as the first one left it.
  merge_nvd_twice :
      (now : ℕ) (b : Bool) (v : Vulnerability)
      → let row = stamped now b (with_fetch_time now (merge_nvd entry v)) in
        merge_nvd entry row ≡ row
  unfolding merge_nvd
  merge_nvd_twice now true v =
      rw
        (
          new_or_old_twice v.description entry.description,
          new_or_old_cwes_twice v.cwes entry.cwes,
          fill_cut_twice 200 v.vendor entry.primary_vendor,
          fill_cut_twice 300 v.product entry.primary_product,
          fill_cut_twice 140 v.title entry.description,
        )
        refl
  merge_nvd_twice now false v =
      rw
        (
          new_or_old_twice v.description entry.description,
          new_or_old_cwes_twice v.cwes entry.cwes,
          fill_cut_twice 200 v.vendor entry.primary_vendor,
          fill_cut_twice 300 v.product entry.primary_product,
          fill_cut_twice 140 v.title entry.description,
        )
        refl

  nvd_row_twice :
      (now later : ℕ) (p : Vulnerability × Bool)
      → nvd_row later entry ((nvd_row now entry p).1, false)
        ≡ ((false, false), with_fetch_time later (nvd_row now entry p).1)
  unfolding nvd_row
  nvd_row_twice now later (v, is_new) =
      let b = is_new || is_changed_nvd v (merge_nvd entry v) in
      let row : Vulnerability = stamped now b (with_fetch_time now (merge_nvd entry v)) in
      rw (merge_nvd_twice now b v, is_changed_nvd_self row row.nvd_fetched_at) refl

tracked :
    (now : ℕ) (entry : NvdEntry) (graph : Graph)
    → apply_nvd now true entry graph
      ≡ store_nvd now entry graph
          (get_or_create_vulnerability now graph.vulnerabilities entry.cve_id)
unfolding apply_nvd
tracked now entry graph = elim (Option-cases (lookup entry.cve_id graph.vulnerabilities)) [
  | inl e ↦ rw e refl
  | inr (v, e) ↦ rw e refl
]

known_again :
    (later : ℕ) (track_new : Bool) (entry : NvdEntry) (graph : Graph) (row : Vulnerability)
    → lookup entry.cve_id graph.vulnerabilities ≡ some row
    → apply_nvd later track_new entry graph ≡ store_nvd later entry graph (row, false)
unfolding apply_nvd get_or_create_vulnerability
known_again later track_new entry graph row e = rw e refl

-- An NVD entry that was applied, applied again at any later time, is reported as neither created
-- nor changed; it finds the row that the first time has left, moves the time of its fetch and no
-- other attribute, and adds no reference and no product.
pub apply_nvd_twice :
    (now later : ℕ) (track_new : Bool) (entry : NvdEntry) (graph : Graph)
    → let once = (apply_nvd now true entry graph).1 in
      (row : Vulnerability) × (lookup entry.cve_id once.vulnerabilities ≡ some row)
      × (apply_nvd later track_new entry once ≡ (
        (false, false),
        record once {
          vulnerabilities = insert entry.cve_id (with_fetch_time later row) once.vulnerabilities;
        },
      ))
apply_nvd_twice now later track_new entry graph =
    let p = get_or_create_vulnerability now graph.vulnerabilities entry.cve_id in
    let row : Vulnerability = (nvd_row now entry p).1 in
    let back = get_back later row entry.cve_id graph.vulnerabilities in
    let once = (store_nvd now entry graph p).1 in
    rw (tracked now entry graph) (
      row,
      back.0,
      known_again later track_new entry once row back.0
          ∙ rw
              (
                nvd_row_twice entry now later p,
                missing_twice is_same_reference (nvd_references entry) graph.references
                    (every is_same_reference is_same_reference_self (nvd_references entry)),
                missing_twice is_same_product (nvd_products entry) graph.products
                    (every is_same_product is_same_product_self (nvd_products entry)),
              )
              refl,
    )
