-- ===== src/Correlation/Documents/Reports.antt =====
-- Which documents count as evidence of exploitation.
use mathlib.Core.Path.{subst}
use mathlib.Core.List.{append-nil}
use asber.Base.{
  All, All-append, Bool, List, Option, Option-cases, Text, [], codes, false, filter, filter-append,
  find, inl, inr, lookup, none, refl, some, text_eq, true, ◌&&◌, ◌∙◌, ◌∷◌, ◌≡◌, any, decimal, ◌++◌,
  Bool-cases, ap, arith, ◌⊎◌,
}
use asber.Correlation.Documents.{
  report_edges, document_text, cve_edges, name_edges, is_some_text, process_document, Finder,
  document_edges, technique_edges, technique_edge, is_focused_text, document_edge, find_cves,
  find_techniques,
}
use asber.Models.{Document}
use asber.Correlation.Links.{link, EntityLink, cut_evidence, is_same_edge}
use asber.Correlation.Edges.{link_all, link-has, link_all-keeps}

abbrev pub is_reporting : EntityLink → Bool
is_reporting l = text_eq l.relation (codes "reports_exploitation")

abbrev IsMention : EntityLink → Type 0
IsMention l = is_reporting l ≡ false

link-spares :
    (new : EntityLink) (links : List EntityLink)
    → IsMention new
    → filter is_reporting (link new links).1 ≡ filter is_reporting links
unfolding link
link-spares new links h =
    let edge : EntityLink = record new { evidence = cut_evidence new.evidence } in
    elim (Option-cases (find (is_same_edge edge) links)) [
      | inl e ↦ rw e (filter-append is_reporting links (edge ∷ []) ∙ rw h (append-nil _))
      | inr (l, e) ↦ rw e refl
    ]

link_all-spares :
    (calls links : List EntityLink)
    → All IsMention calls
    → filter is_reporting (link_all calls links) ≡ filter is_reporting links
link_all-spares [] links h = refl
link_all-spares (new ∷ more) links h =
    link_all-spares more (link new links).1 h.1 ∙ link-spares new links h.0

module _ (doc : Document) (text : Text) where
  silent :
      (focused : Bool) (phrase : Option Text) (cve : Text)
      → focused && is_some_text phrase ≡ false
      → report_edges doc text focused phrase cve ≡ []
  silent focused none cve h = refl
  silent true (some p) cve h = cc h
  silent false (some p) cve h = refl

  cve_edges-IsMention :
      (focused : Bool) (phrase : Option Text) (cves : List Text)
      → focused && is_some_text phrase ≡ false
      → All IsMention (cve_edges doc text focused phrase cves)
  unfolding document_edge
  cve_edges-IsMention focused phrase [] h = tt
  cve_edges-IsMention focused phrase (cve ∷ cves) h =
      rw (silent focused phrase cve h) (refl, cve_edges-IsMention focused phrase cves h)

  technique_edge-IsMention :
      (tech : Text) (o : Option Text) → All IsMention (technique_edge doc text tech o)
  unfolding document_edge
  technique_edge-IsMention tech none = tt
  technique_edge-IsMention tech (some []) = tt
  technique_edge-IsMention tech (some (c ∷ stix_id)) = (refl, tt)

  technique_edges-IsMention :
      (finder : Finder) (techs : List Text) → All IsMention (technique_edges finder doc text techs)
  technique_edges-IsMention finder [] = tt
  technique_edges-IsMention finder (tech ∷ techs) =
      All-append IsMention _ _ (technique_edge-IsMention tech (lookup tech finder.technique_ids))
        (technique_edges-IsMention finder techs)

  name_edges-IsMention : (found : List (Text × Text)) → All IsMention (name_edges doc text found)
  unfolding document_edge
  name_edges-IsMention [] = tt
  name_edges-IsMention ((stix_id, matched) ∷ found) = (refl, name_edges-IsMention found)

reports_spared :
    (finder : Finder) (doc : Document) (text : Text) (links : List EntityLink)
    → is_focused_text finder text && is_some_text (finder.phrase text) ≡ false
    → filter is_reporting (link_all (document_edges finder doc text) links)
      ≡ filter is_reporting links
unfolding document_edges
reports_spared finder doc text links h = link_all-spares (document_edges finder doc text) links (
    All-append IsMention _ _
      (cve_edges-IsMention doc text (is_focused_text finder text) (finder.phrase text)
        (find_cves finder text) h)
      (All-append IsMention _ _
        (technique_edges-IsMention doc text finder (find_techniques finder text))
        (name_edges-IsMention doc text (finder.names text))))

made_all :
    (calls links : List EntityLink)
    → All (λ new. any (is_same_edge new) (link_all calls links) ≡ true) calls
made_all [] links = tt
made_all (new ∷ more) links = (
  link_all-keeps (is_same_edge new) more (link new links).1 (link-has new links),
  made_all more (link new links).1,
)

-- An edge that says that this document reports the exploitation of this CVE.
abbrev pub reports_on : Document → Text → EntityLink → Bool
reports_on doc cve l =
    text_eq l.subject_type (codes "document")
    && text_eq l.subject_id (decimal doc.id)
    && text_eq l.object_type (codes "cve")
    && text_eq l.object_id cve
    && is_reporting l

module _ (doc : Document) (text phrase : Text) (made : List EntityLink) where
  abbrev IsMade : EntityLink → Type 0
  IsMade new = any (is_same_edge new) made ≡ true

  cve_edges-reports :
      (cves : List Text)
      → All IsMade (cve_edges doc text true (some phrase) cves)
      → All (λ cve. any (reports_on doc cve) made ≡ true) cves
  unfolding document_edge
  cve_edges-reports [] h = tt
  cve_edges-reports (cve ∷ cves) h = (h.1.0, cve_edges-reports cves h.1.1)

All-append_left : {A : Type 0} (P : A → Type 0) (xs ys : List A) → All P (xs ++ ys) → All P xs
All-append_left P [] ys h = tt
All-append_left P (x ∷ xs) ys h = (h.0, All-append_left P xs ys h.1)

reports_made :
    (finder : Finder) (doc : Document) (text : Text) (links : List EntityLink)
    → is_focused_text finder text && is_some_text (finder.phrase text) ≡ true
    → All
        (λ cve. any (reports_on doc cve) (link_all (document_edges finder doc text) links) ≡ true)
        (find_cves finder text)
unfolding document_edges
reports_made finder doc text links h =
    let made = link_all (document_edges finder doc text) links in
    let cves = find_cves finder text in
    let focused = is_focused_text finder text in
    let all_made =
      All-append_left (IsMade doc text [] made)
        (cve_edges doc text focused (finder.phrase text) cves) _
        (made_all (document_edges finder doc text) links) in
    let e : focused ≡ true = ground (arith, h) in
    elim (Option-cases (finder.phrase text)) [
      | inl none_found ↦ cc (h, e, ap is_some_text none_found)
      | inr (phrase_met, q) ↦ cve_edges-reports doc text phrase_met made cves (
          subst (λ o. All (IsMade doc text [] made) (cve_edges doc text true o cves)) q
            (subst
              (λ b. All (IsMade doc text [] made) (cve_edges doc text b (finder.phrase text) cves))
              e all_made))
    ]

-- A document that names more than five CVEs, or in which no phrase of exploitation is found, adds
-- no edge that reports exploitation and changes none. After any other document, there is such an
-- edge from it to each CVE that it names.
pub process_document_reports :
    (finder : Finder) (doc : Document) (full_text : Text) (links : List EntityLink)
    → let text = document_text doc full_text in
      let is_report = is_focused_text finder text && is_some_text (finder.phrase text) in
      let after = (process_document finder doc full_text links).2 in
      ((is_report ≡ false) × (filter is_reporting after ≡ filter is_reporting links))
      ⊎ ((is_report ≡ true)
          × All (λ cve. any (reports_on doc cve) after ≡ true) (find_cves finder text))
unfolding process_document
process_document_reports finder doc full_text links =
    let text = document_text doc full_text in
    elim (Bool-cases (is_focused_text finder text && is_some_text (finder.phrase text))) [
      | inl e ↦ inr (e, reports_made finder doc text links e)
      | inr e ↦ inl (e, reports_spared finder doc text links e)
    ]
