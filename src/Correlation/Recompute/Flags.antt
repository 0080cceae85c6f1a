-- ===== src/Correlation/Recompute/Flags.antt =====
-- What a recomputed row says, and what it leaves alone.
use asber.Base.{
  Bool, List, Text, [], any, arith, false, find, is_empty, not, refl, text_eq, true, ℕ, ◌||◌, ◌∷◌,
  ◌≡◌, Bool-cases, Option, ap, codes, filter, find-some, if◌then◌else◌, inl, inr, length, ltb, some,
  text_eq_iff, ◌∙◌,
}
use asber.Models.{Vulnerability, Document, Exploit}
use asber.Rampart.Repository.{is_vulnerability}
use asber.Correlation.Recompute.Signals.{
  Corpus, is_report, is_active, report_names, exploitation_evidence, linked_documents,
  linked_exploits, links_to,
}
use asber.Correlation.Recompute.Vuln.{
  recompute_vulnerability, recompute_known, recompute_row, recomputed, store_row,
}
use asber.Correlation.Recompute.Twice.{
  replaced, find-replaced, is_vulnerability-row, recompute_cve-keeps,
}
use asber.Correlation.Links.{EntityLink}

no_reports :
    (docs : List Document) (links : List EntityLink)
    → not (is_empty (report_names docs links)) ≡ any is_report links
no_reports docs [] = refl
no_reports docs (l ∷ links) = ground (arith, no_reports docs links)

evidence_lem :
    (v : Vulnerability) (docs : List Document) (links : List EntityLink)
    → not (is_empty (exploitation_evidence v docs links))
      ≡ (v.in_kev || is_active v.ssvc_exploitation || any is_report links)
unfolding exploitation_evidence
evidence_lem v docs links = ground (arith, no_reports docs links)

module _ (now : ℕ) (owner cve_id : Text) where
  foreign :
      (other : Text) (x : Vulnerability)
      → text_eq cve_id other ≡ false
      → is_vulnerability cve_id x ≡ true
      → is_vulnerability other x ≡ false
  foreign other x h e = ap (λ t. text_eq t other) ((text_eq_iff x.cve_id cve_id).0 e) ∙ h

  find-other :
      (other : Text) (row : Vulnerability) (vs : List Vulnerability)
      → text_eq cve_id other ≡ false
      → is_vulnerability cve_id row ≡ true
      → find (is_vulnerability other) (replaced now owner cve_id row vs)
        ≡ find (is_vulnerability other) vs
  find-other other row [] h r = refl
  find-other other row (w ∷ vs) h r = elim (Bool-cases (is_vulnerability cve_id w)) [
    | inl e ↦ rw (e, foreign other row h r, foreign other w h e) (find-other other row vs h r)
    | inr e ↦
        rw e
          (ap (λ o. if is_vulnerability other w then some w else o) (find-other other row vs h r))
  ]

  module _ (search : Text → Text → Bool) (corpus : Corpus) where
    after : Option Vulnerability → List Vulnerability
    after o = (recompute_known search now owner corpus cve_id o).tables.vulnerabilities

    after-some :
        (v : Vulnerability)
        → after (some v)
          ≡ replaced now owner cve_id
              (recompute_row search now corpus cve_id v)
              corpus.tables.vulnerabilities
    unfolding after
    after-some v =
        ap (λ t. t.vulnerabilities)
          (recompute_cve-keeps now owner cve_id
            (store_row search now cve_id (recompute_row search now corpus cve_id v) corpus.tables))

    row_flags :
        (v : Vulnerability)
        → let row = recompute_row search now corpus cve_id v in
          (row.actively_exploited
            ≡ (v.in_kev || is_active v.ssvc_exploitation || any is_report (links_to corpus cve_id)))
          × (row.has_exploit ≡ ltb 0 row.exploit_count)
    unfolding recompute_row recomputed
    row_flags v = (
      evidence_lem v (linked_documents corpus (links_to corpus cve_id)) (links_to corpus cve_id),
      positive (
          filter (λ e. text_eq e.kind (codes "exploit"))
            (linked_exploits corpus (links_to corpus cve_id))),
    )
      where
        positive : (es : List Exploit) → not (is_empty es) ≡ ltb 0 (length es)
        positive [] = refl
        positive (e ∷ es) = ground arith

-- Recomputing a known CVE marks it as actively exploited exactly when it is in KEV, or SSVC says
-- so, or a linked document reports exploitation, and as having an exploit exactly when it counts
-- one; the row of every other CVE is found as it was.
pub recompute_vulnerability_flags :
    (search : Text → Text → Bool) (now : ℕ) (owner : Text) (corpus : Corpus) (cve_id other : Text)
    (v : Vulnerability)
    → find (is_vulnerability cve_id) corpus.tables.vulnerabilities ≡ some v
    → text_eq cve_id other ≡ false
    → let vs = (recompute_vulnerability search now owner corpus cve_id).tables.vulnerabilities in
      (row : Vulnerability) × (find (is_vulnerability cve_id) vs ≡ some row)
      × (row.actively_exploited
          ≡ (v.in_kev || is_active v.ssvc_exploitation || any is_report (links_to corpus cve_id)))
      × (row.has_exploit ≡ ltb 0 row.exploit_count)
      × (find (is_vulnerability other) vs
          ≡ find (is_vulnerability other) corpus.tables.vulnerabilities)
unfolding recompute_vulnerability after
recompute_vulnerability_flags search now owner corpus cve_id other v f h =
    let vs = corpus.tables.vulnerabilities in
    let g = find-some (is_vulnerability cve_id) vs v f in
    let row = recompute_row search now corpus cve_id v in
    let r = is_vulnerability-row now owner cve_id search corpus v g.0 in
    let e = after-some now owner cve_id search corpus v in
    let flags = row_flags now owner cve_id search corpus v in
    (
      row,
      rw (f, e) (find-replaced now owner cve_id row vs r g.1),
      flags.0,
      flags.1,
      rw (f, e) (find-other now owner cve_id other row vs h r),
    )
