-- ===== src/Correlation/Recompute/Vuln.antt =====
-- backend/app/services/correlation.py: `recompute_vulnerability` and `recompute_many`.
use asber.Base.{
  Bool, List, Option, Text, [], any, codes, false, filter, find, if◌then◌else◌, is_empty, join,
  length, lower, map, none, not, some, sorted_set, text_eq, ℕ, ◌++◌, ◌+◌, ◌||◌, ◌∷◌,
}
use asber.Models.{Vulnerability, Document, Exploit, AttackObject}
use asber.Scoring.{compute_relevance}
use asber.Extract.{classify_impact, classify_platforms, internet_facing_pattern, ransomware_pattern}
use asber.Rampart.Tables.{Tables}
use asber.Rampart.Repository.{recompute_cve, is_vulnerability, products_of}
use asber.Correlation.Recompute.Signals.{
  Corpus, co_mentioned_attack, exploitation_evidence, independent_sources_of, is_focused, latest,
  linked_documents, linked_exploits, links_to, signals_of,
}
use asber.Correlation.Recompute.Techniques.{heuristic_techniques, techniques_of, given}
use asber.Correlation.Links.{EntityLink}
use asber.Correlation.Entry.{or_empty}

module _ (search : Text → Text → Bool) (now : ℕ) where
  -- `(vuln.kev_ransomware or "").lower() == "known"`, or a focused document that says so.
  unfoldable pub is_ransomware : Vulnerability → List Document → Bool
  unfolding lower
  is_ransomware v focused =
      text_eq (lower (or_empty v.kev_ransomware)) (codes "known")
      || any (λ d. search ransomware_pattern (d.title ++ (codes " " ++ or_empty d.summary))) focused

  abbrev pub is_actor : AttackObject → Bool
  is_actor a = text_eq a.obj_type (codes "group") || text_eq a.obj_type (codes "campaign")

  abbrev pub is_poc_ssvc : Option Text → Bool
  is_poc_ssvc none = false
  is_poc_ssvc (some ssvc) = text_eq ssvc (codes "poc")

  -- What the row is after the assignments, from its own attributes and what is linked to it.
  unfoldable pub recomputed :
      Corpus → Text → List EntityLink → List Document → List Exploit → Vulnerability → Vulnerability
  recomputed corpus cve_id links docs exploits v =
      let public_exploits = filter (λ e. text_eq e.kind (codes "exploit")) exploits in
      let pocs = filter (λ e. text_eq e.kind (codes "poc")) exploits in
      let evidence = exploitation_evidence v docs links in
      let attack = co_mentioned_attack corpus links docs in
      let blob = join (codes " ") (given (v.title ∷ v.kev_name ∷ v.description ∷ [])) in
      let product_blob = join (codes " ") (given (v.vendor ∷ v.product ∷ v.kev_name ∷ [])) in
      let tags = classify_impact search blob v.cwes in
      let internet_facing = search internet_facing_pattern product_blob in
      let independent = independent_sources_of corpus cve_id docs exploits in
      let signals = signals_of v docs exploits in
      let result =
        compute_relevance
          (record {
            in_kev = v.in_kev;
            active_exploitation_evidence = evidence;
            ransomware = is_ransomware v (filter (is_focused links) docs);
            exploit_count = length public_exploits;
            poc_count = length pocs;
            ssvc_poc = is_poc_ssvc v.ssvc_exploitation;
            threat_actors = sorted_set (map (λ a. a.name) (filter is_actor attack));
            tags = tags;
            internet_facing = internet_facing;
            cvss_score = v.cvss_score;
            independent_sources = length independent;
            most_recent_signal = latest signals;
            affected_product_count = length (products_of corpus.tables cve_id);
          })
          now in
      record v {
        tags = tags;
        platforms = classify_platforms search (product_blob ++ (codes " " ++ blob));
        actively_exploited = not (is_empty evidence);
        exploit_count = length public_exploits;
        poc_count = length pocs;
        has_exploit = not (is_empty public_exploits);
        has_poc = not (is_empty pocs) || is_poc_ssvc v.ssvc_exploitation;
        source_count = length independent;
        relevance_score = result.score;
        relevance_reasons = result.reasons;
        last_activity_at = latest signals;
        techniques = techniques_of attack (heuristic_techniques v tags internet_facing);
      }

  -- The row of a CVE, from the tables.
  unfoldable pub recompute_row : Corpus → Text → Vulnerability → Vulnerability
  recompute_row corpus cve_id v =
      let links = links_to corpus cve_id in
      recomputed corpus cve_id links (linked_documents corpus links) (linked_exploits corpus links)
        v

  abbrev pub store_row : Text → Vulnerability → Tables → Tables
  store_row cve_id row db = record db {
    vulnerabilities = map (λ w. if is_vulnerability cve_id w then row else w) db.vulnerabilities;
  }

  abbrev pub recompute_known : Text → Corpus → Text → Option Vulnerability → Corpus
  recompute_known owner corpus cve_id none = corpus
  recompute_known owner corpus cve_id (some v) =
      let db = store_row cve_id (recompute_row corpus cve_id v) corpus.tables in
      record corpus { tables = (recompute_cve now db owner cve_id).1 }

  -- `owner` is `current_owner()`.
  unfoldable pub recompute_vulnerability : Text → Corpus → Text → Corpus
  recompute_vulnerability owner corpus cve_id =
      recompute_known owner corpus cve_id
        (find (is_vulnerability cve_id) corpus.tables.vulnerabilities)

  -- The loop over the known ids; the chunks of 500 only bound each query.
  abbrev pub recompute_each : Text → List Text → Corpus → ℕ × Corpus
  recompute_each owner [] corpus = (0, corpus)
  recompute_each owner (cve_id ∷ ids) corpus =
      let (n, after) = recompute_each owner ids (recompute_vulnerability owner corpus cve_id) in
      (n + 1, after)

  unfoldable pub recompute_many : Text → Corpus → List Text → ℕ × Corpus
  recompute_many owner corpus cve_ids =
      recompute_each owner
        (filter (λ k. any (is_vulnerability k) corpus.tables.vulnerabilities) (sorted_set cve_ids))
        corpus
