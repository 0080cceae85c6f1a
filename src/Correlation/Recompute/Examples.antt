-- ===== src/Correlation/Recompute/Examples.antt =====
-- The theorems on recomputing a CVE at concrete tables.
use asber.Base.{
  Bool, List, Text, [], any, codes, false, find, ltb, none, refl, some, true, ◌||◌, ◌∷◌, ◌≡◌,
}
use asber.Models.{Document, Vulnerability}
use asber.Correlation.Recompute.Signals.{is_active, Corpus, links_to, is_report}
use asber.Correlation.Recompute.Vuln.{recompute_vulnerability}
use asber.Correlation.Recompute.Flags.{recompute_vulnerability_flags}
use asber.Correlation.Entry.{contains}
use asber.Correlation.Recompute.Twice.{recompute_vulnerability_twice, corpus_without_keys}
use asber.Correlation.Links.{EntityLink}
use asber.Rampart.Samples.{known, spaced, ann}
use asber.Rampart.Repository.{is_vulnerability}

-- `re.search` for patterns without operators.
abbrev search : Text → Text → Bool
search pattern text = contains pattern text

abbrev cve_id : Text
cve_id = known.cve_id

abbrev article : Document
article = record {
  id = 1;
  source_key = codes "talos";
  url = codes "https://example.org/a";
  title = codes "Attacks on file servers";
  summary = some (codes "ransomware crews use the flaw");
  doc_type = codes "article";
  tier = 2;
  authors = [];
  categories = [];
  content_hash = codes "0";
  reports_exploitation = true;
  published_at = some 86400;
  extraction_version = none;
}

abbrev edge : Text → EntityLink
edge relation = record {
  subject_type = codes "document";
  subject_id = codes "1";
  object_type = codes "cve";
  object_id = cve_id;
  relation = relation;
  method = codes "regex";
  confidence = codes "high";
  source_key = codes "talos";
  evidence = none;
  observed_at = none;
}

abbrev corpus : Corpus
corpus = record {
  tables = spaced;
  links = edge (codes "mentions") ∷ edge (codes "reports_exploitation") ∷ [];
  documents = article ∷ [];
  exploits = [];
  attack_objects = [];
  references = [];
}

recompute_vulnerability_twice_example :
    corpus_without_keys (
      recompute_vulnerability search 172800 ann
        (recompute_vulnerability search 172800 ann corpus cve_id)
        cve_id)
    ≡ corpus_without_keys (recompute_vulnerability search 172800 ann corpus cve_id)
recompute_vulnerability_twice_example =
    recompute_vulnerability_twice search 172800 ann corpus cve_id

abbrev rows : List Vulnerability
rows = (recompute_vulnerability search 172800 ann corpus cve_id).tables.vulnerabilities

recompute_vulnerability_flags_example :
    (row : Vulnerability) × (find (is_vulnerability cve_id) rows ≡ some row)
    × (row.actively_exploited ≡ (false || is_active none || any is_report (links_to corpus cve_id)))
    × (row.has_exploit ≡ ltb 0 row.exploit_count)
    × (find (is_vulnerability (codes "CVE-2024-0002")) rows
        ≡ find (is_vulnerability (codes "CVE-2024-0002")) spaced.vulnerabilities)
recompute_vulnerability_flags_example =
    recompute_vulnerability_flags search 172800 ann corpus cve_id (codes "CVE-2024-0002") known refl
      refl
