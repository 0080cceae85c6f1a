-- ===== src/Correlation/Documents/Examples.antt =====
-- Documents at concrete texts.
use asber.Base.{
  [], codes, false, filter, length, none, refl, some, sorted_set, true, ◌&&◌, ◌∷◌, ◌≡◌, All, any,
  ◌⊎◌,
}
use asber.Models.{Document}
use asber.Correlation.Documents.{
  find_cves, document_text, Finder, process_document, is_focused_text,
}
use asber.Correlation.Documents.Reports.{process_document_reports, is_reporting, reports_on}

-- A finder of six CVEs and a phrase.
abbrev roundup_finder : Finder
roundup_finder = record {
  cve_groups = λ text.
      (codes "2024", codes "0001")
      ∷ (codes "2024", codes "0002")
      ∷ (codes "2024", codes "0003")
      ∷ (codes "2024", codes "0004")
      ∷ (codes "2024", codes "0005")
      ∷ (codes "2024", codes "0006")
      ∷ (codes "2024", codes "0001")
      ∷ [];
  technique_matches = λ text. [];
  phrase = λ text. some (codes "exploited in the wild");
  version = codes "1";
  technique_ids = [];
  names = λ text. [];
}

abbrev roundup : Document
roundup = record {
  id = 3;
  source_key = codes "talos";
  url = codes "https://example.org/r";
  title = codes "Patch Tuesday";
  summary = none;
  doc_type = codes "article";
  tier = 2;
  authors = [];
  categories = [];
  content_hash = codes "0";
  reports_exploitation = false;
  published_at = none;
  extraction_version = none;
}

roundup_touches : length (process_document roundup_finder roundup (codes "six") []).0 ≡ 6
unfolding process_document find_cves sorted_set
roundup_touches = refl

roundup_is_unfocused :
    is_focused_text roundup_finder (document_text roundup (codes "six")) && true ≡ false
unfolding find_cves
roundup_is_unfocused = refl

process_document_reports_example :
    ((is_focused_text roundup_finder (document_text roundup (codes "six")) && true ≡ false)
      × (filter is_reporting (process_document roundup_finder roundup (codes "six") []).2
          ≡ filter is_reporting []))
    ⊎ ((is_focused_text roundup_finder (document_text roundup (codes "six")) && true ≡ true)
        × All
            (λ cve.
              any
                (reports_on roundup cve)
                (process_document roundup_finder roundup (codes "six") []).2
              ≡ true)
            (find_cves roundup_finder (document_text roundup (codes "six"))))
process_document_reports_example = process_document_reports roundup_finder roundup (codes "six") []
