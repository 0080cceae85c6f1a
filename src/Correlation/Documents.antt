-- ===== src/Correlation/Documents.antt =====
-- backend/app/services/correlation.py: `process_document`, with `find_cves`, `find_techniques` and
-- `snippet` of backend/app/services/extract.py. What the regular expressions find is a parameter,
-- and so is the dictionary of names.
pub mod Reports
mod Examples
use asber.Base.{
  Bool, Dict, List, Option, Text, [], codes, decimal, drop, false, if◌then◌else◌, is_empty, leb,
  length, lookup, lower, map, none, one_of, some, sorted_set, starts_with, strip, take, true, ℕ,
  ◌++◌, ◌+◌, ◌-◌, ◌==◌, ◌∷◌,
}
use asber.Models.{Document}
use asber.Correlation.Links.{EntityLink}
use asber.Rampart.Reads.Tallies.{number}
use asber.Correlation.Edges.{link_all}

abbrev pub one_more : Option ℕ → Option ℕ
one_more none = none
one_more (some n) = some (n + 1)

-- `text.find(needle)`
unfoldable pub index_of : Text → Text → Option ℕ
unfolding starts_with
index_of needle [] = if is_empty needle then some 0 else none
index_of needle (c ∷ text) =
    let rest = index_of needle text in
    if starts_with (c ∷ text) needle then some 0 else one_more rest

-- The text around the index; 0x2026 is the ellipsis, and the width is 120.
abbrev pub cut_around : Text → Text → Option ℕ → Text
unfolding strip
cut_around text needle none = take 120 text
cut_around text needle (some idx) =
    let start = idx - 60 in
    (if start == 0 then [] else 0x2026 ∷ [])
    ++ (strip (take (idx + length needle + 60 - start) (drop start text)) ++ 0x2026 ∷ [])

unfoldable pub snippet : Text → Text → Text
unfolding index_of lower
snippet text needle = cut_around text needle (index_of (lower needle) (lower text))

-- `list(dict.fromkeys(…))`
abbrev pub once_each : List Text → List Text → List Text
once_each seen [] = []
once_each seen (t ∷ texts) =
    let rest = once_each (t ∷ seen) texts in if one_of t seen then rest else t ∷ rest

-- What is found in a text: the groups of `CVE_RE`, the matches of `TECHNIQUE_RE`, the first match of
-- `EXPLOITATION_PHRASES`; and of the dictionary its version, its technique ids, and the objects
-- with the name that was met.
pub record Finder : Type 0 where
  pub cve_groups : Text → List (Text × Text)
  pub technique_matches : Text → List Text
  pub phrase : Text → Option Text
  pub version : Text
  pub technique_ids : Dict Text
  pub names : Text → List (Text × Text)

abbrev pub normalize_cve : Text × Text → Text
normalize_cve (year, number) = codes "CVE-" ++ (year ++ b'-' ∷ number)

unfoldable pub find_cves : Finder → Text → List Text
find_cves finder text = once_each [] (map normalize_cve (finder.cve_groups text))

unfoldable pub find_techniques : Finder → Text → List Text
find_techniques finder text = once_each [] (finder.technique_matches text)

abbrev pub max_cves_for_strong_link : ℕ
max_cves_for_strong_link = 5

-- The arguments of a call of `link` for a document.
unfoldable pub document_edge : Document → Text → Text → Text → Text → Text → Text → EntityLink
unfolding decimal
document_edge doc object_type object_id relation method confidence evidence = record {
  subject_type = codes "document";
  subject_id = decimal doc.id;
  object_type = object_type;
  object_id = object_id;
  relation = relation;
  method = method;
  confidence = confidence;
  source_key = doc.source_key;
  evidence = some evidence;
  observed_at = doc.published_at;
}

abbrev pub mention_edge : Document → Text → Bool → Text → EntityLink
mention_edge doc text focused cve =
    document_edge doc (codes "cve") cve (codes "mentions") (codes "regex")
      (if focused then codes "high" else codes "low") (snippet text cve)

abbrev pub report_edges : Document → Text → Bool → Option Text → Text → List EntityLink
report_edges doc text focused none cve = []
report_edges doc text focused (some phrase) cve =
    if focused
    then document_edge doc (codes "cve") cve (codes "reports_exploitation") (codes "regex")
        (codes "medium") (snippet text phrase)
      ∷ []
    else []

abbrev pub cve_edges : Document → Text → Bool → Option Text → List Text → List EntityLink
cve_edges doc text focused phrase [] = []
cve_edges doc text focused phrase (cve ∷ cves) =
    mention_edge doc text focused cve ∷ report_edges doc text focused phrase cve
    ++ cve_edges doc text focused phrase cves

abbrev pub technique_edge : Document → Text → Text → Option Text → List EntityLink
technique_edge doc text tech none = []
technique_edge doc text tech (some stix_id) =
    if is_empty stix_id
    then []
    else document_edge doc (codes "attack") stix_id (codes "mentions") (codes "regex")
        (codes "high") (snippet text tech)
      ∷ []

abbrev pub technique_edges : Finder → Document → Text → List Text → List EntityLink
technique_edges finder doc text [] = []
technique_edges finder doc text (tech ∷ techs) =
    technique_edge doc text tech (lookup tech finder.technique_ids)
    ++ technique_edges finder doc text techs

abbrev pub name_edges : Document → Text → List (Text × Text) → List EntityLink
name_edges doc text [] = []
name_edges doc text ((stix_id, matched) ∷ found) =
    document_edge doc (codes "attack") stix_id (codes "mentions") (codes "dictionary")
      (codes "medium") (snippet text matched)
    ∷ name_edges doc text found

abbrev pub document_text : Document → Text → Text
document_text doc full_text = doc.title ++ 10 ∷ full_text

abbrev pub is_focused_text : Finder → Text → Bool
is_focused_text finder text = leb (length (find_cves finder text)) max_cves_for_strong_link

-- The calls of `link`, in order.
unfoldable pub document_edges : Finder → Document → Text → List EntityLink
document_edges finder doc text =
    cve_edges doc text (is_focused_text finder text) (finder.phrase text) (find_cves finder text)
    ++ (technique_edges finder doc text (find_techniques finder text)
        ++ name_edges doc text (finder.names text))

abbrev pub is_some_text : Option Text → Bool
is_some_text none = false
is_some_text (some t) = true

-- The touched CVEs, the document and the edges after it.
unfoldable pub process_document :
    Finder → Document → Text → List EntityLink → List Text × Document × List EntityLink
process_document finder doc full_text links =
    let text = document_text doc full_text in
    (
      sorted_set (find_cves finder text),
      record doc {
        reports_exploitation = is_some_text (finder.phrase text);
        extraction_version = some finder.version;
      },
      link_all (document_edges finder doc text) links,
    )
