-- ===== src/Correlation/Recompute/Signals.antt =====
-- backend/app/services/correlation.py: `linked_subjects`, `co_mentioned_attack` and the evidence,
-- the sources and the times that `recompute_vulnerability` collects. A query without an order
-- returns the rows as the table has them. The subjects of the links are ids, printed by `str`.
use asber.Base.{
  Bool, List, Option, Text, [], any, codes, decimal, false, filter, find, if◌then◌else◌, int, map,
  max, none, not, one_of, some, sorted_set, text_eq, ℕ, ◌&&◌, ◌++◌, ◌==◌, ◌∷◌,
}
use asber.Models.{Vulnerability, Document, Exploit, AttackObject}
use asber.Correlation.Links.{EntityLink, SourceReference}
use asber.Rampart.Tables.{Tables}
use asber.Ingestion.Registry.Table.{registry_by_key}
use asber.Ingestion.Registry.Defs.{SourceDef}

-- The tables that the correlation reads and writes.
pub record Corpus : Type 0 where
  pub tables : Tables
  pub links : List EntityLink
  pub documents : List Document
  pub exploits : List Exploit
  pub attack_objects : List AttackObject
  pub references : List SourceReference

abbrev pub name_or : Text → Option SourceDef → Text
name_or key none = key
name_or key (some sdef) = sdef.name

unfoldable pub source_name : Text → Text
source_name key = name_or key (registry_by_key key)

abbrev pub is_about : Text → EntityLink → Bool
is_about cve_id l = text_eq l.object_type (codes "cve") && text_eq l.object_id cve_id

unfoldable pub links_to : Corpus → Text → List EntityLink
links_to corpus cve_id = filter (is_about cve_id) corpus.links

abbrev pub is_from : Text → EntityLink → Bool
is_from subject_type l = text_eq l.subject_type subject_type

-- `{int(l.subject_id) for l in links if l.subject_type == …}`, and the test whether an id is in it.
unfoldable pub has_subject : Text → List EntityLink → ℕ → Bool
unfolding int
has_subject subject_type links id =
    any (λ l. int l.subject_id == id) (filter (is_from subject_type) links)

unfoldable pub linked_documents : Corpus → List EntityLink → List Document
linked_documents corpus links =
    filter (λ d. has_subject (codes "document") links d.id) corpus.documents

unfoldable pub linked_exploits : Corpus → List EntityLink → List Exploit
linked_exploits corpus links =
    filter (λ e. has_subject (codes "exploit") links e.id) corpus.exploits

abbrev pub is_focused_link : EntityLink → Bool
is_focused_link l = text_eq l.relation (codes "mentions") && text_eq l.confidence (codes "high")

-- `focused`
unfoldable pub is_focused : List EntityLink → Document → Bool
unfolding has_subject
is_focused links d = has_subject (codes "document") (filter is_focused_link links) d.id

abbrev pub names_object : EntityLink → AttackObject → Bool
names_object l a = text_eq a.stix_id l.object_id

-- The objects that the links of the focused documents name, in the order of the links.
abbrev pub objects_of : List AttackObject → List EntityLink → List AttackObject
objects_of objects [] = []
objects_of objects (l ∷ links) = filter (names_object l) objects ++ objects_of objects links

unfoldable pub co_mentioned_attack : Corpus → List EntityLink → List Document → List AttackObject
co_mentioned_attack corpus links docs =
    let ids = map (λ d. decimal d.id) (filter (is_focused links) docs) in
    objects_of corpus.attack_objects (
      filter
        (λ l.
          is_from (codes "document") l
          && one_of l.subject_id ids
          && text_eq l.object_type (codes "attack"))
        corpus.links)

abbrev pub report_source : EntityLink → Option Document → Text
report_source l none = source_name l.source_key
report_source l (some d) = source_name d.source_key

abbrev pub is_report : EntityLink → Bool
is_report l = text_eq l.relation (codes "reports_exploitation") && is_from (codes "document") l

abbrev pub report_names : List Document → List EntityLink → List Text
report_names docs [] = []
report_names docs (l ∷ links) =
    let rest = report_names docs links in
    if is_report l then report_source l (find (λ d. d.id == int l.subject_id) docs) ∷ rest else rest

abbrev pub is_active : Option Text → Bool
is_active none = false
is_active (some ssvc) = text_eq ssvc (codes "active")

-- `evidence`
unfoldable pub exploitation_evidence : Vulnerability → List Document → List EntityLink → List Text
exploitation_evidence v docs links =
    (if v.in_kev then codes "CISA KEV" ∷ [] else [])
    ++ ((if is_active v.ssvc_exploitation then codes "CISA SSVC (via NVD)" ∷ [] else [])
        ++ report_names docs links)

-- `[s for s in signals if s]`
abbrev pub known_times : List (Option ℕ) → List ℕ
known_times [] = []
known_times (none ∷ signals) = known_times signals
known_times (some t ∷ signals) = t ∷ known_times signals

abbrev pub greatest : ℕ → List ℕ → ℕ
greatest t [] = t
greatest t (u ∷ signals) = greatest (max t u) signals

-- `max(signals) if signals else None`
abbrev pub latest : List ℕ → Option ℕ
latest [] = none
latest (t ∷ signals) = some (greatest t signals)

unfoldable pub signals_of : Vulnerability → List Document → List Exploit → List ℕ
signals_of v docs exploits = known_times (
    v.published ∷ v.kev_date_added ∷ map (λ d. d.published_at) docs
    ++ map (λ e. e.published_at) exploits)

-- `independent`, without the mirror of the CNA's record.
unfoldable pub independent_sources_of : Corpus → Text → List Document → List Exploit → List Text
independent_sources_of corpus cve_id docs exploits = sorted_set (
    filter (λ k. not (text_eq k (codes "cve_org")))
      (map (λ r. r.source_key) (filter (λ r. text_eq r.cve_id cve_id) corpus.references))
    ++ (map (λ d. d.source_key) docs ++ map (λ e. e.source_key) exploits))
