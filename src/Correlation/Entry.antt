-- ===== src/Correlation/Entry.antt =====
-- backend/app/services/correlation.py: `get_or_create_vulnerability` and `apply_kev`. A vulnerability
-- is found by its primary key; a date is the second of its midnight.
use asber.Base.{
  Dict, lookup, insert, Bool, List, Option, Text, [], codes, false, filter, if◌then◌else◌, is_empty,
  map, none, not, some, starts_with, true, ℕ, ◌&&◌, ◌++◌, ◌||◌, ◌∷◌,
}
use asber.Models.{AffectedProduct, Vulnerability}
use asber.Correlation.Links.{SourceReference, add_all_missing, is_same_product, is_same_reference}
use asber.Correlation.Merge.{KevEntry, is_absent, is_changed, merge_kev, stamped}

pub record Graph : Type 0 where
  pub vulnerabilities : Dict Vulnerability
  pub references : List SourceReference
  pub products : List AffectedProduct

abbrev pub new_vulnerability : ℕ → Text → Vulnerability
new_vulnerability now cve_id = record {
  cve_id = cve_id;
  title = none;
  description = none;
  vuln_status = none;
  published = none;
  last_modified = none;
  first_seen = now;
  updated_at = now;
  cvss_score = none;
  cvss_severity = none;
  cvss_vector = none;
  cvss_version = none;
  ssvc_exploitation = none;
  ssvc_automatable = none;
  ssvc_technical_impact = none;
  cwes = [];
  vendor = none;
  product = none;
  in_kev = false;
  kev_name = none;
  kev_date_added = none;
  kev_due_date = none;
  kev_required_action = none;
  kev_ransomware = none;
  kev_notes = none;
  actively_exploited = false;
  has_exploit = false;
  has_poc = false;
  exploit_count = 0;
  poc_count = 0;
  source_count = 0;
  tags = [];
  platforms = [];
  relevance_score = 0;
  relevance_reasons = [];
  techniques = [];
  last_activity_at = none;
  nvd_fetched_at = none;
}

-- The row, and whether it is new.
abbrev pub found_or_new : ℕ → Text → Option Vulnerability → Vulnerability × Bool
found_or_new now cve_id (some v) = (v, false)
found_or_new now cve_id none = (new_vulnerability now cve_id, true)

unfoldable pub get_or_create_vulnerability : ℕ → Dict Vulnerability → Text → Vulnerability × Bool
get_or_create_vulnerability now rows cve_id = found_or_new now cve_id (lookup cve_id rows)

-- `needle in text`
unfoldable pub contains : Text → Text → Bool
contains needle [] = is_empty needle
contains needle (c ∷ text) =
    let rest = contains needle text in if starts_with (c ∷ text) needle then true else rest

abbrev pub or_empty : Option Text → Text
or_empty none = []
or_empty (some t) = t

abbrev pub or_id : Text → Option Text → Text
or_id cve_id name = if is_absent name then cve_id else or_empty name

abbrev pub note_reference : KevEntry → Text → SourceReference
note_reference entry url = record {
  cve_id = entry.cve_id;
  source_key = codes "cisa_kev";
  url = url;
  ref_type = codes "vendor_advisory";
  title = some (codes "Vendor advisory (via CISA KEV notes)");
  tags = [];
  published_at = none;
}

abbrev pub is_advisory : Text → Bool
is_advisory url =
    not (
      contains (codes "cisa.gov/news-events/directives") url || contains (codes "nvd.nist.gov") url)

-- The calls of `add_reference`, in order.
unfoldable pub kev_references : KevEntry → List SourceReference
kev_references entry =
    record {
      cve_id = entry.cve_id;
      source_key = codes "cisa_kev";
      url =
          codes "https://www.cisa.gov/known-exploited-vulnerabilities-catalog?search_api_fulltext="
          ++ entry.cve_id;
      ref_type = codes "kev";
      title = some (codes "CISA KEV: " ++ or_id entry.cve_id entry.kev_name);
      tags = [];
      published_at = entry.kev_date_added;
    }
    ∷ map (note_reference entry) (filter is_advisory entry.note_urls)

-- The call of `_ensure_product`, if there is one.
unfoldable pub kev_products : KevEntry → List AffectedProduct
kev_products entry =
    if is_absent entry.vendor && is_absent entry.product
    then []
    else record {
      cve_id = entry.cve_id;
      vendor = or_empty entry.vendor;
      product = or_empty entry.product;
      cpe = [];
      versions = none;
      source_key = codes "cisa_kev";
    }
      ∷ []

unfoldable pub kev_row : ℕ → KevEntry → Vulnerability × Bool → (Bool × Bool) × Vulnerability
kev_row now entry (v, is_new) =
    let merged = merge_kev entry v in
    let changed = is_changed v merged in ((is_new, changed), stamped now (is_new || changed) merged)

-- Whether the row was created and whether it changed, and the tables after it.
unfoldable pub apply_kev : ℕ → KevEntry → Graph → (Bool × Bool) × Graph
apply_kev now entry graph =
    let (flags, row) =
      kev_row now entry (get_or_create_vulnerability now graph.vulnerabilities entry.cve_id) in
    (
      flags,
      record {
        vulnerabilities = insert entry.cve_id row graph.vulnerabilities;
        references = add_all_missing is_same_reference (kev_references entry) graph.references;
        products = add_all_missing is_same_product (kev_products entry) graph.products;
      },
    )
