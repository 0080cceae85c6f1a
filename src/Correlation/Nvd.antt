-- ===== src/Correlation/Nvd.antt =====
-- backend/app/services/correlation.py: `apply_nvd`.
pub mod Again
mod Examples
use asber.Base.{
  Bool, List, Option, Text, [], codes, false, if◌then◌else◌, insert, is_empty, lookup, map, none,
  not, one_of, some, take, true, ℕ, ◌&&◌, ◌++◌, ◌||◌, ◌∷◌,
}
use asber.Correlation.Links.{SourceReference, is_same_product, add_all_missing, is_same_reference}
use asber.Correlation.Merge.{same_text, same_date, stamped, is_absent, same_texts}
use asber.Models.{AffectedProduct, Vulnerability}
use asber.Correlation.Entry.{Graph, get_or_create_vulnerability}

pub record NvdReference : Type 0 where
  pub url : Text
  pub tags : List Text
  pub ref_type : Text

pub record NvdProduct : Type 0 where
  pub vendor : Text
  pub product : Text
  pub cpe : Text
  pub versions : Option Text

-- What `parse_nvd_cve` returns.
pub record NvdEntry : Type 0 where
  pub cve_id : Text
  pub description : Option Text
  pub vuln_status : Option Text
  pub published : Option ℕ
  pub last_modified : Option ℕ
  pub cwes : List Text
  pub products : List NvdProduct
  pub references : List NvdReference
  pub primary_vendor : Option Text
  pub primary_product : Option Text
  pub cvss_score : Option ℕ
  pub cvss_severity : Option Text
  pub cvss_vector : Option Text
  pub cvss_version : Option Text
  pub ssvc_exploitation : Option Text
  pub ssvc_automatable : Option Text
  pub ssvc_technical_impact : Option Text

-- `value[:n]`
abbrev pub cut : ℕ → Option Text → Option Text
cut n none = none
cut n (some t) = some (take n t)

-- `value[:n]` over an empty attribute, if there is a value.
abbrev pub fill_cut : ℕ → Option Text → Option Text → Option Text
fill_cut n old new = if is_absent old && not (is_absent new) then cut n new else old

-- `values[k]` if there is a value.
abbrev pub new_or_old : Option Text → Option Text → Option Text
new_or_old old new = if is_absent new then old else new

abbrev pub new_or_old_cwes : List Text → List Text → List Text
new_or_old_cwes old new = if is_empty new then old else new

-- The attributes after `_assign(vuln, values)`; a time that is the same is left out of `values`.
unfoldable pub merge_nvd : NvdEntry → Vulnerability → Vulnerability
merge_nvd entry v = record v {
  vuln_status = entry.vuln_status;
  published = entry.published;
  last_modified = entry.last_modified;
  cvss_score = entry.cvss_score;
  cvss_severity = entry.cvss_severity;
  cvss_vector = entry.cvss_vector;
  cvss_version = entry.cvss_version;
  ssvc_exploitation = entry.ssvc_exploitation;
  ssvc_automatable = entry.ssvc_automatable;
  ssvc_technical_impact = entry.ssvc_technical_impact;
  description = new_or_old v.description entry.description;
  cwes = new_or_old_cwes v.cwes entry.cwes;
  vendor = fill_cut 200 v.vendor entry.primary_vendor;
  product = fill_cut 300 v.product entry.primary_product;
  title = fill_cut 140 v.title entry.description;
}

-- Whether `_assign` changed an attribute.
unfoldable pub is_changed_nvd : Vulnerability → Vulnerability → Bool
is_changed_nvd v w = not (
    same_text v.vuln_status w.vuln_status
    && same_date v.published w.published
    && same_date v.last_modified w.last_modified
    && same_date v.cvss_score w.cvss_score
    && same_text v.cvss_severity w.cvss_severity
    && same_text v.cvss_vector w.cvss_vector
    && same_text v.cvss_version w.cvss_version
    && same_text v.ssvc_exploitation w.ssvc_exploitation
    && same_text v.ssvc_automatable w.ssvc_automatable
    && same_text v.ssvc_technical_impact w.ssvc_technical_impact
    && same_text v.description w.description
    && same_texts v.cwes w.cwes
    && same_text v.vendor w.vendor
    && same_text v.product w.product
    && same_text v.title w.title)

-- `vuln.nvd_fetched_at = utcnow()`
abbrev pub with_fetch_time : ℕ → Vulnerability → Vulnerability
with_fetch_time now v = record v { nvd_fetched_at = some now }

unfoldable pub nvd_row : ℕ → NvdEntry → Vulnerability × Bool → (Bool × Bool) × Vulnerability
nvd_row now entry (v, is_new) =
    let merged = merge_nvd entry v in
    let changed = is_changed_nvd v merged in
    ((is_new, changed), stamped now (is_new || changed) (with_fetch_time now merged))

abbrev pub page_reference : NvdEntry → Text → Text → Text → SourceReference
page_reference entry key url title = record {
  cve_id = entry.cve_id;
  source_key = key;
  url = url ++ entry.cve_id;
  ref_type = key;
  title = some (title ++ entry.cve_id);
  tags = [];
  published_at = entry.published;
}

abbrev pub listed_reference : NvdEntry → NvdReference → SourceReference
listed_reference entry ref = record {
  cve_id = entry.cve_id;
  source_key = codes "nvd";
  url = ref.url;
  ref_type = ref.ref_type;
  title = none;
  tags = ref.tags;
  published_at = none;
}

-- The references whose URL is not in `seen` yet.
abbrev pub unseen : List Text → List NvdReference → List NvdReference
unseen seen [] = []
unseen seen (ref ∷ refs) =
    let rest = unseen (if one_of ref.url seen then seen else ref.url ∷ seen) refs in
    if one_of ref.url seen then rest else ref ∷ rest

-- The calls of `add_reference`, in order.
unfoldable pub nvd_references : NvdEntry → List SourceReference
nvd_references entry =
    page_reference entry (codes "nvd") (codes "https://nvd.nist.gov/vuln/detail/") (codes "NVD: ")
    ∷ page_reference entry (codes "cve_org") (codes "https://www.cve.org/CVERecord?id=")
        (codes "CVE Record: ")
    ∷ map (listed_reference entry) (unseen [] entry.references)

abbrev pub nvd_product : NvdEntry → NvdProduct → AffectedProduct
nvd_product entry p = record {
  cve_id = entry.cve_id;
  vendor = p.vendor;
  product = p.product;
  cpe = p.cpe;
  versions = p.versions;
  source_key = codes "nvd";
}

-- The calls of `_ensure_product`, in order.
unfoldable pub nvd_products : NvdEntry → List AffectedProduct
nvd_products entry = map (nvd_product entry) (take 500 entry.products)

abbrev pub store_nvd : ℕ → NvdEntry → Graph → Vulnerability × Bool → (Bool × Bool) × Graph
store_nvd now entry graph found =
    let (flags, row) = nvd_row now entry found in
    (
      flags,
      record {
        vulnerabilities = insert entry.cve_id row graph.vulnerabilities;
        references = add_all_missing is_same_reference (nvd_references entry) graph.references;
        products = add_all_missing is_same_product (nvd_products entry) graph.products;
      },
    )

abbrev pub is_none : Option Vulnerability → Bool
is_none none = true
is_none (some v) = false

-- Whether the row was created and whether it changed, and the tables after it.
unfoldable pub apply_nvd : ℕ → Bool → NvdEntry → Graph → (Bool × Bool) × Graph
apply_nvd now track_new entry graph =
    if is_none (lookup entry.cve_id graph.vulnerabilities) && not track_new
    then ((false, false), graph)
    else store_nvd now entry graph
        (get_or_create_vulnerability now graph.vulnerabilities entry.cve_id)
