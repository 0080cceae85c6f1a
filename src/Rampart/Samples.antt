-- ===== src/Rampart/Samples.antt =====
-- Rows to run the environment on.
use asber.Base.{Text, [], codes, false, none, some, true, ◌∷◌}
use asber.Rampart.Repository.{AssetFields, set_fields}
use asber.Models.{EnvironmentAsset, Vulnerability, AffectedProduct}
use asber.Rampart.Tables.{Tables}

abbrev pub ann : Text
ann = codes "ann"

abbrev pub bob : Text
bob = codes "bob"

abbrev pub server_fields : AssetFields
server_fields = record {
  label = codes "files";
  category = codes "os";
  vendor = codes "Microsoft";
  product = codes "Windows Server 2019";
  version = some (codes "10.0.17763");
  cpe = none;
  catalogued = true;
  hardware_model = none;
  notes = none;
}

abbrev pub server : EnvironmentAsset
server = set_fields 0 ann 0 server_fields

abbrev pub advisory : Text → AffectedProduct
advisory product = record {
  cve_id = codes "CVE-2024-0001";
  vendor = codes "microsoft";
  product = product;
  cpe = [];
  versions = some (codes "< 10.0.20000");
  source_key = codes "nvd";
}

abbrev pub known : Vulnerability
known = record {
  cve_id = codes "CVE-2024-0001";
  title = none;
  description = none;
  vuln_status = none;
  published = none;
  last_modified = none;
  first_seen = 0;
  updated_at = 0;
  cvss_score = none;
  cvss_severity = none;
  cvss_vector = none;
  cvss_version = none;
  ssvc_exploitation = none;
  ssvc_automatable = none;
  ssvc_technical_impact = none;
  cwes = [];
  vendor = none;
  product = none;
  in_kev = false;
  kev_name = none;
  kev_date_added = none;
  kev_due_date = none;
  kev_required_action = none;
  kev_ransomware = none;
  kev_notes = none;
  actively_exploited = false;
  has_exploit = false;
  has_poc = false;
  exploit_count = 0;
  poc_count = 0;
  source_count = 0;
  tags = [];
  platforms = [];
  relevance_score = 0;
  relevance_reasons = [];
  techniques = [];
  last_activity_at = none;
  nvd_fetched_at = none;
}

-- One asset of ann's, and one vulnerability whose product is spelled as given.
abbrev pub one_asset : Text → Tables
one_asset product = record {
  environments =
      record { id = 0; owner_id = ann; name = codes "My environment"; kind = codes "inventory" }
      ∷ [];
  next_environment = 1;
  assets = server ∷ [];
  next_asset = 1;
  matches = [];
  next_match = 0;
  vulnerabilities = known ∷ [];
  affected_products = advisory product ∷ [];
}

abbrev pub spaced : Tables
spaced = one_asset (codes "windows server 2019")

abbrev pub underscored : Tables
underscored = one_asset (codes "windows_server_2019")
