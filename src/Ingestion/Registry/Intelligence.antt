-- ===== src/Ingestion/Registry/Intelligence.antt =====
-- backend/app/ingestion/registry.py: the first entries of `SOURCE_REGISTRY`.
use asber.Base.{[], codes, false, none, some, ◌*◌, ◌∷◌}
use asber.Ingestion.Registry.Defs.{SourceDef, defaults, minute, hour}

abbrev pub cisa_kev_source : SourceDef
cisa_kev_source = record defaults {
  key = codes "cisa_kev";
  name = codes "CISA Known Exploited Vulnerabilities";
  homepage = codes "https://www.cisa.gov/known-exploited-vulnerabilities-catalog";
  endpoint =
      codes "https://www.cisa.gov/sites/default/files/feeds/known_exploited_vulnerabilities.json";
  category = codes "vulnerability";
  source_type = codes "Government Advisory";
  tier = 1;
  method = codes "json";
  interval = 15 * minute;
  worker = some (codes "cisa_kev");
  rate_limit = codes "No published limit; conditional GET (ETag/Last-Modified) used.";
  fields =
      codes "cveID"
      ∷ codes "vendorProject"
      ∷ codes "product"
      ∷ codes "vulnerabilityName"
      ∷ codes "dateAdded"
      ∷ codes "shortDescription"
      ∷ codes "requiredAction"
      ∷ codes "dueDate"
      ∷ codes "knownRansomwareCampaignUse"
      ∷ codes "notes"
      ∷ codes "cwes"
      ∷ [];
  notes = codes "Mirror: https://github.com/cisagov/kev-data. CSV also available.";
}

abbrev pub nvd_source : SourceDef
nvd_source = record defaults {
  key = codes "nvd";
  name = codes "NIST National Vulnerability Database";
  homepage = codes "https://nvd.nist.gov/";
  endpoint = codes "https://services.nvd.nist.gov/rest/json/cves/2.0";
  category = codes "vulnerability";
  source_type = codes "Government Database";
  tier = 1;
  method = codes "api";
  interval = 30 * minute;
  worker = some (codes "nvd");
  auth_env = some (codes "NVD_API_KEY");
  rate_limit = codes "5 requests / 30 s without key; 50 / 30 s with NVD_API_KEY.";
  fields =
      codes "id"
      ∷ codes "descriptions"
      ∷ codes "metrics(CVSS v4/v3.1/v3.0/v2, SSVC)"
      ∷ codes "weaknesses"
      ∷ codes "configurations(CPE)"
      ∷ codes "affected"
      ∷ codes "references"
      ∷ codes "published"
      ∷ codes "lastModified"
      ∷ codes "vulnStatus"
      ∷ [];
  notes =
      codes
        "Incremental sync via lastModStartDate/lastModEndDate (max 120-day window). Local cache per CVE.";
  max_bytes = 80 * 1024 * 1024;
}

abbrev pub cve_org_source : SourceDef
cve_org_source = record defaults {
  key = codes "cve_org";
  name = codes "CVE.org (CVE Services)";
  homepage = codes "https://www.cve.org/";
  endpoint = codes "https://cveawg.mitre.org/api/cve/{cve_id}";
  category = codes "vulnerability";
  source_type = codes "CVE Program (CNA records)";
  tier = 1;
  method = codes "api";
  interval = 24 * hour;
  worker = none;
  rate_limit = codes "Public read endpoint; used only as a reference link, not polled.";
  fields = codes "cveMetadata" ∷ codes "containers.cna" ∷ [];
  notes = codes "Used for validation/reference links on CVE pages. Not polled in Phase 1.";
}

abbrev pub mitre_attack_source : SourceDef
mitre_attack_source = record defaults {
  key = codes "mitre_attack";
  name = codes "MITRE ATT&CK (Enterprise)";
  homepage = codes "https://attack.mitre.org/";
  endpoint =
      codes "https://raw.githubusercontent.com/mitre-attack/attack-stix-data/master/index.json";
  category = codes "attack";
  source_type = codes "Knowledge Base (STIX 2.1)";
  tier = 1;
  method = codes "stix";
  interval = 6 * hour;
  worker = some (codes "mitre_attack");
  rate_limit =
      codes "GitHub raw content; checked against index.json version before downloading (~55 MB).";
  fields =
      codes "attack-pattern"
      ∷ codes "x-mitre-tactic"
      ∷ codes "intrusion-set"
      ∷ codes "malware"
      ∷ codes "tool"
      ∷ codes "campaign"
      ∷ codes "course-of-action"
      ∷ codes "x-mitre-data-source"
      ∷ codes "x-mitre-data-component"
      ∷ codes "x-mitre-detection-strategy"
      ∷ codes "x-mitre-analytic"
      ∷ codes "relationship"
      ∷ [];
  notes =
      codes
        "TAXII 2.1 alternative: https://attack-taxii.mitre.org/api/v21/ (requires Accept: application/taxii+json;version=2.1).";
  max_bytes = 150 * 1024 * 1024;
}

abbrev pub exploitdb_source : SourceDef
exploitdb_source = record defaults {
  key = codes "exploitdb";
  name = codes "Exploit Database (OffSec)";
  homepage = codes "https://www.exploit-db.com/";
  endpoint = codes "https://gitlab.com/exploit-database/exploitdb/-/raw/main/files_exploits.csv";
  category = codes "exploit";
  source_type = codes "Exploit Archive";
  tier = 2;
  method = codes "git";
  interval = 1 * hour;
  worker = some (codes "exploitdb");
  rate_limit = codes "GitLab raw file (~10 MB); conditional GET.";
  fields =
      codes "id"
      ∷ codes "description"
      ∷ codes "date_published"
      ∷ codes "author"
      ∷ codes "type"
      ∷ codes "platform"
      ∷ codes "codes"
      ∷ codes "tags"
      ∷ codes "date_added"
      ∷ codes "date_updated"
      ∷ codes "verified"
      ∷ [];
  notes =
      codes
        "The GitHub repo offensive-security/exploit-database is ARCHIVED (2022); official repo is on GitLab. Exploit code is never downloaded.";
}

abbrev pub github_source : SourceDef
github_source = record defaults {
  key = codes "github";
  name = codes "GitHub (PoC / research search)";
  homepage = codes "https://github.com/";
  endpoint = codes "https://api.github.com/search/repositories";
  category = codes "exploit";
  source_type = codes "Community Repository";
  tier = 4;
  method = codes "api";
  interval = 1 * hour;
  worker = some (codes "github");
  auth_env = some (codes "GITHUB_TOKEN");
  rate_limit = codes "Search API: 10 req/min unauthenticated, 30 req/min with GITHUB_TOKEN.";
  fields =
      codes "full_name"
      ∷ codes "html_url"
      ∷ codes "description"
      ∷ codes "stargazers_count"
      ∷ codes "language"
      ∷ codes "created_at"
      ∷ codes "pushed_at"
      ∷ codes "fork"
      ∷ codes "archived"
      ∷ [];
  notes =
      codes
        "Targeted queries only (prioritised CVEs + configured queries + watched repos). Never clones code.";
}

abbrev pub project_zero_source : SourceDef
project_zero_source = record defaults {
  key = codes "project_zero";
  name = codes "Google Project Zero";
  homepage = codes "https://projectzero.google/";
  endpoint = codes "https://projectzero.google/feed.xml";
  category = codes "research";
  source_type = codes "Original Researcher";
  tier = 1;
  method = codes "rss";
  interval = 1 * hour;
  phase = 2;
  enabled_by_default = false;
  worker = some (codes "feed");
  doc_type = some (codes "research");
  rate_limit = codes "Static feed (~13 MB, full content); conditional GET.";
  notes = codes "Legacy Blogspot feed redirects. Feed is large; enable when needed.";
  max_bytes = 40 * 1024 * 1024;
}

abbrev pub msrc_source : SourceDef
msrc_source = record defaults {
  key = codes "msrc";
  name = codes "Microsoft Security Response Center";
  homepage = codes "https://msrc.microsoft.com/";
  endpoint = codes "https://api.msrc.microsoft.com/update-guide/rss";
  category = codes "vulnerability";
  source_type = codes "Vendor Advisory";
  tier = 1;
  method = codes "rss";
  interval = 1 * hour;
  phase = 2;
  enabled_by_default = false;
  worker = some (codes "feed");
  doc_type = some (codes "advisory");
  rate_limit =
      codes "Public; CVRF API also available at https://api.msrc.microsoft.com/cvrf/v3.0/updates.";
  notes =
      codes "Phase 2 will use the CVRF v3 API for Patch Tuesday structure and exploitation flags.";
  max_bytes = 10 * 1024 * 1024;
}

abbrev pub unit42_source : SourceDef
unit42_source = record defaults {
  key = codes "unit42";
  name = codes "Palo Alto Networks Unit 42";
  homepage = codes "https://unit42.paloaltonetworks.com/";
  endpoint = codes "https://unit42.paloaltonetworks.com/feed/";
  category = codes "threat_intel";
  source_type = codes "Security Research Organization";
  tier = 2;
  method = codes "rss";
  interval = 1 * hour;
  worker = some (codes "feed");
  doc_type = some (codes "research");
}

abbrev pub talos_source : SourceDef
talos_source = record defaults {
  key = codes "talos";
  name = codes "Cisco Talos Intelligence";
  homepage = codes "https://blog.talosintelligence.com/";
  endpoint = codes "https://blog.talosintelligence.com/rss/";
  category = codes "threat_intel";
  source_type = codes "Security Research Organization";
  tier = 2;
  method = codes "rss";
  interval = 1 * hour;
  worker = some (codes "feed");
  doc_type = some (codes "research");
  notes = codes "Ghost-based blog; feed includes full content (~1 MB).";
}

abbrev pub mandiant_source : SourceDef
mandiant_source = record defaults {
  key = codes "mandiant";
  name = codes "Google Threat Intelligence (Mandiant)";
  homepage = codes "https://cloud.google.com/blog/topics/threat-intelligence";
  endpoint = codes "https://cloudblog.withgoogle.com/topics/threat-intelligence/rss/";
  category = codes "threat_intel";
  source_type = codes "Security Research Organization";
  tier = 2;
  method = codes "rss";
  interval = 1 * hour;
  phase = 2;
  enabled_by_default = false;
  worker = some (codes "feed");
  doc_type = some (codes "research");
}

abbrev pub sentinellabs_source : SourceDef
sentinellabs_source = record defaults {
  key = codes "sentinellabs";
  name = codes "SentinelLabs";
  homepage = codes "https://www.sentinelone.com/labs/";
  endpoint = codes "https://www.sentinelone.com/labs/feed/";
  category = codes "threat_intel";
  source_type = codes "Security Research Organization";
  tier = 2;
  method = codes "rss";
  interval = 1 * hour;
  phase = 2;
  enabled_by_default = false;
  worker = some (codes "feed");
  doc_type = some (codes "research");
}
