-- ===== src/Ingestion/Registry/Feeds.antt =====
-- backend/app/ingestion/registry.py: the later entries of `SOURCE_REGISTRY`.
use asber.Base.{codes, false, none, some, true, ◌*◌}
use asber.Ingestion.Registry.Defs.{SourceDef, defaults, minute, hour}

abbrev pub crowdstrike_source : SourceDef
crowdstrike_source = record defaults {
  key = codes "crowdstrike";
  name = codes "CrowdStrike Blog";
  homepage = codes "https://www.crowdstrike.com/en-us/blog/";
  endpoint = codes "https://www.crowdstrike.com/en-us/blog/feed";
  category = codes "threat_intel";
  source_type = codes "Security Research Organization";
  tier = 2;
  method = codes "rss";
  interval = 1 * hour;
  phase = 2;
  enabled_by_default = false;
  worker = some (codes "feed");
  doc_type = some (codes "research");
  notes = codes "Feed mixes marketing and research posts.";
}

abbrev pub qualys_source : SourceDef
qualys_source = record defaults {
  key = codes "qualys";
  name = codes "Qualys Threat Research";
  homepage = codes "https://blog.qualys.com/";
  endpoint = codes "https://blog.qualys.com/feed";
  category = codes "threat_intel";
  source_type = codes "Security Research Organization";
  tier = 2;
  method = codes "rss";
  interval = 1 * hour;
  phase = 2;
  enabled_by_default = false;
  worker = some (codes "feed");
  doc_type = some (codes "research");
  notes = codes "Feed mixes product and research posts.";
}

abbrev pub bleepingcomputer_source : SourceDef
bleepingcomputer_source = record defaults {
  key = codes "bleepingcomputer";
  name = codes "BleepingComputer";
  homepage = codes "https://www.bleepingcomputer.com/";
  endpoint = codes "https://www.bleepingcomputer.com/feed/";
  category = codes "news";
  source_type = codes "Security News";
  tier = 3;
  method = codes "rss";
  interval = 30 * minute;
  worker = some (codes "feed");
  doc_type = some (codes "news");
  rate_limit = codes "robots.txt Crawl-delay 2–10 s; one feed request per interval.";
}

abbrev pub krebs_source : SourceDef
krebs_source = record defaults {
  key = codes "krebs";
  name = codes "Krebs on Security";
  homepage = codes "https://krebsonsecurity.com/";
  endpoint = codes "https://krebsonsecurity.com/feed/";
  category = codes "news";
  source_type = codes "Security News";
  tier = 3;
  method = codes "rss";
  interval = 30 * minute;
  worker = some (codes "feed");
  doc_type = some (codes "news");
  rate_limit = codes "robots.txt Crawl-delay 35 s; one feed request per interval.";
  notes = codes "Served with Content-Type text/html but body is valid RSS 2.0.";
}

abbrev pub therecord_source : SourceDef
therecord_source = record defaults {
  key = codes "therecord";
  name = codes "The Record (Recorded Future News)";
  homepage = codes "https://therecord.media/";
  endpoint = codes "https://therecord.media/feed";
  category = codes "news";
  source_type = codes "Security News";
  tier = 3;
  method = codes "rss";
  interval = 30 * minute;
  worker = some (codes "feed");
  doc_type = some (codes "news");
}

abbrev pub sigma_source : SourceDef
sigma_source = record defaults {
  key = codes "sigma";
  name = codes "SigmaHQ rules";
  homepage = codes "https://sigmahq.io/";
  endpoint = codes "https://api.github.com/repos/SigmaHQ/sigma/releases/latest";
  category = codes "detection";
  source_type = codes "Community Detection Rules (curated)";
  tier = 2;
  method = codes "git";
  interval = 6 * hour;
  phase = 2;
  enabled_by_default = false;
  worker = some (codes "sigma");
  max_bytes = 40 * 1024 * 1024;
  notes =
      codes
        "Rule archive from the latest release; YAML parsed as data, never executed. attack.tXXXX and cve.YYYY-NNNN tags become explicit edges.";
}

abbrev pub yara_source : SourceDef
yara_source = record defaults {
  key = codes "yara";
  name = codes "YARA (VirusTotal)";
  homepage = codes "https://virustotal.github.io/yara/";
  endpoint = codes "https://api.github.com/repos/VirusTotal/yara/releases/latest";
  category = codes "detection";
  source_type = codes "Tooling";
  tier = 2;
  method = codes "git";
  interval = 6 * hour;
  phase = 2;
  enabled_by_default = false;
  worker = none;
  notes =
      codes
        "Engine repo only (no rules). Phase 2: track releases + curated rule repos via GITHUB_WATCH_REPOS.";
}

abbrev pub otx_source : SourceDef
otx_source = record defaults {
  key = codes "otx";
  name = codes "AlienVault OTX";
  homepage = codes "https://otx.alienvault.com/";
  endpoint = codes "https://otx.alienvault.com/api/v1/pulses/subscribed";
  category = codes "ioc";
  source_type = codes "Community Threat Exchange";
  tier = 4;
  method = codes "api";
  interval = 1 * hour;
  phase = 2;
  enabled_by_default = false;
  requires_auth = true;
  auth_env = some (codes "OTX_API_KEY");
  notes = codes "Returns 403 without X-OTX-API-KEY.";
}

abbrev pub malwarebazaar_source : SourceDef
malwarebazaar_source = record defaults {
  key = codes "malwarebazaar";
  name = codes "MalwareBazaar (abuse.ch)";
  homepage = codes "https://bazaar.abuse.ch/";
  endpoint = codes "https://bazaar.abuse.ch/export/csv/recent/";
  category = codes "ioc";
  source_type = codes "Malware Repository (metadata only)";
  tier = 2;
  method = codes "csv";
  interval = 1 * hour;
  phase = 2;
  enabled_by_default = false;
  worker = some (codes "malwarebazaar");
  notes =
      codes
        "API (mb-api.abuse.ch) now requires Auth-Key (401 without). CSV export is public. Sample download is NOT implemented (MALWARE_DOWNLOAD_ENABLED=false).";
}

abbrev pub urlhaus_source : SourceDef
urlhaus_source = record defaults {
  key = codes "urlhaus";
  name = codes "URLhaus (abuse.ch)";
  homepage = codes "https://urlhaus.abuse.ch/";
  endpoint = codes "https://urlhaus.abuse.ch/downloads/csv_recent/";
  category = codes "ioc";
  source_type = codes "Malicious URL Database";
  tier = 2;
  method = codes "csv";
  interval = 1 * hour;
  phase = 2;
  enabled_by_default = false;
  worker = some (codes "urlhaus");
  max_bytes = 60 * 1024 * 1024;
  notes =
      codes
        "API (urlhaus-api.abuse.ch) now requires Auth-Key (401 without). CSV dump is public. The recent dump runs ~8 MB / 33k rows; the cap leaves room for it to grow.";
}

abbrev pub virustotal_source : SourceDef
virustotal_source = record defaults {
  key = codes "virustotal";
  name = codes "VirusTotal";
  homepage = codes "https://www.virustotal.com/";
  endpoint = codes "https://www.virustotal.com/api/v3/";
  category = codes "ioc";
  source_type = codes "Multi-scanner / Enrichment";
  tier = 2;
  method = codes "api";
  interval = 24 * hour;
  phase = 2;
  enabled_by_default = false;
  requires_auth = true;
  auth_env = some (codes "VIRUSTOTAL_API_KEY");
  notes = codes "On-demand lookup of hashes/domains/IPs/URLs only. Files are NEVER uploaded.";
}
