-- ===== src/Nvd/Examples.antt =====
-- The NVD worker on a server that has one CVE in each window, and runs.
use asber.Base.{
  List, Option, Text, [], arith, codes, none, refl, some, suc, zero, ℕ, ◌*◌, ◌-◌, ◌∷◌, ◌≡◌,
}
use asber.Nvd.{incremental, take_item, Catalogue, take_pages, Ctx, take_windows}
use asber.Ingestion.Worker.{no_stats, save_progress}
use asber.Nvd.Coverage.{serve_pages, incremental-Covers, Covers}
use asber.Correlation.Nvd.{NvdEntry, apply_nvd}
use asber.Ingestion.Backoff.{Source}

abbrev cve : ℕ → NvdEntry
cve time = record {
  cve_id = codes "CVE-2024-3400";
  description = some (codes "Command injection");
  vuln_status = some (codes "Analyzed");
  published = some time;
  last_modified = none;
  cwes = [];
  products = [];
  references = [];
  primary_vendor = none;
  primary_product = none;
  cvss_score = some 100;
  cvss_severity = some (codes "CRITICAL");
  cvss_vector = none;
  cvss_version = none;
  ssvc_exploitation = none;
  ssvc_automatable = none;
  ssvc_technical_impact = none;
}

-- An item is the time at which its CVE was published; one of time 0 is malformed.
abbrev parse_time : ℕ → Option NvdEntry
parse_time zero = none
parse_time (suc n) = some (cve (suc n))

abbrev served : ℕ → ℕ → List ℕ
served a b = 0 ∷ 17000000 ∷ []

abbrev nvd_row_of : Source (Option ℕ)
nvd_row_of = record {
  interval_seconds = 7200;
  state = none;
  last_attempt = none;
  last_status = none;
  last_error = none;
  consecutive_failures = none;
  last_successful_fetch = none;
  items_fetched = 0;
  items_new = 0;
  items_updated = 0;
}

abbrev no_cves : Catalogue ℕ
no_cves = record {
  graph = record { vulnerabilities = []; references = []; products = [] };
  cache = [];
}

abbrev empty_ctx : Ctx ℕ
empty_ctx = record {
  saved = record { rows = no_cves; source = nvd_row_of };
  session = no_cves;
  state = none;
  stats = no_stats;
}

abbrev leave : List Text → Catalogue ℕ → Catalogue ℕ
leave cves d = d

abbrev cursor_of : Ctx ℕ → Option ℕ × ℕ
cursor_of ctx = (ctx.saved.source.state, ctx.stats.malformed)

-- 200 days take two windows, with two items each.
incremental_run :
    cursor_of
      (incremental leave parse_time
        (λ a b. serve_pages (served a b) 1)
        3
        17280000
        200
        30
        empty_ctx).0
    ≡ (some 17280000, 2)
unfolding incremental take_windows take_pages take_item save_progress apply_nvd
incremental_run = refl

incremental-Covers_example :
    Covers leave parse_time 17280000
      (17280000 - 30 * 86400)
      served
      0
      empty_ctx
      []
      empty_ctx
      (incremental leave parse_time (λ a b. serve_pages (served a b) 1) 3 17280000 200 30 empty_ctx)
incremental-Covers_example =
    incremental-Covers leave parse_time served 1 3 17280000 200 30 empty_ctx (omega arith)
      (λ a b. omega arith)
