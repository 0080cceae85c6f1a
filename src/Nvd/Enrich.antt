-- ===== src/Nvd/Enrich.antt =====
-- backend/app/workers/nvd.py: `configure_rate_limit`, `fetch_cve`, `enrichment_candidates`,
-- `_enrich` and `sync`. What the API answers to the request of one CVE is a parameter.
use asber.Nvd.{raised, ended, Reply, incremental, out_of_fuel}
use asber.Base.{
  Bool, Dict, List, Option, Text, [], codes, false, filter, if◌then◌else◌, insert, leb, length,
  lookup, ltb, map, none, not, some, sort_by, sorted_set, take, text_eq, true, ℕ, ◌&&◌, ◌++◌, ◌+◌,
  ◌-◌, ◌||◌, ◌∷◌, ◌*◌,
}
use asber.Correlation.Nvd.{with_fetch_time, NvdEntry}
use asber.Nvd.{apply_entry, Ctx, is_stored, CacheRow, Catalogue, Stop}
use asber.Correlation.Merge.{is_absent}
use asber.Normalize.{valid_cve_id}
use asber.Correlation.Links.{EntityLink}
use asber.Models.{Vulnerability}
use asber.Correlation.Entry.{Graph}
use asber.Ingestion.Limiter.{RateLimiter, set_interval}
use asber.Ingestion.Worker.{save_progress}

abbrev pub api_host : Text
api_host = codes "services.nvd.nist.gov"

-- The interval between two requests, in milliseconds.
abbrev pub request_interval : Option Text → ℕ
request_interval key = if is_absent key then 6500 else 800

unfoldable pub configure_rate_limit : Option Text → RateLimiter → RateLimiter
unfolding set_interval
configure_rate_limit key limiter = record limiter {
  intervals = insert api_host (request_interval key) limiter.intervals;
}

-- What a request of one CVE comes to: the object of the CVE, if there is one, or an error.
pub data CveAnswer (A : Type 0) : Type 0 where
  answered : Option A → CveAnswer A
  no_answer : Text → CveAnswer A

pub data Fetched (A : Type 0) : Type 0 where
  malformed_id : Fetched A
  not_fetched : Text → Fetched A
  got : Option A → Dict (CacheRow A) → Fetched A

module _ {A : Type 0} (request : Text → CveAnswer A) (now max_age : ℕ) where
  abbrev pub keep_answer : Text → Dict (CacheRow A) → CveAnswer A → Fetched A
  keep_answer cve_id cache (no_answer error) = not_fetched error
  keep_answer cve_id cache (answered payload) =
      got payload (insert cve_id (record { payload = payload; fetched_at = now }) cache)

  abbrev pub cached_or_fetched : Text → Dict (CacheRow A) → Option (CacheRow A) → Fetched A
  cached_or_fetched cve_id cache none = keep_answer cve_id cache (request cve_id)
  cached_or_fetched cve_id cache (some row) =
      if ltb now (row.fetched_at + max_age)
      then got row.payload cache
      else keep_answer cve_id cache (request cve_id)

  abbrev pub fetch_valid : Dict (CacheRow A) → Option Text → Fetched A
  fetch_valid cache none = malformed_id
  fetch_valid cache (some cve_id) = cached_or_fetched cve_id cache (lookup cve_id cache)

  unfoldable pub fetch_cve : Dict (CacheRow A) → Text → Fetched A
  unfolding valid_cve_id
  fetch_cve cache cve_id = fetch_valid cache (valid_cve_id cve_id)

abbrev pub is_before : ℕ → Option ℕ → Bool
is_before stale none = true
is_before stale (some time) = ltb time stale

abbrev pub is_since : ℕ → Option ℕ → Bool
is_since start none = false
is_since start (some time) = leb start time

abbrev pub needs_nvd : ℕ → Vulnerability → Bool
needs_nvd stale v = is_before stale v.nvd_fetched_at && (v.in_kev || leb 40 v.relevance_score)

-- `order_by(relevance_score.desc())`
abbrev pub more_relevant : Vulnerability → Vulnerability → Bool
more_relevant v w = leb w.relevance_score v.relevance_score

module _ {A : Type 0} (limit stale recent : ℕ) (links : List EntityLink) where
  abbrev pub is_checked : Dict (CacheRow A) → Text → Bool
  is_checked [] cve_id = false
  is_checked ((id, row) ∷ cache) cve_id =
      text_eq id cve_id && leb stale row.fetched_at || is_checked cache cve_id

  abbrev pub is_unknown_link : Catalogue A → EntityLink → Bool
  is_unknown_link d l =
      text_eq l.object_type (codes "cve")
      && not (is_stored (lookup l.object_id d.graph.vulnerabilities))
      && not (is_checked d.cache l.object_id)
      && is_since recent l.observed_at

  -- The ids that other sources mention, where there is room for them.
  abbrev pub mentioned_ids : Catalogue A → ℕ → List Text
  mentioned_ids d room =
      take room (sorted_set (map (λ l. l.object_id) (filter (is_unknown_link d) links)))

  unfoldable pub enrichment_candidates : Catalogue A → List Text
  unfolding sorted_set
  enrichment_candidates d =
      let rows = map (λ e. e.1) d.graph.vulnerabilities in
      let ids =
        map (λ v. v.cve_id) (take limit (sort_by more_relevant (filter (needs_nvd stale) rows))) in
      if ltb (length ids) limit then ids ++ mentioned_ids d (limit - length ids) else ids

-- `vuln.nvd_fetched_at = utcnow()`, where there is such a row
abbrev pub touch_row : ℕ → Text → Option Vulnerability → Graph → Graph
touch_row now cve_id none graph = graph
touch_row now cve_id (some v) graph = record graph {
  vulnerabilities = insert cve_id (with_fetch_time now v) graph.vulnerabilities;
}

module _ {A : Type 0} (parse_nvd_cve : A → Option NvdEntry) (request : Text → CveAnswer A)
    (now max_age : ℕ) where
  abbrev pub count_malformed : Ctx A → Ctx A
  count_malformed ctx = record ctx {
    stats = record ctx.stats { malformed = ctx.stats.malformed + 1 };
  }

  abbrev pub enrich_parsed : A → Option NvdEntry → Ctx A → Ctx A
  enrich_parsed cve none ctx = count_malformed ctx
  enrich_parsed cve (some entry) ctx =
      apply_entry parse_nvd_cve now true true cve entry
        (record ctx { stats = record ctx.stats { fetched = ctx.stats.fetched + 1 } })

  abbrev pub enrich_found : Text → Option A → Ctx A → Ctx A
  enrich_found cve_id none ctx = record ctx {
    session = record ctx.session {
      graph =
          touch_row now cve_id (lookup cve_id ctx.session.graph.vulnerabilities) ctx.session.graph;
    };
  }
  enrich_found cve_id (some cve) ctx = enrich_parsed cve (parse_nvd_cve cve) ctx

  -- One round; `rest` is the loop after it.
  abbrev pub enrich_one : Text → Fetched A → Ctx A → (Ctx A → Ctx A × Stop) → Ctx A × Stop
  enrich_one cve_id malformed_id ctx rest = rest (count_malformed ctx)
  enrich_one cve_id (not_fetched error) ctx rest = (ctx, raised error)
  enrich_one cve_id (got payload cache) ctx rest =
      rest (
        enrich_found cve_id payload (record ctx { session = record ctx.session { cache = cache } }))

  unfoldable pub enrich_each : List Text → Ctx A → Ctx A × Stop
  unfolding fetch_cve
  enrich_each [] ctx = (ctx, ended)
  enrich_each (cve_id ∷ ids) ctx =
      enrich_one cve_id (fetch_cve request now max_age ctx.session.cache cve_id) ctx
        (enrich_each ids)

module _ {A : Type 0} (recompute_many : List Text → Catalogue A → Catalogue A)
    (parse_nvd_cve : A → Option NvdEntry) (request : Text → CveAnswer A)
    (now cache_days enrich_limit : ℕ) (links : List EntityLink) where
  -- `_enrich`
  unfoldable pub enrich : Ctx A → Ctx A × Stop
  unfolding enrich_each enrichment_candidates
  enrich ctx =
      let ids =
        enrichment_candidates enrich_limit (now - cache_days * 86400) (now - 30 * 86400) links
          ctx.session in
      enrich_each parse_nvd_cve request now (cache_days * 86400) ids ctx

  abbrev pub enrich_after : Ctx A × Stop → Ctx A × Stop
  enrich_after (ctx, ended) = enrich (save_progress recompute_many ctx)
  enrich_after (ctx, raised error) = (ctx, raised error)
  enrich_after (ctx, out_of_fuel) = (ctx, out_of_fuel)

  -- `NvdWorker.sync`, once the rate limit is configured
  unfoldable pub sync_nvd :
      (ℕ → ℕ → ℕ → Reply A) → (page_fuel initial_days track_days : ℕ) → Ctx A → Ctx A × Stop
  unfolding incremental enrich
  sync_nvd reply page_fuel initial_days track_days ctx =
      enrich_after
        (incremental recompute_many parse_nvd_cve reply page_fuel now initial_days track_days ctx)
