-- ===== src/Nvd.antt =====
-- backend/app/workers/nvd.py: `NvdWorker._incremental` and `_apply`. Times are seconds. What the API
-- answers to a page request is a parameter, as is `parse_nvd_cve`.
pub mod Coverage
pub mod Enrich
pub mod KevFeed
mod Examples
use asber.Base.{
  Bool, Dict, List, Option, Text, false, if◌then◌else◌, leb, none, not, some, ℕ, ◌&&◌, ◌*◌, ◌+◌,
  ◌==◌, ◌||◌, ◌∷◌, [], insert, is_empty, lookup, ltb, min, suc, true, zero, ◌-◌,
}
use asber.Ingestion.Worker.{RunStats, Context, save_progress}
use asber.Correlation.Entry.{Graph}
use asber.Models.{Vulnerability}
use asber.Correlation.Nvd.{apply_nvd, NvdEntry}

abbrev pub max_window : ℕ
max_window = 119 * 86400

abbrev pub page_size : ℕ
page_size = 2000

pub record Page (A : Type 0) : Type 0 where
  pub vulnerabilities : List A
  pub total_results : ℕ
  pub results_per_page : ℕ

-- A page, or an error: of the request, or of a page without a list of items.
pub data Reply (A : Type 0) : Type 0 where
  page : Page A → Reply A
  refused : Text → Reply A

-- A row of `nvd_cache`.
pub record CacheRow (A : Type 0) : Type 0 where
  pub payload : Option A
  pub fetched_at : ℕ

pub record Catalogue (A : Type 0) : Type 0 where
  pub graph : Graph
  pub cache : Dict (CacheRow A)

-- How the loops end.
pub data Stop : Type 0 where
  ended : Stop
  raised : Text → Stop
  out_of_fuel : Stop

-- `page.get("resultsPerPage") or PAGE_SIZE`
abbrev pub or_page_size : ℕ → ℕ
or_page_size n = if n == 0 then page_size else n

abbrev pub is_tracked : ℕ → Option ℕ → Bool
is_tracked track_after none = false
is_tracked track_after (some time) = leb track_after time

abbrev pub add_cve : Bool → Text → List Text → List Text
add_cve touched cve cves = if touched then cve ∷ cves else cves

abbrev pub one_if : Bool → ℕ
one_if b = if b then 1 else 0

abbrev pub count_entry : Text → Bool → Bool × Bool → RunStats → RunStats
count_entry cve always (is_new, changed) stats = record stats {
  new = stats.new + one_if is_new;
  updated = stats.updated + one_if (changed && not is_new);
  touched_cves = add_cve (always || is_new || changed) cve stats.touched_cves;
}

abbrev pub Ctx : Type 0 → Type 0
Ctx A = Context (Catalogue A) (Option ℕ)

abbrev pub is_stored : Option Vulnerability → Bool
is_stored none = false
is_stored (some v) = true

module _ {A : Type 0} (parse_nvd_cve : A → Option NvdEntry) (now : ℕ) where
  -- The row of the cache is written for the CVEs that are tracked.
  abbrev pub cache_item : A → Text → Bool → Catalogue A → Catalogue A
  cache_item cve cve_id touched d =
      if touched || is_stored (lookup cve_id d.graph.vulnerabilities)
      then record d {
        cache = insert cve_id (record { payload = some cve; fetched_at = now }) d.cache;
      }
      else d

  abbrev pub apply_entry : Bool → Bool → A → NvdEntry → Ctx A → Ctx A
  apply_entry track_new always cve entry ctx =
      let applied = apply_nvd now track_new entry ctx.session.graph in
      record ctx {
        stats = count_entry entry.cve_id always applied.0 ctx.stats;
        session = record ctx.session { graph = applied.1 };
      }

  abbrev pub apply_parsed : ℕ → A → Option NvdEntry → Ctx A → Ctx A
  apply_parsed track_after cve none ctx = record ctx {
    stats = record ctx.stats { malformed = ctx.stats.malformed + 1 };
  }
  apply_parsed track_after cve (some entry) ctx =
      let track_new = is_tracked track_after entry.published in
      let after = apply_entry track_new false cve entry ctx in
      let flags = (apply_nvd now track_new entry ctx.session.graph).0 in
      record after { session = cache_item cve entry.cve_id (flags.0 || flags.1) after.session }

  -- `stats.fetched += 1` and `_apply`
  unfoldable pub take_item : ℕ → A → Ctx A → Ctx A
  take_item track_after cve ctx =
      apply_parsed track_after cve (parse_nvd_cve cve)
        (record ctx { stats = record ctx.stats { fetched = ctx.stats.fetched + 1 } })

  abbrev pub take_items : ℕ → List A → Ctx A → Ctx A
  take_items track_after [] ctx = ctx
  take_items track_after (cve ∷ items) ctx =
      take_items track_after items (take_item track_after cve ctx)

module _ {A : Type 0} (recompute_many : List Text → Catalogue A → Catalogue A)
    (parse_nvd_cve : A → Option NvdEntry) (now track_after : ℕ) where
  -- What follows the request of a page; `rest` is the loop after it.
  abbrev pub take_reply : ℕ → Reply A → Ctx A → (ℕ → Ctx A → Ctx A × Stop) → Ctx A × Stop
  take_reply start_index (refused error) ctx rest = (ctx, raised error)
  take_reply start_index (page p) ctx rest =
      let next_index = start_index + or_page_size p.results_per_page in
      let taken =
        save_progress recompute_many
          (take_items parse_nvd_cve now track_after p.vulnerabilities ctx) in
      if leb p.total_results next_index || is_empty p.vulnerabilities
      then (taken, ended)
      else rest next_index taken

  -- `while True` over the pages of one window
  unfoldable pub take_pages : (ℕ → Reply A) → ℕ → ℕ → Ctx A → Ctx A × Stop
  take_pages reply zero start_index ctx = (ctx, out_of_fuel)
  take_pages reply (suc fuel) start_index ctx =
      take_reply start_index (reply start_index) ctx (take_pages reply fuel)

  -- The cursor moves to the end of a window whose pages have all been taken.
  abbrev pub close_window : ℕ → Ctx A × Stop → (Ctx A → Ctx A × Stop) → Ctx A × Stop
  close_window window_end (ctx, ended) rest =
      rest (save_progress recompute_many (record ctx { state = some window_end }))
  close_window window_end (ctx, raised error) rest = (ctx, raised error)
  close_window window_end (ctx, out_of_fuel) rest = (ctx, out_of_fuel)

  -- `while cursor < now`
  unfoldable pub take_windows : (ℕ → ℕ → ℕ → Reply A) → ℕ → ℕ → ℕ → Ctx A → Ctx A × Stop
  take_windows reply page_fuel zero cursor ctx =
      (ctx, if ltb cursor now then out_of_fuel else ended)
  take_windows reply page_fuel (suc fuel) cursor ctx =
      let window_end = min now (cursor + max_window) in
      if ltb cursor now
      then close_window window_end (take_pages (reply cursor window_end) page_fuel 0 ctx)
          (take_windows reply page_fuel fuel window_end)
      else (ctx, ended)

-- `parse_dt(ctx.state.get("last_mod_cursor")) or now - timedelta(days=nvd_initial_days)`
abbrev pub first_cursor : ℕ → ℕ → Option ℕ → ℕ
first_cursor now initial_days none = now - initial_days * 86400
first_cursor now initial_days (some cursor) = cursor

module _ {A : Type 0} (recompute_many : List Text → Catalogue A → Catalogue A) where
  -- `_incremental`, on as much fuel as there are seconds from the cursor to now.
  unfoldable pub incremental :
      (A → Option NvdEntry)
      → (ℕ → ℕ → ℕ → Reply A)
      → (page_fuel now initial_days track_days : ℕ) → Ctx A
      → Ctx A × Stop
  incremental parse_nvd_cve reply page_fuel now initial_days track_days ctx =
      let cursor = first_cursor now initial_days ctx.state in
      take_windows recompute_many parse_nvd_cve now (now - track_days * 86400) reply page_fuel
        (now - cursor) cursor ctx
