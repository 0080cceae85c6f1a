-- ===== src/Lib.antt =====
-- Asber's backend (backend/app), its core logic.
--
-- Asber collects vulnerability intelligence from many sources and tells an owner what of it touches
-- the assets that they registered. Workers fetch feeds (ingestion), a correlation engine merges
-- them into one row per CVE and scores it (services/scoring.py), and Rampart (services/rampart,
-- api/rampart.py) matches the CVEs against each owner's assets and stores the verdicts. The web API
-- is guarded by a rate limiter (ratelimit.py).
--
-- Base and its children are the helpers that the parts share: Python's strings as lists of code
-- points (Text), its `dict` as an association list, lists, decisions, and sorting.
--   Base/Strings: strip, lower, upper, split_on, all_digits (str.isdigit), int, join, decimal (str
--     of an int). Only ASCII letters are lowered, and only ASCII digits are digits.
--
-- Models: the tables that several parts read (backend/app/models.py).
--
-- Matching: backend/app/services/rampart/matching.py.
--   Matching/Version: `_tokens`, `compare_versions`. Matching/Range: `Bound`, `Range`,
--     `parse_range`, `cpe_version`, `version_in_range`; the regular expression `_BOUND_RE` is a
--     matcher written out (match_op, match_version, match_bound), and its findall runs on fuel, the
--     length of the text and one more, each round of which drops a character at least.
--     Matching/Asset: `normalise`, `_same_product`, `match_asset`; its loop is judge_all with one
--     round judge, and what follows it is conclude.
--
-- Scoring: backend/app/services/scoring.py, `compute_relevance`. Points and CVSS scores are counted
--   in tenths, times in seconds; collect is the list of reasons in the order of the code, and the
--   stable sort by falling points is an insertion sort.
--
-- Rampart: backend/app/services/rampart/repository.py, rampart/export.py and the writing handlers
--   of api/rampart.py.
--   Rampart/Tables: the state, one list of rows for each table and the next primary key. A session
--     is the value of these tables, and every operation that writes returns the new ones.
--   Rampart/Repository: the functions of repository.py that change state, and those that they call,
--     by their own names. A match gets its primary key when it is stored. SQL LIKE is the parameter
--     `like`.
--   Rampart/Reads: the functions of repository.py that only read: `list_matches`,
--     `matched_cve_ids`, `exposure_by_cve`, `documents_for`, and `counts_by_asset` in Counts. What
--     SQL returns without an order comes as the table has it, a DISTINCT in rising order.
--   Rampart/Report: backend/app/services/rampart/export.py: `build` and `to_csv`, and `to_markdown`
--     in Markdown.
--   Rampart/Payload: `AssetIn`, the validators of a request to write an asset; pydantic's own tests
--     of the types have passed.
--   Rampart/Handlers: POST, PATCH and DELETE of /assets (post_asset, patch_asset, remove_asset),
--     with their guards and status codes; serve is any sequence of such requests by any owners.
--
-- Correlation: backend/app/services/correlation.py.
--   Correlation/Links: `link`, `add_reference` and `_ensure_product`.
--   Correlation/Merge: `_assign` on a KEV entry's values: merge_kev is the row after it, is_changed
--     what it returns. The entry is what `parse_kev_entry` returns.
--   Correlation/Entry: `get_or_create_vulnerability` and `apply_kev`.
--   Correlation/Nvd: `apply_nvd` on what `parse_nvd_cve` returns, as for a KEV entry: merge_nvd is
--     the row after `_assign`.
--   Correlation/Documents: `process_document`, with `find_cves`, `find_techniques` and `snippet` of
--     extract.py. What the regular expressions and the dictionary of names find in a text is the
--     record Finder, a parameter.
--   Correlation/Recompute: `recompute_vulnerability` and `recompute_many`. Signals has what is
--     linked to a CVE and the evidence, sources and times from it, Techniques the ATT&CK
--     techniques, Vuln the row and its assignments. The patterns go to the parameter `search`,
--     Python's re.search; an unordered query returns the rows as the table has them. Documents,
--     exploits and links are read, never written.
--
-- Extract: backend/app/services/extract.py, `classify_impact` and `classify_platforms` with their
--   tables of patterns.
--
-- Normalize: backend/app/services/normalize.py, and `clip` of sanitize.py. A JSON object is a
--   record of the keys that are read, its nested objects flat; an absent key, or a value of another
--   type, is none; in SSVC a field is the text that str writes of any value. Normalize/Cve:
--   `parse_nvd_cve` and `_pick_ssvc`. Normalize/Kev: `parse_kev_entry`.
--
-- Export: backend/app/services/export.py, `md`, `link` and `_cell`, and in Csv what Python's
--   csv.writer writes of a row. A cell is the text of its value, empty for None.
--
-- RateLimit: backend/app/ratelimit.py, `allow` and `client_ip`. What Redis answers, the clock and
--   the test whether an address is a trusted proxy are arguments. Times are milliseconds.
--
-- Ingestion: backend/app/ingestion.
--   Ingestion/Backoff: `backoff_seconds` and `due_for_run` of base.py, in seconds.
--   Ingestion/Worker: `run_worker` and `WorkerContext.checkpoint`. A worker is a list of actions:
--     it writes rows, moves its cursors, counts, checkpoints or raises. Rows that are not committed
--     are the session's, and a rollback drops them; an exception of `recompute_many` is a failure
--     at that point of the list.
--   Ingestion/Limiter: `RateLimiter`, a call at a time, as its lock makes it, in milliseconds.
--   Ingestion/Registry: `SourceDef` and the table of sources of registry.py (Defs, Intelligence,
--     Feeds, Table), `sync_registry` of base.py with what it reads of config.py (Sync), and
--     `build_worker` of backend/app/workers/__init__.py (Workers). The environment variables and
--     the configured credentials are fields of Settings.
--   Ingestion/Http: `HttpClient.get` after `validate_url`, and `store_validators`. The transport
--     and the digest are parameters. The loop runs on fuel, the number of retries and one more.
--
-- Nvd: backend/app/workers/nvd.py, `NvdWorker._incremental` and `_apply` (take_item), on the
--   context of Ingestion/Worker: the loops return the context and how they stopped. take_windows is
--   the loop over the time windows, on as much fuel as there are seconds from the cursor to now,
--   since a round moves the cursor by a second at least; take_pages is the loop over one window's
--   pages, on fuel too, the items of the window and one more, since a page moves the index by one
--   at least. What the API answers is a parameter, and so is `parse_nvd_cve`. Nvd/Enrich:
--   `configure_rate_limit`, `fetch_cve`, `enrichment_candidates`, `_enrich` and `sync`.
--   Nvd/KevFeed: `CisaKevWorker.sync` of backend/app/workers/cisa_kev.py, on the same context.
--
-- Indicators: backend/app/services/indicators.py and backend/app/workers/abusech.py.
--   Indicators/Lookup: the forms that are stored. Indicators/Families: `family_keys` and
--     `split_tags`. Indicators/Feed: `_rows`, `resolve_family` and the two `parse` methods.
--     Indicators/Upsert: the loop of `sync` (upsert is one round) and the table with its next
--     identity; Indicators/Upsert/Sync has `sync` as a worker's actions, with the insertion in
--     chunks on fuel, the number of new rows, since a chunk takes a row at least.
--
-- Sigma: backend/app/services/sigma.py and backend/app/workers/sigma.py.
--   Sigma/Archive: `iter_rules` and `pick_asset`. Sigma/Sync: one round of the loop of `sync`, and
--     the edges of a rule; Sigma/Releases has `sync` as a worker's actions, with the insertion in
--     chunks on fuel, the number of new rules.
--
-- Api: backend/app/api/common.py, the windows, the paging and the patterns that the reading
--   handlers share.
--
-- Scheduler: backend/app/scheduler.py and backend/app/ingestion/coordination.py.
--   Scheduler/Requests: `request_run` and `pop_run_requests` on a set of keys. Redis' spop is a
--     parameter, IsSpop what it is documented to do, and the loop runs on fuel, the number of
--     members, since a call takes one. Scheduler/Bootstrap: the keys for which `bootstrap` calls
--     `run_source`.
--   Scheduler/Runs: `run_source` and `source_lock`, as a step relation of any number of threads; a
--     flag says whether a lock may expire while it is held, as a lock in Redis does.
--
-- The parts meet as the code's do: Rampart/Repository calls Matching/Asset's match_asset, the
-- handlers call the repository, recompute_vulnerability calls compute_relevance, classify_impact
-- and recompute_cve, the worker's run reads the source that the backoff reads, and the scheduler
-- asks that backoff and build_worker what to run.
--
-- Not modelled: the dictionary of ATT&CK names, the parsing of the other feeds, the reading
-- handlers and their SQL, the lookup of an indicator (api/iocs.py), the set-up of the job
-- scheduler, the exports of one CVE; logging, migrations and the user interface, which are input
-- and output or another language. What a run recomputes of the touched CVEs is a parameter of
-- run_worker. Texts outside ASCII are compared and stored as they are. The database's constraints
-- and its concurrency are left out: the operations on the tables run one after another.
pub mod Base
pub mod Models
pub mod Export
pub mod Normalize
pub mod Matching
pub mod Scoring
pub mod Rampart
pub mod RateLimit
pub mod Ingestion
pub mod Extract
pub mod Correlation
pub mod Nvd
pub mod Scheduler
pub mod Indicators
pub mod Sigma
pub mod Api
