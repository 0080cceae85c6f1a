-- ===== src/Sigma/Releases.antt =====
-- backend/app/workers/sigma.py: `SigmaWorker.sync` as a worker's actions. The state is the tag of
-- the release that was stored last.
use asber.Base.{
  Bool, Dict, List, Option, Text, [], codes, decimal, drop, false, if◌then◌else◌, is_empty, length,
  none, some, suc, take, text_eq, true, zero, ℕ, ◌++◌, ◌+◌, ◌∷◌,
}
use asber.Sigma.Sync.{take_members, ParsedRule, link_rows, RuleLoop, rule_pk, DetectionRule, Rules}
use asber.Sigma.Archive.{iter_rules, Release, Member, pick_asset}
use asber.Ingestion.Worker.{checkpoint, write, Action, fail, move, RunStats, tally, no_stats}
use asber.Sigma.{Rule}
use asber.Indicators.Feed.{parse_dt}
use asber.Correlation.Links.{EntityLink}

abbrev pub Cursor : Type 0
Cursor = Option Text

abbrev pub cves_in : List ParsedRule → List Text
cves_in [] = []
cves_in (p ∷ ps) = p.rule.cve_ids ++ cves_in ps

module _ (technique_ids : Dict Text) (tag : Option Text) (published_at : Option ℕ)
    (tier now : ℕ) where
  abbrev pub stored_rule : ℕ → ParsedRule → DetectionRule
  stored_rule id p = record {
    id = id;
    source_key = codes "sigma";
    rule = p.rule;
    url = p.url;
    release = tag;
    published_at = published_at;
    tier = tier;
    collected_at = now;
  }

  abbrev pub number_rules : ℕ → List ParsedRule → List DetectionRule
  number_rules id [] = []
  number_rules id (p ∷ ps) = stored_rule id p ∷ number_rules (id + 1) ps

  abbrev pub links_of : List DetectionRule → List EntityLink
  links_of [] = []
  links_of (r ∷ rules) =
      link_rows technique_ids (decimal r.id) published_at r.rule ++ links_of rules

  -- The two `insert` statements of a chunk.
  unfoldable pub insert_rules : List ParsedRule → Rules → Rules
  insert_rules chunk store =
      let rows = number_rules store.next_id chunk in
      record {
        rules = store.rules ++ rows;
        next_id = store.next_id + length chunk;
        links = store.links ++ links_of rows;
      }

  abbrev pub rule_chunk : List ParsedRule → List (Action Rules Cursor)
  rule_chunk chunk =
      write (insert_rules chunk)
      ∷ tally (λ stats. record stats {
        new = stats.new + length chunk;
        touched_cves = stats.touched_cves ++ cves_in chunk;
      })
      ∷ checkpoint
      ∷ []

  -- `for i in range(0, len(new_rows), 500)`, on fuel
  abbrev pub rule_chunks : ℕ → List ParsedRule → List (Action Rules Cursor)
  rule_chunks zero ps = []
  rule_chunks (suc fuel) ps =
      let rest = rule_chunks fuel (drop 500 ps) in
      if is_empty ps then [] else rule_chunk (take 500 ps) ++ rest

  abbrev pub loop_start : Rules → RuleLoop
  loop_start store = record { store = store; new_rows = []; seen = []; stats = no_stats }

  abbrev pub add_rule_counts : RunStats → RunStats → RunStats
  add_rule_counts counts stats = record stats {
    fetched = stats.fetched + counts.fetched;
    updated = stats.updated + counts.updated;
    malformed = stats.malformed + counts.malformed;
    touched_cves = stats.touched_cves ++ counts.touched_cves;
  }

  abbrev pub archive_actions :
      (Text → Option Rule) → Rules → Option (List (Text × Text)) → List (Action Rules Cursor)
  archive_actions parse store none = fail (codes "MalformedRecord") ∷ []
  archive_actions parse store (some members) =
      let s =
        take_members technique_ids (λ key. rule_pk key store.rules) tag published_at parse members
          (loop_start store) in
      write (λ r. s.store)
        ∷ tally (add_rule_counts s.stats)
        ∷ rule_chunks (length s.new_rows) s.new_rows
      ++ move (λ cursor. tag) ∷ []

abbrev pub unchanged_release : List (Action Rules Cursor)
unchanged_release = tally (λ stats. record stats { not_modified = true }) ∷ []

abbrev pub is_cursor : Cursor → Option Text → Bool
is_cursor none none = true
is_cursor none (some tag) = false
is_cursor (some t) none = false
is_cursor (some t) (some tag) = text_eq t tag

module _ (technique_ids : Dict Text) (date_parser : Text → Option ℕ) (tier now : ℕ) where
  abbrev pub release_actions :
      (Text → Option Rule)
      → List Member
      → Cursor
      → Rules
      → Option (Option Text × Option Text × Option Text)
      → List (Action Rules Cursor)
  unfolding iter_rules
  release_actions parse members cursor store none = fail (codes "MalformedRecord") ∷ []
  release_actions parse members cursor store (some (url, tag, date)) =
      if is_cursor cursor tag
      then unchanged_release
      else archive_actions technique_ids tag (parse_dt date_parser date) tier now parse store
          (iter_rules members)

  -- What `sync` does, from the rows and the cursor that it starts with; no release is an answer
  -- that says that nothing has changed.
  unfoldable pub sync_release :
      (Text → Option Rule)
      → List Member
      → Cursor
      → Rules
      → Option Release
      → List (Action Rules Cursor)
  unfolding iter_rules pick_asset
  sync_release parse members cursor store none = unchanged_release
  sync_release parse members cursor store (some release) =
      release_actions parse members cursor store (pick_asset release)
