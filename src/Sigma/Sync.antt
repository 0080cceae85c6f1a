-- ===== src/Sigma/Sync.antt =====
-- backend/app/workers/sigma.py: `SigmaWorker.sync` as a worker's actions, and its edges; and
-- backend/app/models.py: `DetectionRule`. The names of techniques in the dictionary of ATT&CK are a
-- parameter, and the body of the archive is its members.
use asber.Base.{
  Bool, Dict, List, Option, Text, [], codes, decimal, drop, if◌then◌else◌, is_empty, lookup, lower,
  map, none, one_of, some, text_eq, ℕ, ◌&&◌, ◌++◌, ◌+◌, ◌==◌, ◌∷◌,
}
use asber.Sigma.{Rule}
use asber.Correlation.Links.{EntityLink}
use asber.Ingestion.Worker.{RunStats}
use asber.Correlation.Edges.{link_all}

-- A row: the columns that the rule's document fills are one field.
pub record DetectionRule : Type 0 where
  pub id : ℕ
  pub source_key : Text
  pub rule : Rule
  pub url : Text
  pub release : Option Text
  pub published_at : Option ℕ
  pub tier : ℕ
  pub collected_at : ℕ

pub record Rules : Type 0 where
  pub rules : List DetectionRule
  pub next_id : ℕ
  pub links : List EntityLink

-- A rule as `sync` completes it.
pub record ParsedRule : Type 0 where
  pub rule : Rule
  pub url : Text

abbrev pub edge_to : Text → Text → Text → Text → Option ℕ → EntityLink
edge_to subject_id object_type object_id tag observed_at = record {
  subject_type = codes "rule";
  subject_id = subject_id;
  object_type = object_type;
  object_id = object_id;
  relation = codes "detects";
  method = codes "explicit";
  confidence = codes "high";
  source_key = codes "sigma";
  evidence = some (codes "Sigma rule tagged " ++ tag);
  observed_at = observed_at;
}

abbrev pub edge_if_known : Text → Option ℕ → Text → Option Text → List EntityLink
edge_if_known subject_id observed_at tid none = []
edge_if_known subject_id observed_at tid (some stix) =
    if is_empty stix
    then []
    else edge_to subject_id (codes "attack") stix (codes "attack." ++ lower tid) observed_at ∷ []

module _ (technique_ids : Dict Text) (subject_id : Text) (observed_at : Option ℕ) where
  abbrev pub tagged_techniques : List Text → List EntityLink
  tagged_techniques [] = []
  tagged_techniques (tid ∷ tids) =
      edge_if_known subject_id observed_at tid (lookup tid technique_ids) ++ tagged_techniques tids

  abbrev pub tagged_cves : List Text → List EntityLink
  tagged_cves [] = []
  tagged_cves (cve ∷ cves) =
      edge_to subject_id (codes "cve") cve (codes "cve." ++ lower (drop 4 cve)) observed_at
      ∷ tagged_cves cves

  -- `_link_rows`, and the calls of `correlation.link` by `_link`
  unfoldable pub link_rows : Rule → List EntityLink
  link_rows rule = tagged_techniques rule.techniques ++ tagged_cves rule.cve_ids

-- A tag in an f-string
abbrev pub tag_text : Option Text → Text
tag_text none = codes "None"
tag_text (some tag) = tag

abbrev pub or_rule_id : DetectionRule → Bool → Option ℕ → Option ℕ
or_rule_id r matches (some pk) = some pk
or_rule_id r matches none = if matches then some r.id else none

-- `existing.get(external_id)`
abbrev pub rule_pk : Text → List DetectionRule → Option ℕ
rule_pk external_id [] = none
rule_pk external_id (r ∷ rules) =
    or_rule_id r (text_eq r.source_key (codes "sigma") && text_eq r.rule.external_id external_id)
      (rule_pk external_id rules)

pub record RuleLoop : Type 0 where
  pub store : Rules
  pub new_rows : List ParsedRule
  pub seen : List Text
  pub stats : RunStats

module _ (technique_ids : Dict Text) (existing : Text → Option ℕ) (tag : Option Text)
    (published_at : Option ℕ) where
  abbrev pub renewed : ℕ → ParsedRule → DetectionRule → DetectionRule
  renewed pk p r =
      if r.id == pk
      then record r { rule = p.rule; url = p.url; release = tag; published_at = published_at }
      else r

  abbrev pub keep_rule : ParsedRule → RuleLoop → Option ℕ → RuleLoop
  keep_rule p s none = record s { new_rows = s.new_rows ++ p ∷ [] }
  keep_rule p s (some pk) = record s {
    store = record s.store {
      rules = map (renewed pk p) s.store.rules;
      links = link_all (link_rows technique_ids (decimal pk) published_at p.rule) s.store.links;
    };
    stats = record s.stats {
      updated = s.stats.updated + 1;
      touched_cves = s.stats.touched_cves ++ p.rule.cve_ids;
    };
  }

  abbrev pub take_rule : ParsedRule → RuleLoop → RuleLoop
  take_rule p s =
      let key = p.rule.external_id in
      if one_of key s.seen then s else keep_rule p (record s { seen = key ∷ s.seen }) (existing key)

  abbrev pub rule_url : Text → Text
  rule_url member =
      codes "https://github.com/SigmaHQ/sigma/blob/" ++ (tag_text tag ++ (codes "/" ++ member))

  abbrev pub take_parsed_rule : Text → Option Rule → RuleLoop → RuleLoop
  take_parsed_rule member none s = record s {
    stats = record s.stats { malformed = s.stats.malformed + 1 };
  }
  take_parsed_rule member (some rule) s =
      take_rule (record { rule = rule; url = rule_url member }) s

  abbrev pub count_member : RuleLoop → RuleLoop
  count_member s = record s { stats = record s.stats { fetched = s.stats.fetched + 1 } }

  -- `for member, text in iter_rules(archive)`
  abbrev pub take_members : (Text → Option Rule) → List (Text × Text) → RuleLoop → RuleLoop
  take_members parse [] s = s
  take_members parse ((member, text) ∷ members) s =
      take_members parse members (take_parsed_rule member (parse text) (count_member s))
