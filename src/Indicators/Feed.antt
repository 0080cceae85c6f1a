-- ===== src/Indicators/Feed.antt =====
-- backend/app/workers/abusech.py: `_rows`, `resolve_family` and what the two workers make of a row.
-- Parameters: `csv.reader`, the date parser, `urlsplit`, and the database's `ILIKE` of a name and a
-- pattern. A payload is the text that its bytes decode to.
use asber.Base.{
  Bool, Dict, List, Option, Text, [], all, any, codes, false, filter, find, if◌then◌else◌, insert,
  is_empty, join, leb, length, lookup, lower, lstrip, ltb, map, none, not, one_of, some, split_on,
  starts_with, strip, text_eq, ℕ, ◌&&◌, ◌++◌, ◌==◌, ◌||◌, ◌∷◌,
}
use asber.Indicators.{
  classify, same_kind, lstrip_of, host_of, unquoted, sha256, url_kind, lookup_form, clean_word,
}
use asber.Models.{AttackObject}
use asber.Normalize.{clip}
use asber.Indicators.Families.{family_keys, split_tags}
use asber.Ingestion.Registry.Sync.Runtime.{expected}
use asber.Export.{or_else}
use asber.Correlation.Entry.{or_empty}

abbrev pub Row : Type 0
Row = Dict Text

-- Where `str.splitlines` ends a line.
abbrev pub is_line_break : ℕ → Bool
is_line_break c = leb 10 c && leb c 13 || leb 28 c && leb c 30 || c == 133 || c == 8232 || c == 8233

abbrev pub text_lines : Text → List Text
text_lines text = filter (λ line. not (is_empty (strip line))) (split_on is_line_break text)

-- `line.lstrip("# ")`
abbrev pub uncommented : Text → Text
uncommented = lstrip_of (λ c. c == b'#' || c == 32)

abbrev pub column_names : Text → List Text
column_names line = map (λ c. unquoted (strip c)) (split_on (λ c. c == b',') line)

abbrev pub find_header : List Text → List Text → Option (Text × List Text)
find_header expected [] = none
find_header expected (line ∷ lines) =
    let rest = find_header expected lines in
    let cols = column_names (strip (uncommented line)) in
    if all (λ name. one_of name cols) expected then some (line, lines) else rest

-- `dict(zip(header, fields))`
abbrev pub zip_row : List Text → List Text → Row → Row
zip_row [] fields row = row
zip_row (name ∷ header) [] row = row
zip_row (name ∷ header) (field ∷ fields) row = zip_row header fields (insert name field row)

-- `csv.DictReader`, which passes over empty records.
abbrev pub dict_rows : List Text → List (List Text) → List Row
dict_rows header records =
    map (λ fields. zip_row header fields []) (filter (λ fields. not (is_empty fields)) records)

module _ (csv_reader : Text → List (List Text)) where
  abbrev pub rows_below : Option (Text × List Text) → Option (List Row)
  rows_below none = none
  rows_below (some (line, lines)) =
      let body = filter (λ l. not (starts_with (lstrip l) (codes "#"))) lines in
      some (dict_rows (column_names (uncommented line)) (csv_reader (join (10 ∷ []) body)))

  -- `none` is the error `MalformedRecord`.
  unfoldable pub payload_rows : List Text → Text → Option (List Row)
  payload_rows expected payload = rows_below (find_header expected (text_lines payload))

abbrev pub is_software : AttackObject → Bool
is_software o = text_eq o.obj_type (codes "malware") || text_eq o.obj_type (codes "tool")

-- `if stix`
abbrev pub is_found : Option Text → Bool
is_found none = false
is_found (some stix) = not (is_empty stix)

abbrev pub Cache : Type 0
Cache = Dict (Option Text)

abbrev pub id_of : Option AttackObject → Option Text
id_of none = none
id_of (some o) = some o.stix_id

module _ (ilike : Text → Text → Bool) (objects : List AttackObject) where
  abbrev pub named_software : Text → Option AttackObject
  named_software key = find (λ o. is_software o && ilike o.name key) objects

  abbrev pub aliased_software : Text → Option AttackObject
  aliased_software key =
      find (λ o. is_software o && any (λ a. text_eq (lower a) key) o.aliases) objects

  abbrev pub or_aliased : Text → Option AttackObject → Option Text
  or_aliased key (some o) = some o.stix_id
  or_aliased key none = id_of (aliased_software key)

  -- What the database holds for a key.
  unfoldable pub stix_of : Text → Option Text
  stix_of key = or_aliased key (named_software key)

  abbrev pub ask_cache : Text → Cache → Option (Option Text) → Option Text × Cache
  ask_cache key cache (some stix) = (stix, cache)
  ask_cache key cache none = (stix_of key, insert key (stix_of key) cache)

  abbrev pub resolve_keys : List Text → Cache → Option Text × Cache
  resolve_keys [] cache = (none, cache)
  resolve_keys (key ∷ keys) cache =
      let asked = ask_cache key cache (lookup key cache) in
      let rest = resolve_keys keys asked.1 in if is_found asked.0 then asked else rest

  unfoldable pub resolve_family : Option Text → Cache → Option Text × Cache
  resolve_family family cache = resolve_keys (family_keys family) cache

-- The columns of an indicator that a row of a feed fills.
pub record Observation : Type 0 where
  pub kind : Text
  pub value : Text
  pub value_norm : Text
  pub host : Option Text
  pub family : Option Text
  pub attack_stix_id : Option Text
  pub threat : Option Text
  pub status : Option Text
  pub file_type : Option Text
  pub mime_type : Option Text
  pub related : Dict Text
  pub tags : List Text
  pub reporter : Option Text
  pub reference_url : Option Text
  pub first_seen_at : Option ℕ

-- What `parse` tells of a row; a published one comes with the candidates for its family.
pub data Parsed : Type 0 where
  malformed_row : Parsed
  skipped_row : Parsed
  published : Observation → List Text → Parsed

-- `row.get(name) or ""`
abbrev pub column : Text → Row → Text
column name row = or_empty (lookup name row)

abbrev pub entry_if_given : Text → Option Text → Dict Text
entry_if_given name none = []
entry_if_given name (some v) = if is_empty v then [] else (name, v) ∷ []

module _ (date_parser : Text → Option ℕ) where
  -- `sanitize.parse_dt`, of a text
  abbrev pub parse_dt : Option Text → Option ℕ
  parse_dt none = none
  parse_dt (some value) = if is_empty value then none else date_parser value

  abbrev pub sample : Text → Row → Observation
  sample hash row = record {
    kind = sha256;
    value = hash;
    value_norm = hash;
    host = none;
    family = clip (clean_word (lookup (codes "signature") row)) 200;
    attack_stix_id = none;
    threat = some (codes "payload");
    status = none;
    file_type = clip (clean_word (lookup (codes "file_type_guess") row)) 64;
    mime_type = clip (clean_word (lookup (codes "mime_type") row)) 120;
    related =
        entry_if_given (codes "md5") (some (lookup_form (column (codes "md5_hash") row)))
        ++ entry_if_given (codes "sha1") (some (lookup_form (column (codes "sha1_hash") row)))
        ++ entry_if_given (codes "imphash") (clean_word (lookup (codes "imphash") row));
    tags = [];
    reporter = clip (clean_word (lookup (codes "reporter") row)) 120;
    reference_url = some (codes "https://bazaar.abuse.ch/sample/" ++ (hash ++ codes "/"));
    first_seen_at = parse_dt (lookup (codes "first_seen_utc") row);
  }

  abbrev pub as_candidates : Option Text → List Text
  as_candidates none = []
  as_candidates (some family) = if is_empty family then [] else family ∷ []

  -- `MalwareBazaarWorker.parse`
  unfoldable pub parse_sample : Row → Parsed
  parse_sample row =
      let hash = lookup_form (column (codes "sha256_hash") row) in
      if same_kind (classify hash) sha256
      then published (sample hash row) (as_candidates (clean_word (lookup (codes "signature") row)))
      else malformed_row

  abbrev pub or_unknown : Option Text → Text
  or_unknown none = codes "unknown"
  or_unknown (some status) = or_else status (codes "unknown")

  abbrev pub sighting : Text → Option Text → List Text → Row → Observation
  sighting url host tags row = record {
    kind = url_kind;
    value = url;
    value_norm = lookup_form url;
    host = clip host 300;
    family = none;
    attack_stix_id = none;
    threat = clip (clean_word (lookup (codes "threat") row)) 64;
    status = clip (some (or_unknown (clean_word (lookup (codes "url_status") row)))) 32;
    file_type = none;
    mime_type = none;
    related = [];
    tags = tags;
    reporter = clip (clean_word (lookup (codes "reporter") row)) 120;
    reference_url = clean_word (lookup (codes "urlhaus_link") row);
    first_seen_at = parse_dt (lookup (codes "dateadded") row);
  }

  -- The error of `urlsplit` counts as a malformed row.
  abbrev pub with_host : Text → Row → Option (Option Text) → Parsed
  with_host url row none = malformed_row
  with_host url row (some host) =
      let tags = split_tags (lookup (codes "tags") row) in
      published (sighting url host tags row) tags

  -- `UrlhausWorker.parse`
  unfoldable pub parse_url : (Text → Option Text) → Row → Parsed
  parse_url netloc_of row =
      let url = unquoted (strip (column (codes "url") row)) in
      if same_kind (classify url) url_kind
      then (if ltb 600 (length (lookup_form url))
          then skipped_row
          else with_host url row (host_of netloc_of url))
      else malformed_row
