-- ===== src/Sigma.antt =====
-- backend/app/services/sigma.py. A document is what `yaml.safe_load` makes of a text, a parameter
-- like `yaml.safe_dump`; a nested value is the text that `str` writes of it.
pub mod Archive
mod Examples
pub mod Releases
pub mod Sync
pub mod Bounds
use asber.Base.{
  Bool, Dict, List, Option, Text, [], all, codes, drop, if◌then◌else◌, is_digit, is_empty, leb,
  length, lookup, lower, none, one_of, some, starts_with, strip, take, text_eq, upper, ℕ, ◌&&◌,
  ◌++◌, ◌==◌, ◌||◌, ◌∷◌,
}
use asber.Indicators.{spaced_words, or_none}

-- A value of a document, with its text; `null` is None.
pub data Value : Type 0 where
  null : Value
  word : Text → Value
  scalar : Text → Value
  sequence : Text → List (Option Text) → Value
  mapping : Text → Dict (Option Text) → Value

abbrev pub printed : Value → Option Text
printed null = none
printed (word t) = some t
printed (scalar t) = some t
printed (sequence t items) = some t
printed (mapping t entries) = some t

-- What `yaml.safe_load` returns, or that it raises.
pub data Loaded : Type 0 where
  unreadable : Loaded
  other_document : Loaded
  document : Dict Value → Loaded

-- `doc.get(key)`
abbrev pub or_null : Option Value → Value
or_null none = null
or_null (some v) = v

abbrev pub field_of : Text → Dict Value → Value
field_of key doc = or_null (lookup key doc)

-- `_text`, of the text of a value
unfoldable pub text_within : Option Text → ℕ → Option Text
text_within none limit = none
text_within (some t) limit = or_none (take limit (spaced_words t))

abbrev pub given_only : Option Text → List Text
given_only none = []
given_only (some t) = t ∷ []

abbrev pub texts_within : List (Option Text) → List Text
texts_within [] = []
texts_within (v ∷ values) = given_only (text_within v 500) ++ texts_within values

unfoldable pub str_list : Value → List Text
str_list null = []
str_list (word t) = texts_within (some t ∷ [])
str_list (scalar t) = []
str_list (sequence t items) = texts_within items
str_list (mapping t entries) = []

-- `if x not in out: out.append(x)`, for what a tag names
abbrev pub add_named : List Text → Option Text → List Text
add_named out none = out
add_named out (some name) = if one_of name out then out else out ++ name ∷ []

module _ (named_by : Text → Option Text) where
  abbrev pub names_from : List Text → List Text → List Text
  names_from out [] = out
  names_from out (tag ∷ tags) = names_from (add_named out (named_by tag)) tags

abbrev pub are_digits : ℕ → Text → Bool
are_digits n t = length t == n && all is_digit t

-- `t[0-9]{4}(?:\.[0-9]{3})?`, in lower case
abbrev pub is_technique : Text → Bool
is_technique t =
    let rest = drop 5 t in
    starts_with t (codes "t")
    && are_digits 4 (take 4 (drop 1 t))
    && (is_empty rest || starts_with rest (codes ".") && are_digits 3 (drop 1 rest))

-- What `_ATTACK_TECHNIQUE` finds in a tag, in upper case.
unfoldable pub technique_in : Text → Option Text
technique_in tag =
    let t = drop 7 (lower (strip tag)) in
    if starts_with (lower (strip tag)) (codes "attack.") && is_technique t
    then some (upper (drop 7 (strip tag)))
    else none

-- What `_CVE_TAG` finds in a tag, as an id.
unfoldable pub cve_in : Text → Option Text
cve_in tag =
    let v = strip tag in
    let year = take 4 (drop 4 v) in
    let sep = take 1 (drop 8 v) in
    let number = drop 9 v in
    if starts_with (lower v) (codes "cve.")
      && are_digits 4 year
      && (text_eq sep (codes "-") || text_eq sep (codes "."))
      && leb 4 (length number)
      && all is_digit number
    then some (codes "CVE-" ++ (year ++ (codes "-" ++ number)))
    else none

unfoldable pub techniques_from_tags : List Text → List Text
techniques_from_tags = names_from technique_in []

unfoldable pub cves_from_tags : List Text → List Text
cves_from_tags = names_from cve_in []

-- The columns of a detection rule that its document fills.
pub record Rule : Type 0 where
  pub external_id : Text
  pub title : Text
  pub description : Option Text
  pub rule_format : Text
  pub status : Option Text
  pub level : Option Text
  pub logsource : Dict (Option Text)
  pub detection : Option Text
  pub falsepositives : List Text
  pub references : List Text
  pub tags : List Text
  pub techniques : List Text
  pub cve_ids : List Text
  pub author : Option Text

abbrev pub lowered : Option Text → Option Text
lowered none = none
lowered (some t) = some (lower t)

abbrev pub entries_within : Dict (Option Text) → Dict (Option Text)
entries_within [] = []
entries_within ((k, v) ∷ entries) = (k, text_within v 300) ∷ entries_within entries

abbrev pub logsource_of : Value → Dict (Option Text)
logsource_of null = []
logsource_of (word t) = []
logsource_of (scalar t) = []
logsource_of (sequence t items) = []
logsource_of (mapping t entries) = entries_within entries

abbrev pub text_field : Text → ℕ → Dict Value → Option Text
text_field key limit doc = text_within (printed (field_of key doc)) limit

module _ (safe_dump : Value → Text) where
  abbrev pub dumped : Value → Option Text
  dumped null = none
  dumped (word t) = some (safe_dump (word t))
  dumped (scalar t) = some (safe_dump (scalar t))
  dumped (sequence t items) = some (safe_dump (sequence t items))
  dumped (mapping t entries) = some (safe_dump (mapping t entries))

  abbrev pub rule_of : Dict Value → Text → Text → Rule
  rule_of doc rule_id title = record {
    external_id = rule_id;
    title = title;
    description = text_field (codes "description") 2000 doc;
    rule_format = codes "sigma";
    status = lowered (text_field (codes "status") 32 doc);
    level = lowered (text_field (codes "level") 32 doc);
    logsource = logsource_of (field_of (codes "logsource") doc);
    detection = dumped (field_of (codes "detection") doc);
    falsepositives = str_list (field_of (codes "falsepositives") doc);
    references = str_list (field_of (codes "references") doc);
    tags = str_list (field_of (codes "tags") doc);
    techniques = techniques_from_tags (str_list (field_of (codes "tags") doc));
    cve_ids = cves_from_tags (str_list (field_of (codes "tags") doc));
    author = text_field (codes "author") 300 doc;
  }

  abbrev pub rule_with : Dict Value → Option Text → Option Text → Option Rule
  rule_with doc none title = none
  rule_with doc (some rule_id) none = none
  rule_with doc (some rule_id) (some title) = some (rule_of doc rule_id title)

  abbrev pub rule_in : Loaded → Option Rule
  rule_in unreadable = none
  rule_in other_document = none
  rule_in (document doc) =
      rule_with doc (text_field (codes "id") 300 doc) (text_field (codes "title") 500 doc)

  -- `none` is the error `MalformedRule`.
  unfoldable pub parse_rule : (Text → Loaded) → Text → Option Rule
  parse_rule safe_load text = rule_in (safe_load text)
