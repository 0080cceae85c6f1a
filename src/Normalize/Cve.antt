-- ===== src/Normalize/Cve.antt =====
-- backend/app/services/normalize.py: `parse_nvd_cve` and `_pick_ssvc`. An item is a record of the
-- keys that are read, and a value of another type is an absent one. Not so in SSVC, where a field is
-- absent if its key is, and is else the text that `str` writes of its value. `html_to_text`,
-- `safe_url` and `parse_dt` of sanitize.py rest on libraries and are parameters.
use asber.Export.{given_text, safe_url}
use asber.Base.{
  List, Option, Text, [], any, codes, if◌then◌else◌, is_empty, join, lower, none, not, one_of, some,
  starts_with, take, text_eq, ℕ, ◌&&◌, ◌++◌, ◌∷◌,
}
use asber.Normalize.{
  pick_cvss, clip, is_same_key, configured_products, reference_type, CpeMatch, Metric, valid_cve_id,
  text_or_none,
}
use asber.Correlation.Nvd.{NvdProduct, NvdEntry, NvdReference}
use asber.Correlation.Merge.{is_absent}

pub record SsvcOption : Type 0 where
  pub exploitation : Option Text
  pub automatable : Option Text
  pub technical_impact : Option Text

pub record AffectedItem : Type 0 where
  pub affected_vendor : Option Text
  pub affected_product : Option Text
  pub affected_versions : List (Text × Option Text)

pub record RawReference : Type 0 where
  pub raw_url : Option Text
  pub raw_tags : List Text

-- The lists of lists are flat where the code goes through them in one loop.
pub record CveItem : Type 0 where
  pub id : Option Text
  pub descriptions : List (Text × Option Text)
  pub weaknesses : List (Option Text)
  pub metrics : List (List Metric)
  pub ssvc_v203 : List (List SsvcOption)
  pub ssvc : List (List SsvcOption)
  pub matches : List CpeMatch
  pub affected : List AffectedItem
  pub raw_references : List RawReference
  pub status : Option Text
  pub published_text : Option Text
  pub modified_text : Option Text

-- The value of the first description in English.
abbrev pub english : List (Text × Option Text) → Option Text
english [] = none
english ((lang, value) ∷ descriptions) =
    let rest = english descriptions in if text_eq lang (codes "en") then value else rest

abbrev pub add_cwe : Option Text → List Text → List Text
add_cwe none cwes = cwes
add_cwe (some cwe) cwes =
    if starts_with cwe (codes "CWE-") && not (one_of cwe cwes) then cwes ++ cwe ∷ [] else cwes

abbrev pub cwes_of : List (Option Text) → List Text → List Text
cwes_of [] cwes = cwes
cwes_of (w ∷ weaknesses) cwes = cwes_of weaknesses (add_cwe w cwes)

pub record Ssvc : Type 0 where
  pub ssvc_exploitation : Option Text
  pub ssvc_automatable : Option Text
  pub ssvc_technical_impact : Option Text

-- `if key in opt: … = clip(str(opt[key]).lower(), n)`
abbrev pub option_or : Option Text → ℕ → Option Text → Option Text
option_or none n old = old
option_or (some v) n old = clip (some (lower v)) n

abbrev pub take_option : SsvcOption → Ssvc → Ssvc
take_option o s = record {
  ssvc_exploitation = option_or o.exploitation 16 s.ssvc_exploitation;
  ssvc_automatable = option_or o.automatable 8 s.ssvc_automatable;
  ssvc_technical_impact = option_or o.technical_impact 16 s.ssvc_technical_impact;
}

abbrev pub take_options : List SsvcOption → Ssvc → Ssvc
take_options [] s = s
take_options (o ∷ options) s = take_options options (take_option o s)

abbrev pub take_entries : List (List SsvcOption) → Ssvc → Ssvc
take_entries [] s = s
take_entries (options ∷ entries) s = take_entries entries (take_options options s)

-- `_pick_ssvc`
unfoldable pub pick_ssvc : List (List SsvcOption) → List (List SsvcOption) → Ssvc
pick_ssvc v203 v1 =
    take_entries (if is_empty v203 then v1 else v203)
      (record { ssvc_exploitation = none; ssvc_automatable = none; ssvc_technical_impact = none })

-- `products.setdefault(key, …)`
abbrev pub put_default : NvdProduct → List NvdProduct → List NvdProduct
put_default p products =
    if any (λ q. is_same_key q p) products then products else products ++ p ∷ []

abbrev pub affected_texts : List (Text × Option Text) → List Text
affected_texts [] = []
affected_texts ((state, version) ∷ versions) =
    let rest = affected_texts versions in
    if text_eq state (codes "affected") && not (is_absent version)
    then given_text version ∷ rest
    else rest

module _ (html_to_text : Option Text → Option ℕ → Text) where
  abbrev pub name_within : ℕ → Option Text → Text
  name_within n name = given_text (clip (some (html_to_text name none)) n)

  abbrev pub affected_product_of : AffectedItem → NvdProduct
  affected_product_of a = record {
    vendor = name_within 200 a.affected_vendor;
    product = name_within 300 a.affected_product;
    cpe = [];
    versions = text_or_none (take 1000 (join (codes ", ") (affected_texts a.affected_versions)));
  }

  abbrev pub affected_products : List AffectedItem → List NvdProduct → List NvdProduct
  affected_products [] products = products
  affected_products (a ∷ items) products =
      let p = affected_product_of a in
      affected_products items
        (if is_empty p.vendor && is_empty p.product then products else put_default p products)

abbrev pub read_reference : List Text → Option Text → List NvdReference
read_reference tags none = []
read_reference tags (some url) =
    if is_empty url
    then []
    else record { url = url; tags = tags; ref_type = reference_type tags } ∷ []

abbrev pub read_references : (Option Text → Option Text) → List RawReference → List NvdReference
read_references safe_url [] = []
read_references safe_url (ref ∷ refs) =
    read_reference ref.raw_tags (safe_url ref.raw_url) ++ read_references safe_url refs

abbrev pub first_product : List NvdProduct → Option NvdProduct
first_product [] = none
first_product (p ∷ products) = some p

abbrev pub vendor_of : Option NvdProduct → Option Text
vendor_of none = none
vendor_of (some p) = some p.vendor

abbrev pub product_of : Option NvdProduct → Option Text
product_of none = none
product_of (some p) = some p.product

abbrev pub valid_or_none : Option Text → Option Text
valid_or_none none = none
valid_or_none (some value) = valid_cve_id value

module _ (html_to_text : Option Text → Option ℕ → Text) (safe_url : Option Text → Option Text)
    (parse_dt : Option Text → Option ℕ) where
  unfoldable pub item_products : CveItem → List NvdProduct
  unfolding configured_products
  item_products item =
      affected_products html_to_text item.affected (configured_products item.matches [])

  unfoldable pub entry_of : Text → CveItem → NvdEntry
  unfolding pick_cvss pick_ssvc clip
  entry_of cve_id item =
      let cvss = pick_cvss item.metrics in
      let ssvc = pick_ssvc item.ssvc_v203 item.ssvc in
      let first = first_product (item_products item) in
      record {
        cve_id = cve_id;
        description = text_or_none (html_to_text (english item.descriptions) (some 8000));
        vuln_status = clip item.status 64;
        published = parse_dt item.published_text;
        last_modified = parse_dt item.modified_text;
        cwes = cwes_of item.weaknesses [];
        products = item_products item;
        references = read_references safe_url item.raw_references;
        primary_vendor = vendor_of first;
        primary_product = product_of first;
        cvss_score = cvss.score;
        cvss_severity = cvss.severity;
        cvss_vector = cvss.vector;
        cvss_version = cvss.version;
        ssvc_exploitation = ssvc.ssvc_exploitation;
        ssvc_automatable = ssvc.ssvc_automatable;
        ssvc_technical_impact = ssvc.ssvc_technical_impact;
      }

  abbrev pub entry_with : CveItem → Option Text → Option NvdEntry
  entry_with item none = none
  entry_with item (some cve_id) = some (entry_of cve_id item)

  -- `none` is the error `MalformedRecord`; an item that is not an object is `none`.
  unfoldable pub parse_nvd_cve : Option CveItem → Option NvdEntry
  parse_nvd_cve none = none
  parse_nvd_cve (some item) = entry_with item (valid_or_none item.id)
