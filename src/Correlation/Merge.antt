-- ===== src/Correlation/Merge.antt =====
-- backend/app/services/correlation.py: what `apply_kev` makes of a vulnerability's row, and `_assign`.
use asber.Base.{
  Bool, List, Option, Text, [], false, if◌then◌else◌, is_empty, none, not, some, text_eq, true, ℕ,
  ◌&&◌, ◌==◌, ◌∷◌,
}
use asber.Models.{Vulnerability}

-- What `parse_kev_entry` returns.
pub record KevEntry : Type 0 where
  pub cve_id : Text
  pub vendor : Option Text
  pub product : Option Text
  pub kev_name : Option Text
  pub kev_date_added : Option ℕ
  pub kev_due_date : Option ℕ
  pub kev_required_action : Option Text
  pub kev_ransomware : Option Text
  pub kev_notes : Option Text
  pub short_description : Option Text
  pub cwes : List Text
  pub note_urls : List Text

-- `not value`
abbrev pub is_absent : Option Text → Bool
is_absent none = true
is_absent (some t) = is_empty t

-- `values[k]` over an empty attribute only.
abbrev pub fill_empty : Option Text → Option Text → Option Text
fill_empty old new = if is_absent old then new else old

-- `values[k]` over an empty attribute, if there is a value.
abbrev pub fill_given : Option Text → Option Text → Option Text
fill_given old new = if is_absent old && not (is_absent new) then new else old

abbrev pub fill_cwes : List Text → List Text → List Text
fill_cwes old new = if not (is_empty new) && is_empty old then new else old

-- The attributes after `_assign(vuln, values)`.
unfoldable pub merge_kev : KevEntry → Vulnerability → Vulnerability
merge_kev entry v = record v {
  kev_name = entry.kev_name;
  kev_date_added = entry.kev_date_added;
  kev_due_date = entry.kev_due_date;
  kev_required_action = entry.kev_required_action;
  kev_ransomware = entry.kev_ransomware;
  kev_notes = entry.kev_notes;
  in_kev = true;
  title = fill_empty v.title entry.kev_name;
  description = fill_given v.description entry.short_description;
  vendor = fill_empty v.vendor entry.vendor;
  product = fill_empty v.product entry.product;
  cwes = fill_cwes v.cwes entry.cwes;
}

abbrev pub same_text : Option Text → Option Text → Bool
same_text none none = true
same_text none (some t) = false
same_text (some s) none = false
same_text (some s) (some t) = text_eq s t

abbrev pub same_date : Option ℕ → Option ℕ → Bool
same_date none none = true
same_date none (some t) = false
same_date (some s) none = false
same_date (some s) (some t) = s == t

abbrev pub same_texts : List Text → List Text → Bool
same_texts [] [] = true
same_texts [] (t ∷ ts) = false
same_texts (s ∷ ss) [] = false
same_texts (s ∷ ss) (t ∷ ts) = text_eq s t && same_texts ss ts

-- Whether `_assign` changed an attribute; the ones that are not in `values` are the same.
unfoldable pub is_changed : Vulnerability → Vulnerability → Bool
is_changed v w = not (
    same_text v.kev_name w.kev_name
    && same_date v.kev_date_added w.kev_date_added
    && same_date v.kev_due_date w.kev_due_date
    && same_text v.kev_required_action w.kev_required_action
    && same_text v.kev_ransomware w.kev_ransomware
    && same_text v.kev_notes w.kev_notes
    && (if v.in_kev then w.in_kev else not w.in_kev)
    && same_text v.title w.title
    && same_text v.description w.description
    && same_text v.vendor w.vendor
    && same_text v.product w.product
    && same_texts v.cwes w.cwes)

abbrev pub stamped : ℕ → Bool → Vulnerability → Vulnerability
stamped now b v = if b then record v { updated_at = now } else v
