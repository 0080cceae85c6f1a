-- ===== src/Normalize/Kev.antt =====
-- backend/app/services/normalize.py: `parse_kev_entry`, as `parse_nvd_cve` in Normalize/Cve. What
-- `URL_IN_TEXT_RE` finds in a text is a parameter.
use asber.Base.{
  List, Option, Text, [], codes, filter, is_empty, none, not, some, starts_with, ℕ, ◌++◌, ◌==◌,
  ◌||◌, ◌∷◌,
}
use asber.Normalize.Cve.{valid_or_none}
use asber.Sigma.{given_only}
use asber.Normalize.{text_or_none, clip}
use asber.Indicators.{rstrip_of}
use asber.Correlation.Merge.{KevEntry}
use asber.Correlation.Documents.{once_each}

pub record KevRow : Type 0 where
  pub cve_id : Option Text
  pub notes : Option Text
  pub cwes : List Text
  pub vendor_project : Option Text
  pub product : Option Text
  pub vulnerability_name : Option Text
  pub date_added : Option Text
  pub due_date : Option Text
  pub required_action : Option Text
  pub known_ransomware : Option Text
  pub short_description : Option Text

abbrev pub without_stop : Text → Text
without_stop = rstrip_of (λ c. c == b'.' || c == b',' || c == b')')

module _ (html_to_text : Option Text → Option ℕ → Text) (safe_url : Option Text → Option Text)
    (parse_date : Option Text → Option ℕ) (urls_in : Text → List Text) where
  abbrev pub safe_urls : List Text → List Text
  safe_urls [] = []
  safe_urls (url ∷ urls) =
      filter (λ u. not (is_empty u)) (given_only (safe_url (some (without_stop url))))
      ++ safe_urls urls

  unfoldable pub kev_entry_of : Text → KevRow → KevEntry
  unfolding clip
  kev_entry_of cve_id row =
      let notes = html_to_text row.notes (some 4000) in
      record {
        cve_id = cve_id;
        vendor = clip (some (html_to_text row.vendor_project none)) 200;
        product = clip (some (html_to_text row.product none)) 300;
        kev_name = text_or_none (html_to_text row.vulnerability_name (some 500));
        kev_date_added = parse_date row.date_added;
        kev_due_date = parse_date row.due_date;
        kev_required_action = text_or_none (html_to_text row.required_action (some 2000));
        kev_ransomware = clip row.known_ransomware 16;
        kev_notes = text_or_none notes;
        short_description = text_or_none (html_to_text row.short_description (some 4000));
        cwes = filter (λ c. starts_with c (codes "CWE-")) row.cwes;
        note_urls = once_each [] (safe_urls (urls_in notes));
      }

  abbrev pub kev_entry_with : KevRow → Option Text → Option KevEntry
  kev_entry_with row none = none
  kev_entry_with row (some cve_id) = some (kev_entry_of cve_id row)

  -- `none` is the error `MalformedRecord`; a row that is not an object is `none`.
  unfoldable pub parse_kev_entry : Option KevRow → Option KevEntry
  parse_kev_entry none = none
  parse_kev_entry (some row) = kev_entry_with row (valid_or_none row.cve_id)
