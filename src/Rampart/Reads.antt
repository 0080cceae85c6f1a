-- ===== src/Rampart/Reads.antt =====
-- backend/app/services/rampart/repository.py: the functions that only read. An id is the key of one
-- asset; what SQL returns without an order comes as the table has it, a DISTINCT in rising order.
pub mod Isolation
pub mod Counts
pub mod Tallies
mod Examples
use asber.Base.{
  Bool, List, Option, Text, [], all_digits, any, codes, false, filter, if◌then◌else◌, int, is_empty,
  leb, map, max, none, not, one_of, some, sort_by, sorted_set, take, text_eq, true, ℕ, ◌&&◌, ◌==◌,
  ◌∷◌, all, split_on, strip,
}
use asber.Matching.Asset.{affected, State, possibly_affected}
use asber.Correlation.Links.{EntityLink}
use asber.Rampart.Repository.{owns_match}
use asber.Models.{Document}
use asber.Rampart.Report.{state_index}
use asber.Rampart.Tables.{Tables, EnvironmentMatch}

abbrev pub in_environment : Text → ℕ → EnvironmentMatch → Bool
in_environment owner environment_id m = owns_match owner m && m.environment_id == environment_id

abbrev pub same_state : State → State → Bool
same_state s t = state_index s == state_index t

-- `state.in_(states)`
abbrev pub has_state : List State → EnvironmentMatch → Bool
has_state states m = any (same_state m.state) states

-- `if states:`, which `[]` is not.
abbrev pub or_any : List State → EnvironmentMatch → Bool
or_any [] m = true
or_any (s ∷ states) m = has_state (s ∷ states) m

-- `states or [matching.AFFECTED, matching.POSSIBLY_AFFECTED]`
abbrev pub or_threats : List State → List State
or_threats [] = affected ∷ possibly_affected ∷ []
or_threats (s ∷ states) = s ∷ states

-- ORDER BY exposure DESC
abbrev pub more_exposed : EnvironmentMatch → EnvironmentMatch → Bool
more_exposed a b = leb b.exposure a.exposure

unfoldable pub list_matches : Tables → Text → ℕ → List State → List EnvironmentMatch
list_matches db owner environment_id states =
    sort_by more_exposed
      (filter (or_any states) (filter (in_environment owner environment_id) db.matches))

abbrev pub on_asset : Option ℕ → EnvironmentMatch → Bool
on_asset none m = true
on_asset (some asset_id) m = m.asset_id == asset_id

unfoldable pub matched_cve_ids : Tables → Text → ℕ → List State → Option ℕ → List Text
matched_cve_ids db owner environment_id states asset_id = sorted_set (
    map (λ m. m.cve_id)
      (filter (on_asset asset_id) (
        filter (has_state (or_threats states))
          (filter (in_environment owner environment_id) db.matches))))

-- `func.max` over the rows of one CVE.
abbrev pub greatest_exposure : Text → List EnvironmentMatch → ℕ
greatest_exposure cve_id [] = 0
greatest_exposure cve_id (m ∷ ms) =
    let rest = greatest_exposure cve_id ms in
    if text_eq m.cve_id cve_id then max m.exposure rest else rest

-- One exposure for each CVE.
unfoldable pub exposure_by_cve : Tables → Text → ℕ → List State → List (Text × ℕ)
exposure_by_cve db owner environment_id states =
    let rows =
      filter (has_state (or_threats states))
        (filter (in_environment owner environment_id) db.matches) in
    map (λ cve_id. (cve_id, greatest_exposure cve_id rows)) (sorted_set (map (λ m. m.cve_id) rows))

abbrev pub names_cve : List Text → EntityLink → Bool
names_cve cve_ids l =
    text_eq l.subject_type (codes "document")
    && (text_eq l.object_type (codes "cve") && one_of l.object_id cve_ids)

-- `int(subject_id)` without a sign: digits, with single underscores between them.
unfoldable pub unsigned_id : Text → Option ℕ
unfolding all_digits int split_on
unsigned_id t =
    if all all_digits (split_on (λ c. c == b'_') t)
    then some (int (filter (λ c. not (c == b'_')) t))
    else none

-- No row has a negative identity; `-0` is 0.
abbrev pub negated : Option ℕ → Option ℕ
negated none = none
negated (some n) = if n == 0 then some 0 else none

abbrev pub signed_id : Text → Option ℕ
signed_id [] = none
signed_id (c ∷ t) =
    if c == b'-'
    then negated (unsigned_id t)
    else if c == b'+'
    then unsigned_id t
    else unsigned_id (c ∷ t)

-- `int(subject_id)`, which fails on what is not a number; blanks around it are passed over.
unfoldable pub subject_number : Text → Option ℕ
unfolding strip
subject_number t = signed_id (strip t)

abbrev pub is_id : ℕ → Option ℕ → Bool
is_id id none = false
is_id id (some n) = n == id

-- `by_doc.get(d.id, [])`
abbrev pub is_link_of : ℕ → EntityLink → Bool
is_link_of id l = is_id id (subject_number l.subject_id)

abbrev pub cves_of : List EntityLink → Document → List Text
cves_of links d = map (λ l. l.object_id) (filter (is_link_of d.id) links)

-- ORDER BY published_at DESC NULLS LAST
abbrev pub is_newer : Option ℕ → Option ℕ → Bool
is_newer a none = true
is_newer none (some t) = false
is_newer (some s) (some t) = leb t s

unfoldable pub documents_for :
    Tables → List EntityLink → List Document → Text → ℕ → ℕ → List (Document × List Text)
documents_for db all_links documents owner environment_id limit =
    let links = filter (names_cve (matched_cve_ids db owner environment_id [] none)) all_links in
    let docs = filter (λ d. not (is_empty (cves_of links d))) documents in
    map (λ d. (d, sorted_set (cves_of links d)))
      (take limit
        (sort_by (λ (a : Document) (b : Document). is_newer a.published_at b.published_at) docs))
