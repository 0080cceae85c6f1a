-- ===== src/Normalize/Columns.antt =====
-- Which columns what `parse_nvd_cve` returns fits.
use mathlib.Core.Option.{some-injective}
use asber.Base.{
  All, All-append, Bool-cases, List, Option, Text, [], arith, codes, inl, inr, is_empty, lower,
  none, not, one_of, some, starts_with, strip, true, ℕ, ◌&&◌, ◌∷◌, ◌≡◌, refl, ◌∙◌, ap,
  if◌then◌else◌, sym, upper, ◌⊎◌,
}
use asber.Normalize.Cve.{
  Ssvc, take_option, add_cwe, cwes_of, SsvcOption, option_or, take_entries, take_options, CveItem,
  entry_of, entry_with, item_products, parse_nvd_cve, pick_ssvc, valid_or_none,
}
use asber.Normalize.{
  is_cve_id, Metric, pick_cvss, least_metric, cvss_of, configured_products, valid_cve_id,
}
use asber.Correlation.Nvd.{NvdEntry}
use asber.Normalize.Products.{
  Within, ProductsDistinct, clip-Within, configured_products-AreProducts,
  affected_products-AreProducts, FitsProduct,
}
use asber.Normalize.Severity.{severity_fits, has_long_severity}

abbrev pub FitsColumns : NvdEntry → Type 0
FitsColumns e =
    (is_cve_id e.cve_id ≡ true)
    × All (λ c. starts_with c (codes "CWE-") ≡ true) e.cwes
    × All FitsProduct e.products
    × ProductsDistinct e.products
    × Within 64 e.vuln_status
    × Within 200 e.cvss_vector
    × Within 8 e.cvss_version
    × Within 16 e.ssvc_exploitation
    × Within 8 e.ssvc_automatable
    × Within 16 e.ssvc_technical_impact

cwes_of-starts :
    (weaknesses : List (Option Text)) (cwes : List Text)
    → All (λ c. starts_with c (codes "CWE-") ≡ true) cwes
    → All (λ c. starts_with c (codes "CWE-") ≡ true) (cwes_of weaknesses cwes)
cwes_of-starts [] cwes h = h
cwes_of-starts (none ∷ weaknesses) cwes h = cwes_of-starts weaknesses cwes h
cwes_of-starts (some c ∷ weaknesses) cwes h = cwes_of-starts weaknesses _ (one)
  where
    one : All (λ c. starts_with c (codes "CWE-") ≡ true) (add_cwe (some c) cwes)
    one = elim (Bool-cases (starts_with c (codes "CWE-") && not (one_of c cwes))) [
      | inl e ↦
          let s : starts_with c (codes "CWE-") ≡ true = ground arith in
          rw e (All-append (λ c. starts_with c (codes "CWE-") ≡ true) cwes (c ∷ []) h (s, tt))
      | inr e ↦ rw e h
    ]

pick_cvss-Within :
    (metrics : List (List Metric))
    → Within 200 (pick_cvss metrics).vector × Within 8 (pick_cvss metrics).version
unfolding pick_cvss cvss_of
pick_cvss-Within [] = (tt, tt)
pick_cvss-Within ([] ∷ metrics) = pick_cvss-Within metrics
pick_cvss-Within ((e ∷ entries) ∷ metrics) =
    let best = least_metric e entries in
    (clip-Within best.vector_string 200, clip-Within best.version 8)

abbrev FitsSsvc : Ssvc → Type 0
FitsSsvc s =
    Within 16 s.ssvc_exploitation × Within 8 s.ssvc_automatable × Within 16 s.ssvc_technical_impact

option_or-Within :
    (o : Option Text) (n : ℕ) (old : Option Text) → Within n old → Within n (option_or o n old)
option_or-Within none n old h = h
option_or-Within (some v) n old h = clip-Within (some (lower v)) n

take_options-FitsSsvc :
    (options : List SsvcOption) (s : Ssvc) → FitsSsvc s → FitsSsvc (take_options options s)
take_options-FitsSsvc [] s h = h
take_options-FitsSsvc (o ∷ options) s h = take_options-FitsSsvc options (take_option o s) (
  option_or-Within o.exploitation 16 s.ssvc_exploitation h.0,
  option_or-Within o.automatable 8 s.ssvc_automatable h.1,
  option_or-Within o.technical_impact 16 s.ssvc_technical_impact h.2,
)

take_entries-FitsSsvc :
    (entries : List (List SsvcOption)) (s : Ssvc) → FitsSsvc s → FitsSsvc (take_entries entries s)
take_entries-FitsSsvc [] s h = h
take_entries-FitsSsvc (options ∷ entries) s h =
    take_entries-FitsSsvc entries (take_options options s) (take_options-FitsSsvc options s h)

valid_or_none-is_cve_id :
    (o : Option Text) (id : Text) → valid_or_none o ≡ some id → is_cve_id id ≡ true
unfolding valid_cve_id
valid_or_none-is_cve_id none id e = absurd (cc)
valid_or_none-is_cve_id (some value) id e = elim (Bool-cases (is_cve_id (upper (strip value)))) [
  | inl f ↦
      let same : upper (strip value) ≡ id = some-injective _ _ (rw f at e) in
      ap is_cve_id (sym same) ∙ f
  | inr f ↦ (let bad : none ≡ some id = rw f at e in absurd (cc))
]

-- The severity is the one value that is not clipped: it fits unless the item has a long one.
abbrev pub FitsParsed : List (List Metric) → Option NvdEntry → Type 0
FitsParsed metrics none = Unit {0}
FitsParsed metrics (some e) =
    FitsColumns e × ((has_long_severity metrics ≡ true) ⊎ Within 16 e.cvss_severity)

abbrev pub metrics_of : Option CveItem → List (List Metric)
metrics_of none = []
metrics_of (some item) = item.metrics

-- Whatever `html_to_text`, `safe_url` and `parse_dt` return, of an item that `parse_nvd_cve` accepts
-- the id has the form of a CVE id and each CWE begins as one. Each product fits the columns of its
-- vendor, name and CPE, and none is there twice by these three. The status, the CVSS vector and
-- version and the SSVC values fit their columns, and so does the CVSS severity, of 16 characters,
-- unless a metric of the item gives a longer one, which is not clipped.
pub parse_nvd_cve-FitsColumns :
    (html_to_text : Option Text → Option ℕ → Text) (safe_url : Option Text → Option Text)
    (parse_dt : Option Text → Option ℕ) (item : Option CveItem)
    → FitsParsed (metrics_of item) (parse_nvd_cve html_to_text safe_url parse_dt item)
unfolding parse_nvd_cve entry_of item_products pick_ssvc
parse_nvd_cve-FitsColumns html_to_text safe_url parse_dt none = tt
parse_nvd_cve-FitsColumns html_to_text safe_url parse_dt (some item) =
    go (valid_or_none item.id) (valid_or_none-is_cve_id item.id)
  where
    go :
        (o : Option Text)
        → ((id : Text) → o ≡ some id → is_cve_id id ≡ true)
        → FitsParsed item.metrics (entry_with html_to_text safe_url parse_dt item o)
    go none h = tt
    go (some id) h =
        let (fits, distinct) =
          affected_products-AreProducts html_to_text item.affected
            (configured_products item.matches [])
            (configured_products-AreProducts item.matches [] (tt, tt)) in
        let (vector, version) = pick_cvss-Within item.metrics in
        let (a, b, c) =
          take_entries-FitsSsvc (if is_empty item.ssvc_v203 then item.ssvc else item.ssvc_v203)
            (record {
              ssvc_exploitation = none;
              ssvc_automatable = none;
              ssvc_technical_impact = none;
            })
            (tt, tt, tt) in
        (
          (
            h id refl,
            cwes_of-starts item.weaknesses [] tt,
            fits,
            distinct,
            clip-Within item.status 64,
            vector,
            version,
            a,
            b,
            c,
          ),
          severity_fits item.metrics,
        )
