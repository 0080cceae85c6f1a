-- ===== src/Rampart/Report/Markdown.antt =====
-- backend/app/services/rampart/export.py: `to_markdown`.
use asber.Base.{
  Bool, List, Option, Text, [], codes, decimal, filter, if◌then◌else◌, is_empty, join, length, map,
  none, some, ◌++◌, ◌==◌, ◌∷◌, ℕ,
}
use asber.Matching.Asset.{State, affected, not_affected, possibly_affected}
use asber.Export.{or_else, md}
use asber.Rampart.Report.{ReportRow, AssetEntry, Report, state_index, tenths}

abbrev pub state_title : State → Text
state_title affected = codes "Affected"
state_title possibly_affected = codes "Possibly affected — check by hand"
state_title not_affected = codes "Ruled out"

-- `md(…) or "—"`
abbrev pub md_or_dash : Option Text → Text
md_or_dash text = or_else (md text) (codes "—")

unfoldable pub asset_line : AssetEntry → Text
unfolding md
asset_line a = join (codes " | ") (
    (codes "| " ++ md (some a.label))
    ∷ (md (some a.vendor) ++ 32 ∷ md (some a.product))
    ∷ md_or_dash a.version
    ∷ md (some a.category)
    ∷ ((if a.catalogued then [] else codes "unmatched") ++ codes " |")
    ∷ [])

unfoldable pub inventory : List AssetEntry → List Text
inventory [] = codes "_Nothing registered._" ∷ []
inventory (a ∷ assets) =
    codes "| Asset | Software | Version | Category | |"
    ∷ codes "| --- | --- | --- | --- | --- |"
    ∷ map asset_line (a ∷ assets)

abbrev pub flag : Text → (ℕ → Text) → Option ℕ → List Text
flag label show none = []
flag label show (some n) = (label ++ show n) ∷ []

abbrev pub heading_title : Option Text → Text
heading_title none = []
heading_title (some title) = if is_empty title then [] else codes " — " ++ md (some title)

unfoldable pub flags_of : ReportRow → Text
unfolding decimal join
flags_of r = join (codes " · ") (
    (if r.in_kev then codes "CISA KEV" ∷ [] else [])
    ++ (flag (codes "CVSS ") tenths r.cvss_score
        ++ flag (codes "relevance ") decimal r.relevance_score))

abbrev pub row_heading : ReportRow → Text
row_heading r = codes "### " ++ (md (some r.cve_id) ++ heading_title r.title)

abbrev pub row_asset : ReportRow → Text
row_asset r =
    codes "- Asset: "
    ++ (md r.asset
        ++ (codes " (" ++ (md r.asset_software ++ (32 ∷ md_or_dash r.asset_version ++ codes ")"))))

unfoldable pub row_lines : ReportRow → List Text
row_lines r =
    let flags = flags_of r in
    let shown = if is_empty flags then [] else md (some flags) ∷ [] in
    let why = codes "- Why: " ++ md (some r.evidence) in
    row_heading r ∷ shown ++ (row_asset r ∷ why ∷ [] ∷ [])

abbrev pub is_state : State → ReportRow → Bool
is_state s r = state_index r.state == state_index s

abbrev pub lines_of : List ReportRow → List Text
lines_of [] = []
lines_of (r ∷ rows) = row_lines r ++ lines_of rows

abbrev pub section_of : State → List ReportRow → List Text
section_of s [] = []
section_of s (r ∷ rows) =
    (codes "## " ++ (state_title s ++ (codes " (" ++ (decimal (length (r ∷ rows)) ++ codes ")"))))
    ∷ []
    ∷ lines_of (r ∷ rows)

abbrev pub state_section : List ReportRow → State → List Text
state_section rows s = section_of s (filter (is_state s) rows)

abbrev pub generated : Option Text → List Text
generated none = []
generated (some at_time) =
    if is_empty at_time
    then []
    else (codes "Generated " ++ (md (some at_time) ++ codes ".")) ∷ [] ∷ []

unfoldable pub to_markdown : Report → Text
unfolding join
to_markdown report =
    let rows = report.matches in
    join (10 ∷ []) (
      (codes "# " ++ md (some report.environment)) ∷ [] ∷ generated report.generated_at
      ++ (codes "## Inventory" ∷ [] ∷ inventory report.assets
          ++ ([] ∷ state_section rows affected
              ++ (state_section rows possibly_affected
                  ++ (state_section rows not_affected
                      ++ (codes "---"
                          ∷ []
                          ∷ codes
                              "_Exported from Asber. The inventory in this file describes a live environment; treat it as you would a network diagram._"
                          ∷ []))))))
