-- ===== src/Rampart/Report/Cells.antt =====
-- What a spreadsheet reads in an exported report.
use mathlib.Core.Path.{subst}
use asber.Base.{All, Bool-cases, List, Text, [], false, inl, inr, map, refl, ◌∷◌, ◌≡◌, arith, sym}
use asber.Export.{is_formula, cell}
use asber.Rampart.Report.{Report, row_values, csv_header, ReportRow, to_csv}
use asber.Export.Csv.Reader.{read_csv, HasFields, read_csv-write_rows}

abbrev pub IsInert : List Text → Type 0
IsInert row = All (λ c. is_formula c ≡ false) row

apostrophe_is_plain : (s : Text) → is_formula (39 ∷ s) ≡ false
unfolding is_formula
apostrophe_is_plain s = refl

is_formula-cell : (text : Text) → is_formula (cell text) ≡ false
unfolding cell
is_formula-cell text = elim (Bool-cases (is_formula text)) [
  | inl e ↦ rw e (apostrophe_is_plain text)
  | inr e ↦ rw (e, e) refl
]

cells-IsInert : (texts : List Text) → IsInert (map cell texts)
cells-IsInert [] = tt
cells-IsInert (t ∷ texts) = (is_formula-cell t, cells-IsInert texts)

header-IsInert : IsInert csv_header
unfolding csv_header is_formula
header-IsInert = ground arith

header-HasFields : HasFields csv_header
unfolding csv_header
header-HasFields = refl

abbrev pub cells_of : List ReportRow → List (List Text)
cells_of rows = map (λ r. map cell (row_values r)) rows

rows-HasFields : (rows : List ReportRow) → All HasFields (cells_of rows)
unfolding row_values
rows-HasFields [] = tt
rows-HasFields (r ∷ rows) = (refl, rows-HasFields rows)

rows-IsInert : (rows : List ReportRow) → All IsInert (cells_of rows)
rows-IsInert [] = tt
rows-IsInert (r ∷ rows) = (cells-IsInert (row_values r), rows-IsInert rows)

-- A reader of comma-separated values finds in the CSV of a report its header and the cells of each
-- of its rows, in their order, whatever commas, quotes and line breaks they hold; and no cell that
-- it finds begins with a character that makes a spreadsheet take it as a formula.
pub read_csv-to_csv :
    (report : Report)
    → (read_csv (to_csv report) ≡ csv_header ∷ cells_of report.matches)
      × All IsInert (read_csv (to_csv report))
unfolding to_csv
read_csv-to_csv report =
    let rows = report.matches in
    let e =
      read_csv-write_rows (csv_header ∷ cells_of rows) (header-HasFields, rows-HasFields rows) in
    (e, subst (All IsInert) (sym e) (header-IsInert, rows-IsInert rows))
