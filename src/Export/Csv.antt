-- ===== src/Export/Csv.antt =====
-- `csv.writer` as backend/app/services/export.py and rampart/export.py use it: fields are quoted
-- where they must be, and a row ends in a carriage return and a line feed.
pub mod Reader
use asber.Base.{Bool, List, Text, [], any, if◌then◌else◌, ℕ, ◌++◌, ◌==◌, ◌||◌, ◌∷◌}

abbrev pub is_csv_special : ℕ → Bool
is_csv_special c = c == b',' || c == 34 || c == 13 || c == 10

abbrev pub doubled : Text → Text
doubled [] = []
doubled (c ∷ s) = let rest = doubled s in if c == 34 then 34 ∷ 34 ∷ rest else c ∷ rest

abbrev pub write_field : Text → Text
write_field f = if any is_csv_special f then 34 ∷ doubled f ++ 34 ∷ [] else f

abbrev pub write_fields : Text → List Text → Text
write_fields f [] = write_field f
write_fields f (g ∷ fs) = write_field f ++ b',' ∷ write_fields g fs

-- `w.writerow` of a row of two fields at least.
abbrev pub write_row : List Text → Text
write_row [] = 13 ∷ 10 ∷ []
write_row (f ∷ fs) = write_fields f fs ++ 13 ∷ 10 ∷ []

unfoldable pub write_rows : List (List Text) → Text
write_rows [] = []
write_rows (row ∷ rows) = write_row row ++ write_rows rows
