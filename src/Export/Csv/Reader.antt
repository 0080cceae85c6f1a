-- ===== src/Export/Csv/Reader.antt =====
-- A reader of comma-separated values, and that it reads what the writer has written.
use mathlib.Core.List.{append-nil, append_assoc}
use asber.Base.{
  List, Text, [], any, ap, false, if◌then◌else◌, is_empty, refl, sym, ℕ, ◌&&◌, ◌++◌, ◌==◌, ◌∷◌, ◌≡◌,
  Bool-cases, arith, inl, inr, ◌∙◌, ==_iff, All,
}
use asber.Export.Csv.{is_csv_special, doubled, write_field, write_fields, write_row, write_rows}

pub data Mode : Type 0 where
  bare : Mode
  quoted : Mode
  closing : Mode

pub record Reader : Type 0 where
  pub mode : Mode
  pub field : Text
  pub row : List Text
  pub rows : List (List Text)

abbrev pub end_field : Reader → Reader
end_field r = record r { mode = bare; field = []; row = r.row ++ r.field ∷ [] }

abbrev pub end_row : Reader → Reader
end_row r = record {
  mode = bare;
  field = [];
  row = [];
  rows = r.rows ++ (r.row ++ r.field ∷ []) ∷ [];
}

abbrev pub add_char : ℕ → Reader → Reader
add_char c r = record r { field = r.field ++ c ∷ [] }

abbrev pub outside : ℕ → Reader → Reader
outside c r =
    if c == b','
    then end_field r
    else if c == 10
    then end_row r
    else if c == 13
    then r
    else add_char c r

abbrev pub read_in : Mode → ℕ → Reader → Reader
read_in bare c r = if c == 34 && is_empty r.field then record r { mode = quoted } else outside c r
read_in quoted c r = if c == 34 then record r { mode = closing } else add_char c r
read_in closing c r = if c == 34 then add_char c (record r { mode = quoted }) else outside c r

abbrev pub read_chars : Text → Reader → Reader
read_chars [] r = r
read_chars (c ∷ s) r = read_chars s (read_in r.mode c r)

-- The rows of a text, each of which ends in a line feed.
unfoldable pub read_csv : Text → List (List Text)
read_csv s = (read_chars s (record { mode = bare; field = []; row = []; rows = [] })).rows

read_chars-append :
    (s t : Text) (r : Reader) → read_chars (s ++ t) r ≡ read_chars t (read_chars s r)
read_chars-append [] t r = refl
read_chars-append (c ∷ s) t r = read_chars-append s t (read_in r.mode c r)

abbrev at : Mode → Text → List Text → List (List Text) → Reader
at m f row rows = record { mode = m; field = f; row = row; rows = rows }

module _ (row : List Text) (rows : List (List Text)) where
  read-bare :
      (f s : Text)
      → any is_csv_special s ≡ false
      → read_chars s (at bare f row rows) ≡ at bare (f ++ s) row rows
  read-bare f [] h = ap (λ t. at bare t row rows) (sym (append-nil f))
  read-bare f (c ∷ s) h =
      ap (read_chars s) (plain (ground arith))
      ∙ read-bare (f ++ c ∷ []) s (ground arith)
      ∙ ap (λ t. at bare t row rows) (append_assoc f (c ∷ []) s)
    where
      plain :
          is_csv_special c ≡ false
          → read_in bare c (at bare f row rows) ≡ at bare (f ++ c ∷ []) row rows
      plain e = ground arith

  read-quoted :
      (f s : Text) → read_chars (doubled s) (at quoted f row rows) ≡ at quoted (f ++ s) row rows
  read-quoted f [] = ap (λ t. at quoted t row rows) (sym (append-nil f))
  read-quoted f (c ∷ s) = elim (Bool-cases (c == 34)) [
    | inl e ↦ rw e (
        read-quoted (f ++ 34 ∷ []) s
        ∙ ap (λ t. at quoted t row rows) (append_assoc f (34 ∷ []) s)
        ∙ ap (λ d. at quoted (f ++ d ∷ s) row rows) (sym ((==_iff c 34).0 e)))
    | inr e ↦ rw e (
        ap (read_chars (doubled s)) (kept e)
        ∙ read-quoted (f ++ c ∷ []) s
        ∙ ap (λ t. at quoted t row rows) (append_assoc f (c ∷ []) s))
  ]
    where
      kept :
          (c == 34) ≡ false
          → read_in quoted c (at quoted f row rows) ≡ at quoted (f ++ c ∷ []) row rows
      kept e = rw e refl

  -- After a field, the reader holds it, and outside of quotes.
  after_field : Text → Mode
  after_field f = if any is_csv_special f then closing else bare

  read-field :
      (f : Text) → read_chars (write_field f) (at bare [] row rows) ≡ at (after_field f) f row rows
  unfolding after_field
  read-field f = elim (Bool-cases (any is_csv_special f)) [
    | inl e ↦ rw e (
        read_chars-append (doubled f) (34 ∷ []) (at quoted [] row rows)
        ∙ ap (read_chars (34 ∷ [])) (read-quoted [] f))
    | inr e ↦ rw e (read-bare [] f e)
  ]

  end-field :
      (f g : Text)
      → read_chars (b',' ∷ []) (at (after_field g) f row rows) ≡ at bare [] (row ++ f ∷ []) rows
  unfolding after_field
  end-field f g = elim (Bool-cases (any is_csv_special g)) [ inl e ↦ rw e refl | inr e ↦ rw e refl ]

  end-row :
      (f g : Text)
      → read_chars (13 ∷ 10 ∷ []) (at (after_field g) f row rows)
        ≡ at bare [] [] (rows ++ (row ++ f ∷ []) ∷ [])
  unfolding after_field
  end-row f g = elim (Bool-cases (any is_csv_special g)) [ inl e ↦ rw e refl | inr e ↦ rw e refl ]

read-fields :
    (f : Text) (fs row : List Text) (rows : List (List Text))
    → read_chars (write_fields f fs ++ 13 ∷ 10 ∷ []) (at bare [] row rows)
      ≡ at bare [] [] (rows ++ (row ++ f ∷ fs) ∷ [])
read-fields f [] row rows =
    read_chars-append (write_field f) (13 ∷ 10 ∷ []) (at bare [] row rows)
    ∙ ap (read_chars (13 ∷ 10 ∷ [])) (read-field row rows f)
    ∙ end-row row rows f f
read-fields f (g ∷ fs) row rows =
    let s = write_fields g fs ++ 13 ∷ 10 ∷ [] in
    ap (λ t. read_chars t (at bare [] row rows))
      (append_assoc (write_field f) (b',' ∷ write_fields g fs) (13 ∷ 10 ∷ []))
    ∙ read_chars-append (write_field f) (b',' ∷ s) (at bare [] row rows)
    ∙ ap (read_chars (b',' ∷ s)) (read-field row rows f)
    ∙ ap (read_chars s) (end-field row rows f f)
    ∙ read-fields g fs (row ++ f ∷ []) rows
    ∙ ap (λ r. at bare [] [] (rows ++ r ∷ [])) (append_assoc row (f ∷ []) (g ∷ fs))

abbrev pub HasFields : List Text → Type 0
HasFields row = is_empty row ≡ false

read-rows :
    (rows done : List (List Text))
    → All HasFields rows
    → read_chars (write_rows rows) (at bare [] [] done) ≡ at bare [] [] (done ++ rows)
unfolding write_rows
read-rows [] done h = ap (at bare [] []) (sym (append-nil done))
read-rows ([] ∷ rows) done h = cc h.0
read-rows ((f ∷ fs) ∷ rows) done h =
    read_chars-append (write_row (f ∷ fs)) (write_rows rows) (at bare [] [] done)
    ∙ ap (read_chars (write_rows rows)) (read-fields f fs [] done)
    ∙ read-rows rows (done ++ (f ∷ fs) ∷ []) h.1
    ∙ ap (at bare [] []) (append_assoc done ((f ∷ fs) ∷ []) rows)

-- The reader reads the rows that were written, if none of them is without fields.
pub read_csv-write_rows :
    (rows : List (List Text)) → All HasFields rows → read_csv (write_rows rows) ≡ rows
unfolding read_csv
read_csv-write_rows rows h = ap (λ r. r.rows) (read-rows rows [] h)
