-- ===== src/Export/Escapes.antt =====
-- What `md` makes of a text.
use asber.Base.{
  Bool, Bool-cases, Option, Text, [], false, if◌then◌else◌, inl, inr, none, refl, some, true, ℕ,
  ◌==◌, ◌||◌, ◌∷◌, ◌≡◌, arith, any, codes, sym, ◌∙◌,
}
use asber.Export.{md, is_md_special, one_line}

slash_is_special : (c : ℕ) → is_md_special c ≡ false → (c == 92) ≡ false
unfolding is_md_special
slash_is_special c h = ground arith

-- `c` in front of a text that was read.
abbrev before : ℕ → Option Text → Option Text
before c none = none
before c (some s) = some (c ∷ s)

-- The backslash, and the characters of emphasis, code, links, HTML tags, headings and tables.
unfoldable pub is_markup : ℕ → Bool
is_markup c = any (λ d. c == d) (92 ∷ codes "`*_{}[]<>#|")

is_md_special_lem : (c : ℕ) → is_md_special c ≡ is_markup c
unfolding is_md_special is_markup
is_md_special_lem c = ground arith

space_is_plain : is_markup 32 ≡ false
unfolding is_markup
space_is_plain = refl

-- A reader of one line: a backslash makes the next character plain, and one of those characters or
-- a line feed that is not plain is refused. The first argument says whether a
-- backslash has just been read.
abbrev pub read_plain : Bool → Text → Option Text
read_plain true [] = none
read_plain false [] = some []
read_plain true (c ∷ s) = before c (read_plain false s)
read_plain false (c ∷ s) =
    let plain = before c (read_plain false s) in
    let next = read_plain true s in
    if c == 92 then next else if is_markup c || c == 10 then none else plain

-- A reader that refuses each of the characters \ ` * _ { } [ ] < > # | where no backslash stands
-- before it, and every line feed, accepts what `md` returns, and reads in it the text, its line
-- feeds as spaces. Nothing is said of other markup.
pub md_reads_back : (text : Text) → read_plain false (md (some text)) ≡ some (one_line text)
unfolding md
md_reads_back [] = refl
md_reads_back (c ∷ s) = elim (Bool-cases (is_md_special c)) [
  | inl e ↦ rw e (rw (md_reads_back s) refl)
  | inr e ↦ elim (Bool-cases (c == 10)) [
    | inl k ↦ rw (e, k, space_is_plain) (rw (md_reads_back s) refl)
    | inr k ↦
        rw (e, k, slash_is_special c e, sym (is_md_special_lem c) ∙ e, k)
          (rw (md_reads_back s) refl)
  ]
]
