-- ===== src/Export.antt =====
-- backend/app/services/export.py: `md`, `link` and `_cell`.
pub mod Csv
pub mod Escapes
mod Examples
use asber.Base.{
  Bool, Option, Text, [], codes, false, if◌then◌else◌, is_empty, map, none, some, starts_with, ℕ,
  ◌++◌, ◌==◌, ◌||◌, ◌∷◌,
}

-- `_MD_SPECIAL`
unfoldable pub is_md_special : ℕ → Bool
is_md_special c =
    c == 92
    || c == b'`'
    || c == b'*'
    || c == b'_'
    || c == b'{'
    || c == b'}'
    || c == b'['
    || c == b']'
    || c == b'<'
    || c == b'>'
    || c == b'#'
    || c == b'|'

-- `_MD_SPECIAL.sub(r"\\\1", …)`
abbrev pub escaped : Text → Text
escaped [] = []
escaped (c ∷ s) = (if is_md_special c then 92 ∷ c ∷ [] else c ∷ []) ++ escaped s

-- `.replace("\n", " ")`
abbrev pub one_line : Text → Text
one_line = map (λ c. if c == 10 then 32 else c)

unfoldable pub md : Option Text → Text
md none = []
md (some text) = one_line (escaped text)

abbrev pub url_char : ℕ → Text
url_char c = if c == b')' then codes "%29" else if c == 32 then codes "%20" else c ∷ []

abbrev pub safe_url : Text → Text
safe_url [] = []
safe_url (c ∷ url) = url_char c ++ safe_url url

-- `a or b`, for texts
abbrev pub or_else : Text → Text → Text
or_else text other = if is_empty text then other else text

abbrev pub given_text : Option Text → Text
given_text none = []
given_text (some text) = text

unfoldable pub link : Option Text → Option Text → Text
unfolding md starts_with
link title url =
    let safe = safe_url (given_text url) in
    if starts_with safe (codes "https://") || starts_with safe (codes "http://")
    then b'[' ∷ or_else (md title) safe ++ (codes "](" ++ (safe ++ codes ")"))
    else md title

-- `text[:1] in FORMULA_PREFIXES`
unfoldable pub is_formula : Text → Bool
is_formula [] = false
is_formula (c ∷ text) = c == b'=' || c == b'+' || c == b'-' || c == b'@' || c == 9 || c == 13

-- `_cell` on the text of a value; an absent value has the empty text.
unfoldable pub cell : Text → Text
unfolding is_formula
cell text = if is_formula text then 39 ∷ text else text
