-- ===== src/Indicators.antt =====
-- backend/app/services/indicators.py: what kind of observable a text is, the form that a lookup
-- compares, and the names of families. The network location of a URL, which is what the library
-- function `urlsplit` finds, is a parameter; it is `none` where that function raises.
pub mod Families
pub mod Feed
pub mod Lookup
mod Examples
pub mod Upsert
use asber.Base.{
  Bool, List, Option, Text, [], all, all_digits, any, codes, false, filter, if◌then◌else◌, int,
  is_digit, is_empty, is_space, join, leb, length, lower, none, not, one_of, some, span, split_on,
  starts_with, strip, text_eq, ℕ, ◌&&◌, ◌==◌, ◌||◌, ◌∷◌,
}
use asber.Correlation.Entry.{contains}

abbrev pub sha256 : Text
sha256 = codes "sha256"

abbrev pub sha1 : Text
sha1 = codes "sha1"

abbrev pub md5 : Text
md5 = codes "md5"

abbrev pub url_kind : Text
url_kind = codes "url"

abbrev pub ipv4 : Text
ipv4 = codes "ipv4"

abbrev pub domain : Text
domain = codes "domain"

abbrev pub is_letter : ℕ → Bool
is_letter c = leb b'a' c && leb c b'z'

abbrev pub is_hex_digit : ℕ → Bool
is_hex_digit c = is_digit c || leb b'a' c && leb c b'f'

-- `^[0-9a-f]{n}$`
abbrev pub is_hex : ℕ → Text → Bool
is_hex n v = all is_hex_digit v && length v == n

abbrev pub is_octet_text : Text → Bool
is_octet_text part = all_digits part && leb (length part) 3

-- `_IPV4`
abbrev pub looks_ipv4 : Text → Bool
looks_ipv4 v =
    let parts = split_on (λ c. c == b'.') v in length parts == 4 && all is_octet_text parts

abbrev pub is_domain_char : ℕ → Bool
is_domain_char c = is_letter c || is_digit c || c == b'-'

abbrev pub is_domain_label : Text → Bool
is_domain_label part = not (is_empty part) && leb (length part) 63 && all is_domain_char part

-- `_DOMAIN`
abbrev pub looks_domain : Text → Bool
looks_domain v =
    let parts = split_on (λ c. c == b'.') v in
    leb 1 (length v)
    && leb (length v) 253
    && not (starts_with v (codes "-"))
    && leb 2 (length parts)
    && all is_domain_label parts

unfoldable pub lookup_form : Text → Text
lookup_form value = lower (strip value)

abbrev pub kind_of_host : Text → Option Text
kind_of_host v =
    if looks_ipv4 v
    then (if all (λ part. leb (int part) 255) (split_on (λ c. c == b'.') v)
        then some ipv4
        else none)
    else if looks_domain v
    then some domain
    else none

abbrev pub kind_of_form : Text → Option Text
kind_of_form v =
    if is_empty v
    then none
    else if is_hex 64 v
    then some sha256
    else if is_hex 40 v
    then some sha1
    else if is_hex 32 v
    then some md5
    else if contains (codes "://") v
    then some url_kind
    else kind_of_host v

unfoldable pub classify : Text → Option Text
unfolding lookup_form
classify value = kind_of_form (lookup_form value)

abbrev pub same_kind : Option Text → Text → Bool
same_kind none kind = false
same_kind (some k) kind = text_eq k kind

-- `s.rsplit(c, 1)[-1]`
abbrev pub after_last : ℕ → Text → Text
after_last c [] = []
after_last c (x ∷ s) =
    let rest = after_last c s in if any (λ y. y == c) s then rest else if x == c then s else x ∷ s

-- `s.rsplit(c, 1)[0]`
abbrev pub before_last : ℕ → Text → Text
before_last c [] = []
before_last c (x ∷ s) =
    let rest = before_last c s in
    if any (λ y. y == c) s then x ∷ rest else if x == c then [] else x ∷ s

abbrev pub lstrip_of : (ℕ → Bool) → Text → Text
lstrip_of p [] = []
lstrip_of p (c ∷ s) = let rest = lstrip_of p s in if p c then rest else c ∷ s

abbrev pub rstrip_of : (ℕ → Bool) → Text → Text
rstrip_of p [] = []
rstrip_of p (c ∷ s) = let rest = rstrip_of p s in if p c && is_empty rest then [] else c ∷ rest

-- `text or None`
abbrev pub or_none : Text → Option Text
or_none text = if is_empty text then none else some text

abbrev pub host_part : Text → Text
host_part netloc =
    let place = after_last b'@' netloc in
    if starts_with place (codes "[")
    then lstrip_of (λ c. c == b'[') (span (λ c. not (c == b']')) place).0
    else before_last b':' place

-- `none` is the error of `urlsplit`.
abbrev pub host_at : Option Text → Option (Option Text)
host_at none = none
host_at (some netloc) = some (or_none (host_part netloc))

unfoldable pub host_of : (Text → Option Text) → Text → Option (Option Text)
unfolding lookup_form classify
host_of netloc_of value =
    let v = lookup_form value in
    if is_empty v
    then some none
    else if contains (codes "://") v
    then host_at (netloc_of v)
    else some
        (if same_kind (classify v) domain || same_kind (classify v) ipv4 then some v else none)

-- `" ".join(s.split())`
abbrev pub spaced_words : Text → Text
spaced_words s = join (codes " ") (filter (λ word. not (is_empty word)) (split_on is_space s))

-- `_EMPTY`
abbrev pub placeholders : List Text
placeholders = [] ∷ codes "n/a" ∷ codes "none" ∷ codes "unknown" ∷ codes "null" ∷ codes "-" ∷ []

abbrev pub is_quote : ℕ → Bool
is_quote c = c == 34

abbrev pub unquoted : Text → Text
unquoted s = rstrip_of is_quote (lstrip_of is_quote s)

abbrev pub or_placeholder : Text → Option Text
or_placeholder v = if one_of (lower v) placeholders then none else some v

unfoldable pub clean_word : Option Text → Option Text
clean_word none = none
clean_word (some value) = or_placeholder (strip (unquoted (spaced_words value)))
