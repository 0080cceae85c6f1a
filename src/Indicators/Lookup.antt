-- ===== src/Indicators/Lookup.antt =====
-- The forms in which the feeds store observables. The route that looks them up is not modelled.
use mathlib.Core.Path.{subst}
use asber.Base.{
  Bool-cases, Option, Text, [], ap, arith, codes, inl, inr, is_empty, is_space, length, lower,
  lower_char, lstrip, ltb, none, refl, rstrip, some, strip, sym, text_eq_iff, true, ℕ, ◌&&◌, ◌∙◌,
  ◌∷◌, ◌≡◌, ◌≤◌, Bool, false, if◌then◌else◌, all, int, leb, split_on, ◌==◌,
}
use asber.Indicators.{
  sha256, same_kind, lookup_form, url_kind, classify, host_of, kind_of_form, unquoted, is_hex,
  kind_of_host, looks_domain, looks_ipv4, domain, ipv4, md5, sha1,
}
use asber.Indicators.Feed.{
  parse_sample, Row, published, parse_url, malformed_row, Parsed, skipped_row, with_host, column,
}
use asber.Rampart.Payload.Clean.{strip_twice}
use asber.Correlation.Entry.{contains}

lower_char-is_space : (c : ℕ) → is_space (lower_char c) ≡ is_space c
unfolding lower_char is_space
lower_char-is_space c = ground arith

lower_char_twice : (c : ℕ) → lower_char (lower_char c) ≡ lower_char c
unfolding lower_char
lower_char_twice c = ground arith

lower_twice : (s : Text) → lower (lower s) ≡ lower s
unfolding lower
lower_twice [] = refl
lower_twice (c ∷ s) = rw (lower_char_twice c, lower_twice s) refl

is_empty-lower : (s : Text) → is_empty (lower s) ≡ is_empty s
unfolding lower
is_empty-lower [] = refl
is_empty-lower (c ∷ s) = refl

lstrip-lower : (s : Text) → lstrip (lower s) ≡ lower (lstrip s)
unfolding lstrip lower
lstrip-lower [] = refl
lstrip-lower (c ∷ s) = elim (Bool-cases (is_space c)) [
  | inl e ↦ rw (lower_char-is_space c, e) (lstrip-lower s)
  | inr e ↦ rw (lower_char-is_space c, e) refl
]

rstrip-lower : (s : Text) → rstrip (lower s) ≡ lower (rstrip s)
unfolding rstrip lower
rstrip-lower [] = refl
rstrip-lower (c ∷ s) = elim (Bool-cases (is_space c && is_empty (rstrip s))) [
  | inl e ↦ rw (lower_char-is_space c, rstrip-lower s, is_empty-lower (rstrip s), e) refl
  | inr e ↦ rw (lower_char-is_space c, rstrip-lower s, is_empty-lower (rstrip s), e) refl
]

-- The lookup form of a lookup form is itself, so a stored form stands for itself.
pub lookup_form_twice : (s : Text) → lookup_form (lookup_form s) ≡ lookup_form s
unfolding lookup_form strip
lookup_form_twice s =
    rw (lstrip-lower (strip s), rstrip-lower (lstrip (strip s)))
      (ap (λ t. lower (lower t)) (strip_twice s) ∙ lower_twice (strip s))

pub classify-lookup_form : (s : Text) → classify (lookup_form s) ≡ classify s
unfolding classify
classify-lookup_form s = ap kind_of_form (lookup_form_twice s)

-- What a published row holds: its lookup form fits the column, is the form of what is shown, and
-- has the kind that a reader's text of this form has.
abbrev pub HasLookupForm : Parsed → Type 0
HasLookupForm malformed_row = Unit {0}
HasLookupForm skipped_row = Unit {0}
HasLookupForm (published o candidates) =
    (o.value_norm ≡ lookup_form o.value)
    × (classify o.value ≡ some o.kind)
    × (classify o.value_norm ≡ some o.kind)
    × (length o.value_norm ≤ 600)

same_kind-some : (k : Option Text) (kind : Text) → same_kind k kind ≡ true → k ≡ some kind
same_kind-some none kind e = absurd (cc)
same_kind-some (some k) kind e = ap (λ t. some t) ((text_eq_iff k kind).0 e)

with_host-HasLookupForm :
    (date_parser : Text → Option ℕ) (url : Text) (row : Row) (host : Option (Option Text))
    → classify url ≡ some url_kind
    → length (lookup_form url) ≤ 600
    → HasLookupForm (with_host date_parser url row host)
with_host-HasLookupForm date_parser url row none e l = tt
with_host-HasLookupForm date_parser url row (some host) e l =
    (refl, e, classify-lookup_form url ∙ e, l)

parse_url-HasLookupForm :
    (date_parser : Text → Option ℕ) (netloc_of : Text → Option Text) (row : Row)
    → HasLookupForm (parse_url date_parser netloc_of row)
unfolding parse_url
parse_url-HasLookupForm date_parser netloc_of row =
    let url = unquoted (strip (column (codes "url") row)) in
    elim (Bool-cases (same_kind (classify url) url_kind)) [
      | inl e ↦ elim (Bool-cases (ltb 600 (length (lookup_form url)))) [
        | inl l ↦ rw (e, l) tt
        | inr l ↦
            rw (e, l)
              (with_host-HasLookupForm date_parser url row (host_of netloc_of url)
                (same_kind-some (classify url) url_kind e) (ground arith))
      ]
      | inr e ↦ rw e tt
    ]

same_kind_else :
    (kind : Text) (b : Bool) (k j : Option Text)
    → same_kind k kind ≡ false
    → same_kind j kind ≡ false
    → same_kind (if b then k else j) kind ≡ false
same_kind_else kind true k j p q = p
same_kind_else kind false k j p q = q

-- No other kind is spelled like a SHA-256.
kind_of_host_other : (v : Text) → same_kind (kind_of_host v) sha256 ≡ false
kind_of_host_other v =
    same_kind_else sha256 (looks_ipv4 v) _ _
      (same_kind_else sha256 (all (λ part. leb (int part) 255) (split_on (λ c. c == 46) v))
        (some ipv4) none refl refl)
      (same_kind_else sha256 (looks_domain v) (some domain) none refl refl)

length-kind_of_form : (v : Text) → same_kind (kind_of_form v) sha256 ≡ true → length v ≤ 64
length-kind_of_form v h = elim (Bool-cases (is_hex 64 v)) [
  | inl e ↦ ground arith
  | inr e ↦
      let other = same_kind_else sha256 (is_hex 40 v) (some sha1) _ refl (
        same_kind_else sha256 (is_hex 32 v) (some md5) _ refl (
          same_kind_else sha256 (contains (codes "://") v) (some url_kind) (kind_of_host v) refl
            (kind_of_host_other v))) in
      let bad : same_kind (kind_of_form v) sha256 ≡ false =
        rw e (same_kind_else sha256 (is_empty v) none _ refl other) in
      absurd (cc)
]

sha256_form :
    (hash : Text)
    → same_kind (classify hash) sha256 ≡ true
    → same_kind (kind_of_form (lookup_form hash)) sha256 ≡ true
unfolding classify
sha256_form hash e = e

parse_sample-HasLookupForm :
    (date_parser : Text → Option ℕ) (row : Row) → HasLookupForm (parse_sample date_parser row)
unfolding parse_sample
parse_sample-HasLookupForm date_parser row =
    let hash = lookup_form (column (codes "sha256_hash") row) in
    elim (Bool-cases (same_kind (classify hash) sha256)) [
      | inl e ↦
          let k = same_kind-some (classify hash) sha256 e in
          let f = lookup_form_twice (column (codes "sha256_hash") row) in
          let l = length-kind_of_form (lookup_form hash) (sha256_form hash e) in
          let l' : length hash ≤ 64 = subst (λ v. length v ≤ 64) f l in
          rw e (sym f, k, k, omega arith)
      | inr e ↦ rw e tt
    ]

-- In what the two workers of abuse.ch publish, the stored form is the lookup form of the value that
-- is shown, the kind is what `classify` says of both the value and the form, and the form has at
-- most 600 characters, the length of its column.
pub published-HasLookupForm :
    (date_parser : Text → Option ℕ) (netloc_of : Text → Option Text) (row : Row)
    → HasLookupForm (parse_sample date_parser row)
      × HasLookupForm (parse_url date_parser netloc_of row)
published-HasLookupForm date_parser netloc_of row =
    (parse_sample-HasLookupForm date_parser row, parse_url-HasLookupForm date_parser netloc_of row)
