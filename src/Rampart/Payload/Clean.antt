-- ===== src/Rampart/Payload/Clean.antt =====
-- What is left of a request's texts after the validators.
use asber.Base.{
  All, Bool-cases, Option, Text, [], ap, false, filter, inl, inr, is_empty, is_space, lstrip, none,
  not, one_of, refl, rstrip, some, strip, true, ◌&&◌, ◌↔◌, ◌∙◌, ◌∷◌, ◌≡◌, ◌⊎◌, arith, if◌then◌else◌,
}
use asber.Rampart.Payload.{
  clean, cleaned, Payload, has_lengths, clean_text, AssetIn, asset_in, categories, is_control,
  folded_category,
}

rstrip_twice : (s : Text) → rstrip (rstrip s) ≡ rstrip s
unfolding rstrip
rstrip_twice [] = refl
rstrip_twice (c ∷ s) = elim (Bool-cases (is_space c && is_empty (rstrip s))) [
  | inl e ↦ rw e refl
  | inr e ↦ rw e (rw (rstrip_twice s, e) refl)
]

lstrip-rstrip : (s : Text) → lstrip (rstrip (lstrip s)) ≡ rstrip (lstrip s)
unfolding lstrip rstrip
lstrip-rstrip [] = refl
lstrip-rstrip (c ∷ s) = elim (Bool-cases (is_space c)) [
  | inl e ↦ rw e (lstrip-rstrip s)
  | inr e ↦ rw (e, e) (rw e refl)
]

pub strip_twice : (s : Text) → strip (strip s) ≡ strip s
unfolding strip
strip_twice s = ap rstrip (lstrip-rstrip s) ∙ rstrip_twice (lstrip s)

abbrev pub HasNoControl : Text → Type 0
HasNoControl t = All (λ c. is_control c ≡ false) t

lstrip-HasNoControl : (s : Text) → HasNoControl s → HasNoControl (lstrip s)
unfolding lstrip
lstrip-HasNoControl [] h = tt
lstrip-HasNoControl (c ∷ s) h = elim (Bool-cases (is_space c)) [
  | inl e ↦ rw e (lstrip-HasNoControl s h.1)
  | inr e ↦ rw e h
]

rstrip-HasNoControl : (s : Text) → HasNoControl s → HasNoControl (rstrip s)
unfolding rstrip
rstrip-HasNoControl [] h = tt
rstrip-HasNoControl (c ∷ s) h = elim (Bool-cases (is_space c && is_empty (rstrip s))) [
  | inl e ↦ rw e tt
  | inr e ↦ rw e (h.0, rstrip-HasNoControl s h.1)
]

filter-HasNoControl : (s : Text) → HasNoControl (filter (λ c. not (is_control c)) s)
filter-HasNoControl [] = tt
filter-HasNoControl (c ∷ s) = elim (Bool-cases (is_control c)) [
  | inl e ↦ rw e (filter-HasNoControl s)
  | inr e ↦ rw e (e, filter-HasNoControl s)
]

-- A text without control characters, with something else than blanks, and none of them at its ends.
pub record IsCleanText (t : Text) : Type 0 where
  pub plain : HasNoControl t
  pub filled : is_empty t ≡ false
  pub stripped : strip t ≡ t

abbrev pub IsClean : Option Text → Type 0
IsClean none = Unit
IsClean (some t) = IsCleanText t

strip-IsCleanText : (s : Text) → HasNoControl s → is_empty (strip s) ≡ false → IsCleanText (strip s)
unfolding strip
strip-IsCleanText s h e = record {
  plain = rstrip-HasNoControl (lstrip s) (lstrip-HasNoControl s h);
  filled = e;
  stripped = strip_twice s;
}

clean_text-IsClean : (value : Text) → IsClean (clean_text value)
unfolding clean_text
clean_text-IsClean value =
    let kept = filter (λ c. not (is_control c)) value in
    elim (Bool-cases (is_empty (strip kept))) [
      | inl e ↦ rw e tt
      | inr e ↦ rw e (strip-IsCleanText kept (filter-HasNoControl value) e)
    ]

filled_or_none : (t : Text) → ((if is_empty t then none else some t) ≡ none) ↔ (t ≡ [])
filled_or_none [] = (λ h. refl, λ h. refl)
filled_or_none (c ∷ t) = (λ h. cc h, λ h. cc h)

clean_text-none :
    (value : Text)
    → (clean_text value ≡ none) ↔ (strip (filter (λ c. not (is_control c)) value) ≡ [])
unfolding clean_text
clean_text-none value = filled_or_none (strip (filter (λ c. not (is_control c)) value))

clean-IsClean : (value : Option Text) → IsClean (clean value)
clean-IsClean none = tt
clean-IsClean (some value) = clean_text-IsClean value

-- The texts of an accepted request.
pub record IsAccepted (a : AssetIn) : Type 0 where
  pub label : IsClean a.label
  pub vendor : IsClean a.vendor
  pub product : IsClean a.product
  pub version : IsClean a.version
  pub cpe : IsClean a.cpe
  pub hardware_model : IsClean a.hardware_model
  pub notes : IsClean a.notes
  pub category : one_of a.category categories ≡ true

-- What the validators leave of a text.
abbrev pub left_of : Text → Text
left_of t = strip (filter (λ c. not (is_control c)) t)

-- A request is refused exactly when a field does not have the length it must have or its category,
-- folded, is not a known one. An accepted request has that folded category and its flag, and each
-- of its other fields is clean, or absent: no control character, no blank at an end. A label, a
-- vendor and a product are each absent exactly when they were nothing but blanks and control
-- characters.
pub asset_in_tells :
    (p : Payload)
    → ((asset_in p ≡ none)
        × (has_lengths p && one_of (folded_category p.category) categories ≡ false))
      ⊎ ((a : AssetIn) × (asset_in p ≡ some a)
          × (has_lengths p ≡ true)
          × (one_of (folded_category p.category) categories ≡ true)
          × (a.category ≡ folded_category p.category)
          × IsAccepted a
          × (a.catalogued ≡ p.catalogued)
          × ((a.label ≡ none) ↔ (left_of p.label ≡ []))
          × ((a.vendor ≡ none) ↔ (left_of p.vendor ≡ []))
          × ((a.product ≡ none) ↔ (left_of p.product ≡ [])))
unfolding asset_in
asset_in_tells p =
    elim (Bool-cases (has_lengths p && one_of (folded_category p.category) categories)) [
      | inl e ↦ inr (
        cleaned p,
        rw e refl,
        ground arith,
        ground arith,
        refl,
        record {
          label = clean_text-IsClean p.label;
          vendor = clean_text-IsClean p.vendor;
          product = clean_text-IsClean p.product;
          version = clean-IsClean p.version;
          cpe = clean-IsClean p.cpe;
          hardware_model = clean-IsClean p.hardware_model;
          notes = clean-IsClean p.notes;
          category = ground arith;
        },
        refl,
        clean_text-none p.label,
        clean_text-none p.vendor,
        clean_text-none p.product,
      )
      | inr e ↦ inl (rw e refl, e)
    ]
