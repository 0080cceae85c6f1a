-- ===== src/Indicators/Upsert/Families.antt =====
-- The cache of `resolve_family` changes no answer.
use mathlib.Core.Option.{some-injective}
use asber.Base.{
  All, Bool, Bool-cases, List, Option, Text, [], ap, if◌then◌else◌, inl, inr, insert, lookup, none,
  refl, some, sym, text_eq, text_eq_iff, ◌∙◌, ◌∷◌, ◌≡◌,
}
use asber.Indicators.Upsert.{with_family}
use asber.Indicators.Feed.{
  resolve_family, Cache, stix_of, ask_cache, resolve_keys, Observation, is_found,
}
use asber.Models.{AttackObject}
use asber.Normalize.{clip}
use asber.Indicators.Families.{family_keys}

module _ (ilike : Text → Text → Bool) (objects : List AttackObject) where
  -- What the cache remembers is what the database holds.
  abbrev pub IsSound : Cache → Type 0
  IsSound cache = All (λ entry. entry.1 ≡ stix_of ilike objects entry.0) cache

  lookup-IsSound :
      (key : Text) (cache : Cache) (stix : Option Text)
      → IsSound cache
      → lookup key cache ≡ some stix
      → stix ≡ stix_of ilike objects key
  lookup-IsSound key [] stix h e = absurd (cc)
  lookup-IsSound key ((j, v) ∷ cache) stix h e = elim (Bool-cases (text_eq j key)) [
    | inl q ↦
        let k : j ≡ key = (text_eq_iff j key).0 q in
        sym (some-injective v stix (rw q at e)) ∙ h.0 ∙ ap (stix_of ilike objects) k
    | inr q ↦ lookup-IsSound key cache stix h.1 (rw q at e)
  ]

  insert-IsSound :
      (key : Text) (cache : Cache)
      → IsSound cache
      → IsSound (insert key (stix_of ilike objects key) cache)
  insert-IsSound key [] h = (refl, tt)
  insert-IsSound key ((j, v) ∷ cache) h = elim (Bool-cases (text_eq j key)) [
    | inl q ↦ rw q (ap (stix_of ilike objects) (sym ((text_eq_iff j key).0 q)), h.1)
    | inr q ↦ rw q (h.0, insert-IsSound key cache h.1)
  ]

  ask_cache-IsSound :
      (key : Text) (cache : Cache) (o : Option (Option Text))
      → IsSound cache
      → lookup key cache ≡ o
      → ((ask_cache ilike objects key cache o).0 ≡ stix_of ilike objects key)
        × IsSound (ask_cache ilike objects key cache o).1
  ask_cache-IsSound key cache (some stix) h e = (lookup-IsSound key cache stix h e, h)
  ask_cache-IsSound key cache none h e = (refl, insert-IsSound key cache h)

  -- `resolve_family` without its cache.
  abbrev pub software_of : List Text → Option Text
  software_of [] = none
  software_of (key ∷ keys) =
      let rest = software_of keys in
      if is_found (stix_of ilike objects key) then stix_of ilike objects key else rest

  resolve_keys-IsSound :
      (keys : List Text) (cache : Cache)
      → IsSound cache
      → ((resolve_keys ilike objects keys cache).0 ≡ software_of keys)
        × IsSound (resolve_keys ilike objects keys cache).1
  resolve_keys-IsSound [] cache h = (refl, h)
  resolve_keys-IsSound (key ∷ keys) cache h =
      let asked = ask_cache ilike objects key cache (lookup key cache) in
      let (e, sound) = ask_cache-IsSound key cache (lookup key cache) h refl in
      let (answer, kept) = resolve_keys-IsSound keys asked.1 sound in
      elim (Bool-cases (is_found (stix_of ilike objects key))) [
        | inl q ↦ rw (e, q) (e, sound)
        | inr q ↦ rw (e, q) (answer, kept)
      ]

  -- A row's observation, with the family that no cache was asked for.
  abbrev pub family_found : List Text → Observation → Observation
  family_found [] o = o
  family_found (candidate ∷ candidates) o =
      let found = software_of (family_keys (some candidate)) in
      let rest = family_found candidates o in
      if is_found found
      then record o { family = clip (some candidate) 200; attack_stix_id = found }
      else rest

  pub with_family-IsSound :
      (candidates : List Text) (o : Observation) (cache : Cache)
      → IsSound cache
      → ((with_family ilike objects candidates o cache).0 ≡ family_found candidates o)
        × IsSound (with_family ilike objects candidates o cache).1
  unfolding resolve_family
  with_family-IsSound [] o cache h = (refl, h)
  with_family-IsSound (candidate ∷ candidates) o cache h =
      let keys = family_keys (some candidate) in
      let (e, sound) = resolve_keys-IsSound keys cache h in
      let (answer, kept) =
        with_family-IsSound candidates o (resolve_keys ilike objects keys cache).1 sound in
      elim (Bool-cases (is_found (software_of keys))) [
        | inl q ↦ rw (e, q) (refl, sound)
        | inr q ↦ rw (e, q) (answer, kept)
      ]
