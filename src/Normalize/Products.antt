-- ===== src/Normalize/Products.antt =====
-- The products of an item: they fit their columns, and none stands there twice.
use mathlib.Core.Path.{ap₂}
use asber.Export.{given_text}
use asber.Base.{
  All, All-append, Bool, Bool-cases, List, Option, Text, [], any, arith, false, if◌then◌else◌, inl,
  inr, is_empty, length, none, refl, some, strip, suc, take, text_eq, text_eq_iff, true, zero, ℕ,
  ◌&&◌, ◌++◌, ◌||◌, ◌∙◌, ◌∷◌, ◌≡◌, ◌≤◌,
}
use asber.Normalize.{
  configured_products, cpe_vendor_product, is_same_key, clip, configured_product, put_product,
  CpeMatch,
}
use asber.Normalize.Cve.{affected_products, name_within, AffectedItem, affected_product_of}
use asber.Correlation.Nvd.{NvdProduct}

abbrev pub Within : ℕ → Option Text → Type 0
Within n none = Unit {0}
Within n (some t) = length t ≤ n

abbrev pub FitsProduct : NvdProduct → Type 0
FitsProduct p = (length p.vendor ≤ 200) × (length p.product ≤ 300) × (length p.cpe ≤ 400)

-- No two of the products have the same vendor, product and CPE.
abbrev pub ProductsDistinct : List NvdProduct → Type 0
ProductsDistinct [] = Unit {0}
ProductsDistinct (p ∷ products) =
    (any (λ q. is_same_key p q) products ≡ false) × ProductsDistinct products

length-take : (n : ℕ) (t : Text) → length (take n t) ≤ n
length-take zero t = omega arith
length-take (suc n) [] = omega arith
length-take (suc n) (c ∷ t) = omega (arith, length-take n t)

pub clip-Within : (o : Option Text) (n : ℕ) → Within n (clip o n)
unfolding clip
clip-Within none n = tt
clip-Within (some t) n = elim (Bool-cases (is_empty (strip t))) [
  | inl e ↦ rw e tt
  | inr e ↦ rw e (length-take n (strip t))
]

is_same_key_lem : (p q r : NvdProduct) → is_same_key q p ≡ true → is_same_key p r ≡ is_same_key q r
is_same_key_lem p q r h =
    let a : text_eq q.vendor p.vendor ≡ true = ground arith in
    let b : text_eq q.product p.product ≡ true = ground arith in
    let c : text_eq q.cpe p.cpe ≡ true = ground arith in
    rw
      (
        (text_eq_iff q.vendor p.vendor).0 a,
        (text_eq_iff q.product p.product).0 b,
        (text_eq_iff q.cpe p.cpe).0 c,
      )
      refl

any_same_key :
    (p q : NvdProduct) (products : List NvdProduct)
    → is_same_key q p ≡ true
    → any (λ r. is_same_key p r) products ≡ any (λ r. is_same_key q r) products
any_same_key p q [] h = refl
any_same_key p q (r ∷ products) h =
    ap₂ (λ a b. a || b) (is_same_key_lem p q r h) (any_same_key p q products h)

any-put_product :
    (r p : NvdProduct) (products : List NvdProduct)
    → is_same_key r p ≡ false
    → any (λ q. is_same_key r q) products ≡ false
    → any (λ q. is_same_key r q) (put_product p products) ≡ false
any-put_product r p [] h k = rw h refl
any-put_product r p (q ∷ products) h k = elim (Bool-cases (is_same_key q p)) [
  | inl e ↦ rw (e, h) (ground arith)
  | inr e ↦
      let m : is_same_key r q ≡ false = ground arith in
      rw (e, m) (any-put_product r p products h (ground arith))
]

put_product-ProductsDistinct :
    (p : NvdProduct) (products : List NvdProduct)
    → ProductsDistinct products
    → ProductsDistinct (put_product p products)
put_product-ProductsDistinct p [] h = (refl, tt)
put_product-ProductsDistinct p (q ∷ products) h = elim (Bool-cases (is_same_key q p)) [
  | inl e ↦ rw e (any_same_key p q products e ∙ h.0, h.1)
  | inr e ↦ rw e (any-put_product q p products e h.0, put_product-ProductsDistinct p products h.1)
]

put_product-FitsProduct :
    (p : NvdProduct) (products : List NvdProduct)
    → FitsProduct p
    → All FitsProduct products
    → All FitsProduct (put_product p products)
put_product-FitsProduct p [] f h = (f, tt)
put_product-FitsProduct p (q ∷ products) f h = elim (Bool-cases (is_same_key q p)) [
  | inl e ↦ rw e (f, h.1)
  | inr e ↦ rw e (h.0, put_product-FitsProduct p products f h.1)
]

abbrev pub AreProducts : List NvdProduct → Type 0
AreProducts products = All FitsProduct products × ProductsDistinct products

pub configured_products-AreProducts :
    (matches : List CpeMatch) (products : List NvdProduct)
    → AreProducts products
    → AreProducts (configured_products matches products)
unfolding configured_products
configured_products-AreProducts [] products h = h
configured_products-AreProducts (m ∷ matches) products h =
    let names = cpe_vendor_product m.criteria in
    let p = configured_product m in
    let fits : FitsProduct p =
      (length-take 200 names.0, length-take 300 names.1, length-take 400 m.criteria) in
    configured_products-AreProducts matches _ (go p fits m.vulnerable)
  where
    go :
        (p : NvdProduct)
        → FitsProduct p
        → (b : Bool) → AreProducts (if b then put_product p products else products)
    go p f true =
        (put_product-FitsProduct p products f h.0, put_product-ProductsDistinct p products h.1)
    go p f false = h

append-ProductsDistinct :
    (p : NvdProduct) (products : List NvdProduct)
    → ProductsDistinct products
    → any (λ q. is_same_key q p) products ≡ false
    → ProductsDistinct (products ++ p ∷ [])
append-ProductsDistinct p [] h k = (refl, tt)
append-ProductsDistinct p (q ∷ products) h k =
    (go products h.0, append-ProductsDistinct p products h.1 (ground arith))
  where
    go :
        (products : List NvdProduct)
        → any (λ r. is_same_key q r) products ≡ false
        → any (λ r. is_same_key q r) (products ++ p ∷ []) ≡ false
    go [] e = ground arith
    go (r ∷ products) e = ground (arith, go products)

module _ (html_to_text : Option Text → Option ℕ → Text) where
  name_within_fits : (n : ℕ) (o : Option Text) → length (name_within html_to_text n o) ≤ n
  name_within_fits n o = go (clip (some (html_to_text o none)) n) (clip-Within _ n)
    where
      go : (o : Option Text) → Within n o → length (given_text o) ≤ n
      go none h = omega arith
      go (some t) h = h

  pub affected_products-AreProducts :
      (items : List AffectedItem) (products : List NvdProduct)
      → AreProducts products
      → AreProducts (affected_products html_to_text items products)
  affected_products-AreProducts [] products h = h
  affected_products-AreProducts (a ∷ items) products h =
      let p = affected_product_of html_to_text a in
      let fits : FitsProduct p = (
        name_within_fits 200 a.affected_vendor,
        name_within_fits 300 a.affected_product,
        omega arith,
      ) in
      elim (Bool-cases (is_empty p.vendor && is_empty p.product)) [
        | inl e ↦ rw e (affected_products-AreProducts items products h)
        | inr e ↦ elim (Bool-cases (any (λ q. is_same_key q p) products)) [
          | inl f ↦ rw (e, f) (affected_products-AreProducts items products h)
          | inr f ↦
              rw (e, f)
                (affected_products-AreProducts items (products ++ p ∷ []) (
                  All-append FitsProduct products (p ∷ []) h.0 (fits, tt),
                  append-ProductsDistinct p products h.1 f,
                ))
        ]
      ]
