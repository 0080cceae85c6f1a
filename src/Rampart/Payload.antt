-- ===== src/Rampart/Payload.antt =====
-- backend/app/api/rampart.py: `AssetIn`, what the request to create or edit an asset must hold.
pub mod Clean
use asber.Base.{
  Bool, List, Option, Text, [], codes, filter, if◌then◌else◌, is_empty, leb, length, lower, none,
  not, one_of, some, strip, true, ℕ, ◌&&◌, ◌==◌, ◌||◌, ◌∷◌,
}

-- `_CONTROL`
abbrev pub is_control : ℕ → Bool
is_control c = leb c 31 || c == 127

-- `_clean` of a text
unfoldable pub clean_text : Text → Option Text
unfolding strip
clean_text value =
    let text = strip (filter (λ c. not (is_control c)) value) in
    if is_empty text then none else some text

abbrev pub clean : Option Text → Option Text
clean none = none
clean (some value) = clean_text value

-- The body of the request, whose fields have the types that they must have.
pub record Payload : Type 0 where
  pub label : Text
  pub category : Text
  pub vendor : Text
  pub product : Text
  pub version : Option Text
  pub cpe : Option Text
  pub catalogued : Bool
  pub hardware_model : Option Text
  pub notes : Option Text

-- The values after the validators. That of `label`, `vendor` and `product` may be `None`: a
-- validator's result is not checked again.
pub record AssetIn : Type 0 where
  pub label : Option Text
  pub category : Text
  pub vendor : Option Text
  pub product : Option Text
  pub version : Option Text
  pub cpe : Option Text
  pub catalogued : Bool
  pub hardware_model : Option Text
  pub notes : Option Text

abbrev pub is_within : ℕ → ℕ → Text → Bool
is_within least most t = leb least (length t) && leb (length t) most

abbrev pub is_short : ℕ → Option Text → Bool
is_short most none = true
is_short most (some t) = leb (length t) most

unfoldable pub categories : List Text
categories =
    codes "firewall"
    ∷ codes "switch"
    ∷ codes "storage"
    ∷ codes "hypervisor"
    ∷ codes "os"
    ∷ codes "application"
    ∷ codes "other"
    ∷ []

-- `known_category` without its test
unfoldable pub folded_category : Text → Text
unfolding strip lower
folded_category v = lower (strip v)

-- The lengths of the fields.
unfoldable pub has_lengths : Payload → Bool
has_lengths p =
    is_within 1 120 p.label
    && leb (length p.category) 32
    && is_within 1 200 p.vendor
    && is_within 1 300 p.product
    && is_short 64 p.version
    && is_short 400 p.cpe
    && is_short 120 p.hardware_model
    && is_short 2000 p.notes

abbrev pub cleaned : Payload → AssetIn
cleaned p = record {
  label = clean_text p.label;
  category = folded_category p.category;
  vendor = clean_text p.vendor;
  product = clean_text p.product;
  version = clean p.version;
  cpe = clean p.cpe;
  catalogued = p.catalogued;
  hardware_model = clean p.hardware_model;
  notes = clean p.notes;
}

-- `none` is the response 422.
unfoldable pub asset_in : Payload → Option AssetIn
asset_in p =
    if has_lengths p && one_of (folded_category p.category) categories
    then some (cleaned p)
    else none
