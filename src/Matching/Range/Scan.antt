-- ===== src/Matching/Range/Scan.antt =====
-- The scan for bounds: a match consumes text, so the fuel suffices, and a printed bound is found.
use asber.Base.{
  Option-cases, Text, [], all, arith, codes, false, inl, inr, is_empty, length, length-span, lstrip,
  some, span, span-append, true, ◌++◌, ◌<◌, ◌∷◌, ◌≡◌, ◌≤◌, Option, ap, none, refl, suc, zero, ℕ,
  All, List, join, map, length-append, sym, ◌∙◌,
}
use mathlib.Core.List.{append-nil}
use asber.Matching.Range.{
  Op, Bound, bound_text, is_version_char, match_bound, match_op, match_version, find_bounds, ge, gt,
  le, lt, scan_from, op_text,
}

length-lstrip : (s : Text) → length (lstrip s) ≤ length s
unfolding lstrip
length-lstrip [] = omega arith
length-lstrip (c ∷ s) = ground (arith, length-lstrip s)

match_op_shrinks :
    (s : Text) (op : Op) (rest : Text) → match_op s ≡ some (op, rest) → length rest < length s
unfolding match_op
match_op_shrinks [] op rest h = cc
match_op_shrinks (c ∷ []) op rest h = ground arith
match_op_shrinks (c ∷ d ∷ s) op rest h = ground arith

match_version_shrinks :
    (op : Op) (s : Text) (b : Bound) (rest : Text)
    → match_version op s ≡ some (b, rest)
    → length rest ≤ length s
unfolding match_version
match_version_shrinks op s b rest h =
    ground (arith, length-lstrip s, length-span is_version_char (lstrip s))

pub match_bound_shrinks :
    (s : Text) (b : Bound) (rest : Text) → match_bound s ≡ some (b, rest) → length rest < length s
unfolding match_bound
match_bound_shrinks s b rest h = elim (Option-cases (match_op s)) [
  | inl e ↦ cc (rw (e, match_bound) at h)
  | inr ((op, s'), e) ↦ omega (
    arith,
    match_op_shrinks s op s' e,
    match_version_shrinks op s' b rest (rw (e, match_bound) at h),
  )
]

-- A bound whose version can be read back: it is not empty, and has no blank and no operator.
abbrev pub IsPlain : Bound → Type 0
IsPlain b = (is_empty b.version ≡ false) × (all is_version_char b.version ≡ true)

lstrip_plain :
    (s t : Text) → is_empty s ≡ false → all is_version_char s ≡ true → lstrip (s ++ t) ≡ s ++ t
unfolding lstrip is_version_char
lstrip_plain [] t n h = cc
lstrip_plain (c ∷ s) t n h = ground arith

match_version_plain :
    (op : Op) (v rest : Text)
    → is_empty v ≡ false
    → all is_version_char v ≡ true
    → span is_version_char rest ≡ ([], rest)
    → match_version op (codes " " ++ v ++ rest) ≡ some (record { op = op; version = v }, rest)
unfolding match_version
match_version_plain op v rest n h e =
    ground (arith, lstrip_plain v rest n h, span-append is_version_char v rest h e)

match_text_plain :
    (op : Op) (v rest : Text)
    → is_empty v ≡ false
    → all is_version_char v ≡ true
    → span is_version_char rest ≡ ([], rest)
    → match_bound ((op_text op ++ codes " " ++ v) ++ rest)
      ≡ some (record { op = op; version = v }, rest)
unfolding match_bound op_text
match_text_plain ge v rest n h e = match_version_plain ge v rest n h e
match_text_plain le v rest n h e = match_version_plain le v rest n h e
match_text_plain gt v rest n h e = match_version_plain gt v rest n h e
match_text_plain lt v rest n h e = match_version_plain lt v rest n h e

-- A printed bound is read back, whatever follows it but a character of a version.
pub match_bound_plain :
    (b : Bound) (rest : Text)
    → IsPlain b
    → span is_version_char rest ≡ ([], rest)
    → match_bound (bound_text b ++ rest) ≡ some (b, rest)
unfolding bound_text
match_bound_plain b rest h e = match_text_plain b.op b.version rest h.0 h.1 e

-- More fuel than the text has characters finds no more bounds.
pub find_bounds_fuel :
    (f g : ℕ) (s : Text) → length s ≤ f → length s ≤ g → find_bounds f s ≡ find_bounds g s
unfolding find_bounds
find_bounds_fuel zero zero s p q = refl
find_bounds_fuel zero (suc g) [] p q = refl
find_bounds_fuel zero (suc g) (c ∷ s) p q = absurd (omega arith)
find_bounds_fuel (suc f) zero [] p q = refl
find_bounds_fuel (suc f) zero (c ∷ s) p q = absurd (omega arith)
find_bounds_fuel (suc f) (suc g) [] p q = refl
find_bounds_fuel (suc f) (suc g) (c ∷ s) p q =
    go (match_bound (c ∷ s)) refl (λ t u. find_bounds_fuel f g t (omega arith) (omega arith))
  where
    go :
        (m : Option (Bound × Text))
        → match_bound (c ∷ s) ≡ m
        → ((t : Text) → length t ≤ length s → find_bounds f t ≡ find_bounds g t)
        → scan_from m s (λ rest. find_bounds f rest) ≡ scan_from m s (λ rest. find_bounds g rest)
    go none e ih = ih s (omega arith)
    go (some (b, rest)) e ih =
        ap (λ bs. b ∷ bs) (ih rest (omega (arith, match_bound_shrinks (c ∷ s) b rest e)))

find_bounds_step :
    (f : ℕ) (b : Bound) (rest : Text)
    → match_bound (bound_text b ++ rest) ≡ some (b, rest)
    → find_bounds (suc f) (bound_text b ++ rest) ≡ b ∷ find_bounds f rest
unfolding find_bounds
find_bounds_step f b rest e = go (bound_text b ++ rest) e
  where
    go :
        (s : Text) → match_bound s ≡ some (b, rest) → find_bounds (suc f) s ≡ b ∷ find_bounds f rest
    go [] q = absurd (unfold match_bound match_op in cc q)
    go (c ∷ s) q = rw (q, find_bounds)

find_bounds-space : (f : ℕ) (t : Text) → find_bounds (suc f) (codes " " ++ t) ≡ find_bounds f t
unfolding find_bounds match_bound match_op
find_bounds-space f [] = refl
find_bounds-space f (c ∷ t) = refl

space_ends : (t : Text) → span is_version_char (codes " " ++ t) ≡ ([], codes " " ++ t)
unfolding is_version_char
space_ends t = refl

-- With fuel for the whole text, a printed bound is found and the scan goes on behind it.
find_bounds-bound :
    (f : ℕ) (b : Bound) (rest : Text)
    → IsPlain b
    → span is_version_char rest ≡ ([], rest)
    → length (bound_text b ++ rest) ≤ f
    → find_bounds f (bound_text b ++ rest) ≡ b ∷ find_bounds f rest
find_bounds-bound f b rest h e p =
    find_bounds_fuel f (suc f) (bound_text b ++ rest) p (omega arith)
    ∙ find_bounds_step f b rest (match_bound_plain b rest h e)

-- Bounds that are printed with a space between them are found again, in their order.
pub find_bounds-join :
    (bs : List Bound) (f : ℕ)
    → All IsPlain bs
    → length (join (codes " ") (map bound_text bs)) ≤ f
    → find_bounds f (join (codes " ") (map bound_text bs)) ≡ bs
unfolding join find_bounds
find_bounds-join [] zero h p = refl
find_bounds-join [] (suc f) h p = refl
find_bounds-join (b ∷ []) f h p =
    ap (find_bounds f) (sym (append-nil (bound_text b)))
    ∙ find_bounds-bound f b [] h.0 refl (rw append-nil p)
    ∙ ap (λ bs. b ∷ bs) (find_bounds_fuel f 0 [] (omega arith) (omega arith))
find_bounds-join (b ∷ b' ∷ bs) f h p =
    let t = join (codes " ") (map bound_text (b' ∷ bs)) in
    let short : length t < f = omega (arith, p, length-append (bound_text b) (codes " " ++ t)) in
    find_bounds-bound f b (codes " " ++ t) h.0 (space_ends t) p
    ∙ ap (λ bs. b ∷ bs)
        (find_bounds_fuel f (suc f) (codes " " ++ t) short (omega arith)
          ∙ find_bounds-space f t
          ∙ find_bounds-join (b' ∷ bs) f h.1 (omega arith))
