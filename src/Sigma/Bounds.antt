-- ===== src/Sigma/Bounds.antt =====
-- What is read of an archive stays within the caps.
use asber.Base.{
  All, All-filter_keep, Bool-cases, List, Option, Text, [], ap, arith, false, filter, inl, inr, leb,
  length, ltb, map, none, refl, some, sum_by, true, ◌<◌, ◌∷◌, ◌≡◌, ◌≤◌, ◌⊎◌,
}
use asber.Sigma.Archive.{
  is_rule_file, max_member_bytes, max_total_bytes, Member, max_members, iter_rules, yielded,
}

abbrev pub contents : Member → Text × Text
contents m = (m.filename, m.content)

abbrev pub rule_files : List Member → List Member
rule_files = filter is_rule_file

-- What is read of the rule files: each that is not too large, and no other, within the caps; or
-- nothing, if there are too many of them or they are too large together.
abbrev pub IsBounded : List Member → Option (List (Text × Text)) → Type 0
IsBounded members none =
    (20000 < length (rule_files members))
    ⊎ (67108864 < sum_by (λ m. m.file_size) (rule_files members))
IsBounded members (some out) =
    (length out ≤ 20000)
    × (sum_by (λ p. length p.1) out ≤ 67108864)
    × All (λ p. length p.1 ≤ 1048576) out
    × (out ≡ map contents (filter (λ m. leb m.file_size 1048576) (rule_files members)))

length-yielded : (infos : List Member) → length (yielded infos) ≤ length infos
length-yielded [] = omega arith
length-yielded (m ∷ infos) = elim (Bool-cases (ltb max_member_bytes m.file_size)) [
  | inl e ↦ rw e (omega (arith, length-yielded infos))
  | inr e ↦ rw e (omega (arith, length-yielded infos))
]

yielded_total :
    (infos : List Member)
    → All (λ m. length m.content ≤ m.file_size) infos
    → sum_by (λ p. length p.1) (yielded infos) ≤ sum_by (λ m. m.file_size) infos
yielded_total [] h = omega arith
yielded_total (m ∷ infos) h =
    let first = h.0 in
    let rest = yielded_total infos h.1 in
    elim (Bool-cases (ltb max_member_bytes m.file_size)) [
      | inl e ↦ rw e (omega arith)
      | inr e ↦ rw e (omega arith)
    ]

yielded_each :
    (infos : List Member)
    → All (λ m. length m.content ≤ m.file_size) infos
    → All (λ p. length p.1 ≤ 1048576) (yielded infos)
yielded_each [] h = tt
yielded_each (m ∷ infos) h =
    let first = h.0 in
    elim (Bool-cases (ltb max_member_bytes m.file_size)) [
      | inl e ↦ rw e (yielded_each infos h.1)
      | inr e ↦
          let fits : length m.content ≤ 1048576 = ground arith in
          rw e (fits, yielded_each infos h.1)
    ]

yielded-filter :
    (infos : List Member)
    → yielded infos ≡ map contents (filter (λ m. leb m.file_size 1048576) infos)
yielded-filter [] = refl
yielded-filter (m ∷ infos) = elim (Bool-cases (ltb max_member_bytes m.file_size)) [
  | inl e ↦
      let f : leb m.file_size 1048576 ≡ false = ground arith in rw (e, f) (yielded-filter infos)
  | inr e ↦
      let f : leb m.file_size 1048576 ≡ true = ground arith in
      rw (e, f) (ap (λ l. contents m ∷ l) (yielded-filter infos))
]

-- Where no member reads longer than its declared size, what is read of an archive is at most 20,000
-- rule files, none longer than 1 MiB and 64 MiB together. It is every rule file whose declared
-- size is at most 1 MiB, in order. An archive is refused only if it declares more rule files than
-- the cap, or more bytes of them.
pub iter_rules-IsBounded :
    (members : List Member)
    → All (λ m. length m.content ≤ m.file_size) members
    → IsBounded members (iter_rules members)
unfolding iter_rules
iter_rules-IsBounded members h =
    let infos = rule_files members in
    let sizes = All-filter_keep (λ m. length m.content ≤ m.file_size) is_rule_file members h in
    elim (Bool-cases (ltb max_members (length infos))) [
      | inl e ↦ rw e (inl (ground arith))
      | inr e ↦ elim (Bool-cases (ltb max_total_bytes (sum_by (λ m. m.file_size) infos))) [
        | inl f ↦ rw (e, f) (inr (ground arith))
        | inr f ↦
            let number = length-yielded infos in
            let total = yielded_total infos sizes in
            rw (e, f) (ground arith, ground arith, yielded_each infos sizes, yielded-filter infos)
      ]
    ]
