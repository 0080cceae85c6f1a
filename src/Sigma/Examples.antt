-- ===== src/Sigma/Examples.antt =====
-- Tags, a rule and an archive.
use asber.Base.{
  List, Option, Text, [], arith, codes, false, is_digit, is_space, join, lower, lstrip, none, refl,
  rstrip, some, split_on, starts_with, strip, true, upper, ◌∷◌, ◌≡◌,
}
use asber.Sigma.{
  document, word, parse_rule, scalar, Loaded, text_within, cve_in, str_list, technique_in, Rule,
  techniques_from_tags, cves_from_tags, Value,
}
use asber.Sigma.Bounds.{IsBounded, iter_rules-IsBounded}
use asber.Sigma.Archive.{Member, iter_rules}

tags_run :
    (techniques_from_tags (
        codes "attack.t1190"
        ∷ codes "attack.execution"
        ∷ codes " ATTACK.T1059.001 "
        ∷ codes "attack.t1190"
        ∷ [])
      ≡ codes "T1190" ∷ codes "T1059.001" ∷ [])
    × (cves_from_tags (codes "cve.2017-5638" ∷ codes "CVE.2021.44228" ∷ codes "cve.2017" ∷ [])
        ≡ codes "CVE-2017-5638" ∷ codes "CVE-2021-44228" ∷ [])
unfolding techniques_from_tags technique_in cves_from_tags cve_in strip lstrip rstrip lower upper
    starts_with is_digit is_space
tags_run = (refl, refl)

abbrev titled : Text → Loaded
titled text = document ((codes "id", word text) ∷ (codes "title", scalar (codes " 1  2 ")) ∷ [])

abbrev no_dump : Value → Text
no_dump v = []

abbrev title_of_rule : Option Rule → Option Text
title_of_rule none = none
title_of_rule (some r) = some r.title

rule_run :
    (title_of_rule (parse_rule no_dump titled (codes "a")) ≡ some (codes "1 2"))
    × (parse_rule no_dump titled (codes "  ") ≡ none)
unfolding parse_rule text_within split_on join is_space str_list lower techniques_from_tags
    cves_from_tags
rule_run = (refl, refl)

abbrev members : List Member
members =
    record { filename = codes "rules/"; is_dir = true; file_size = 0; content = [] }
    ∷ record {
      filename = codes "rules/a.YML";
      is_dir = false;
      file_size = 9;
      content = codes "id: a";
    }
    ∷ record { filename = codes "bomb.yaml"; is_dir = false; file_size = 2000000; content = [] }
    ∷ record {
      filename = codes "README.md";
      is_dir = false;
      file_size = 7;
      content = codes "# Sigma";
    }
    ∷ []

members_run : iter_rules members ≡ some ((codes "rules/a.YML", codes "id: a") ∷ [])
unfolding iter_rules lower starts_with
members_run = refl

iter_rules-IsBounded_example : IsBounded members (iter_rules members)
iter_rules-IsBounded_example =
    iter_rules-IsBounded members (omega arith, (omega arith, (omega arith, (omega arith, tt))))
