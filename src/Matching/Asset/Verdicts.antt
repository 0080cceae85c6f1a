-- ===== src/Matching/Asset/Verdicts.antt =====
-- What each verdict of `match_asset` rests on.
use mathlib.Core.List.{append-nil, append_assoc}
use asber.Base.{
  Text, inl, inr, none, refl, some, ◌≡◌, ◌≢◌, ◌⊎◌, Any, Bool, List, Option, [], ◌++◌, ◌∷◌, All, ap,
  arith, codes, false, is_empty, sym, ◌∙◌,
}
use asber.Models.{AffectedProduct}
use asber.Matching.Version.{Sign, same, compare_versions, above, below}
use asber.Matching.Range.{
  within, outside, parse_range, cpe_version, version_in_range, Verdict, unknown,
}
use asber.Matching.Asset.{
  judge, Judgement, MatchResult, affected, hit, ruled_out, undecided, judge_all, judge_pinned,
  judge_range, returned, after, finished, judge_row, range_evidence,
}

-- A row that confirms the version: it pins a version that compares as the same, or it pins none
-- and `version_in_range` answers `within`.
abbrev pub Confirms : Text → AffectedProduct → Type 0
Confirms version p =
    ((pinned : Text) × (cpe_version p.cpe ≡ some pinned)
      × (compare_versions version pinned ≡ some same))
    ⊎ ((cpe_version p.cpe ≡ none)
        × (version_in_range (some version) (parse_range p.versions) ≡ within))

-- A row that shows the version not to be affected: it pins another version that could be
-- compared, or it pins none and the version lies outside its range.
abbrev pub RulesOut : Text → AffectedProduct → Type 0
RulesOut version p =
    ((pinned : Text) × (c : Sign) × (cpe_version p.cpe ≡ some pinned)
      × (compare_versions version pinned ≡ some c)
      × (c ≢ same))
    ⊎ ((cpe_version p.cpe ≡ none)
        × (version_in_range (some version) (parse_range p.versions) ≡ outside))

-- What a round of the loop rests on.
abbrev Justified : Text → AffectedProduct → Judgement → Type 0
Justified version p (hit r) = (r.state ≡ affected) × Confirms version p
Justified version p (ruled_out t) = RulesOut version p
Justified version p undecided = Unit {0}

module _ (label version : Text) (p : AffectedProduct) where
  judge_pinned-Justified :
      (pinned : Text) (o : Option Sign)
      → cpe_version p.cpe ≡ some pinned
      → compare_versions version pinned ≡ o
      → Justified version p (judge_pinned label version p pinned o)
  judge_pinned-Justified pinned none e c = tt
  judge_pinned-Justified pinned (some below) e c = inl (pinned, below, e, c, λ q. cc)
  judge_pinned-Justified pinned (some same) e c = (refl, inl (pinned, e, c))
  judge_pinned-Justified pinned (some above) e c = inl (pinned, above, e, c, λ q. cc)

  judge_range-Justified :
      (v : Verdict)
      → cpe_version p.cpe ≡ none
      → version_in_range (some version) (parse_range p.versions) ≡ v
      → Justified version p (judge_range label version p (parse_range p.versions) v)
  judge_range-Justified within e c = (refl, inr (e, c))
  judge_range-Justified outside e c = inr (e, c)
  judge_range-Justified unknown e c = tt

  judge_row-Justified :
      (o : Option Text) → cpe_version p.cpe ≡ o → Justified version p (judge_row label version p o)
  judge_row-Justified none e = judge_range-Justified _ e refl
  judge_row-Justified (some pinned) e = judge_pinned-Justified pinned _ e refl

  judge-Justified : Justified version p (judge label version p)
  unfolding judge
  judge-Justified = judge_row-Justified (cpe_version p.cpe) refl

  -- A row that rules the version out is judged so.
  judge-RulesOut : RulesOut version p → (t : Text) × (judge label version p ≡ ruled_out t)
  unfolding judge
  judge-RulesOut (inl (pinned, below, e, c, n)) = (p.cpe ++ codes " names " ++ pinned, rw (e, c))
  judge-RulesOut (inl (pinned, same, e, c, n)) = absurd (n refl)
  judge-RulesOut (inl (pinned, above, e, c, n)) = (p.cpe ++ codes " names " ++ pinned, rw (e, c))
  judge-RulesOut (inr (e, c)) = (range_evidence (parse_range p.versions), rw (e, c))

module _ (label version : Text) where
  pub judge_all-returned :
      (ps : List AffectedProduct) (outs : List Text) (b : Bool) (r : MatchResult)
      → judge_all label version ps outs b ≡ returned r
      → (r.state ≡ affected) × Any (Confirms version) ps
  unfolding judge_all
  judge_all-returned [] outs b r h = cc
  judge_all-returned (p ∷ ps) outs b r h =
      go (judge label version p) (judge-Justified label version p) h
        (λ outs' b'. judge_all-returned ps outs' b' r)
    where
      go :
          (j : Judgement)
          → Justified version p j
          → after j outs b (λ outs' b'. judge_all label version ps outs' b') ≡ returned r
          → ((outs' : List Text) (b' : Bool)
              → judge_all label version ps outs' b' ≡ returned r
              → (r.state ≡ affected) × Any (Confirms version) ps)
          → (r.state ≡ affected) × Any (Confirms version) (p ∷ ps)
      go (hit r') k e ih = ground (arith, k.0, k.1)
      go (ruled_out t) k e ih = (let q = ih _ _ e in (q.0, inr q.1))
      go undecided k e ih = (let q = ih _ _ e in (q.0, inr q.1))

  pub judge_all-finished :
      (ps : List AffectedProduct) (outs : List Text) (b : Bool) (outs' : List Text)
      → judge_all label version ps outs b ≡ finished outs' false
      → (b ≡ false) × All (RulesOut version) ps
  unfolding judge_all
  judge_all-finished [] outs b outs' h = (cc, tt)
  judge_all-finished (p ∷ ps) outs b outs' h =
      go (judge label version p) (judge-Justified label version p) h
        (λ o b'. judge_all-finished ps o b' outs')
    where
      go :
          (j : Judgement)
          → Justified version p j
          → after j outs b (λ o b'. judge_all label version ps o b') ≡ finished outs' false
          → ((o : List Text) (b' : Bool)
              → judge_all label version ps o b' ≡ finished outs' false
              → (b' ≡ false) × All (RulesOut version) ps)
          → (b ≡ false) × All (RulesOut version) (p ∷ ps)
      go (hit r') k e ih = cc
      go (ruled_out t) k e ih = let q = ih _ _ e in (q.0, (k, q.1))
      go undecided k e ih = cc (ih _ _ e).0

  -- Rows that all rule the version out are all recorded, and none is left open.
  pub judge_all-RulesOut :
      (ps : List AffectedProduct) (outs : List Text) (b : Bool)
      → All (RulesOut version) ps
      → (reasons : List Text) × (judge_all label version ps outs b ≡ finished (outs ++ reasons) b)
        × (is_empty reasons ≡ is_empty ps)
  unfolding judge_all
  judge_all-RulesOut [] outs b h = ([], ap (λ o. finished o b) (sym (append-nil outs)), refl)
  judge_all-RulesOut (p ∷ ps) outs b h =
      let (t, e) = judge-RulesOut label version p h.0 in
      let (reasons, q, z) = judge_all-RulesOut ps (outs ++ t ∷ []) b h.1 in
      (t ∷ reasons, rw e (q ∙ ap (λ o. finished o b) (append_assoc outs (t ∷ []) reasons)), refl)
