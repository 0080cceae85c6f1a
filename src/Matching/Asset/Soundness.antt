-- ===== src/Matching/Asset/Soundness.antt =====
-- What the verdicts of `match_asset` rest on: doubt never rules anything out.
use mathlib.Core.Path.{subst}
use asber.Base.{
  All, All-filter, Any, Any-filter, Bool-cases, List, Option, Text, [], ap, arith, false, filter,
  inl, inr, is_empty, refl, some, sym, true, ◌∙◌, ◌∷◌, ◌≡◌, ◌≢◌, ◌⊎◌, filter-All, Any-map, none,
}
use asber.Models.{AffectedProduct, EnvironmentAsset, Vulnerability}
use asber.Matching.Version.{same}
use asber.Matching.Asset.{
  match_asset, MatchResult, Outcome, State, affected, conclude, finished, is_candidate, judge_all,
  label_of, match_candidates, match_kev, not_affected, possibly_affected, returned, text_or_empty,
}
use asber.Matching.Asset.Verdicts.{
  Confirms, RulesOut, judge_all-finished, judge_all-returned, judge_all-RulesOut,
}
use asber.Matching.Range.{Range, parse_range, version_in_range, within, cpe_version}
use asber.Matching.Range.Bounds.{Meets, RangeTells, version_in_range_tells}
use asber.Matching.Version.{compare_versions}

abbrev pub version_of : EnvironmentAsset → Text
version_of asset = text_or_empty asset.version

conclude-affected :
    (label version : Text) (o : Outcome)
    → (conclude label version o).state ≡ affected
    → (r : MatchResult) × (o ≡ returned r)
conclude-affected label version (returned r) h = (r, refl)
conclude-affected label version (finished outs true) h = cc
conclude-affected label version (finished [] false) h = cc
conclude-affected label version (finished (t ∷ outs) false) h = cc

conclude-not_affected :
    (label version : Text) (o : Outcome)
    → (conclude label version o).state ≡ not_affected
    → ((r : MatchResult) × (o ≡ returned r) × (r.state ≡ not_affected))
      ⊎ ((outs : List Text) × (o ≡ finished outs false))
conclude-not_affected label version (returned r) h = inl (r, refl, h)
conclude-not_affected label version (finished outs true) h = cc
conclude-not_affected label version (finished [] false) h = cc
conclude-not_affected label version (finished (t ∷ outs) false) h = inr (t ∷ outs, refl)

-- What a state of the result says of the rows, for a non-empty version.
abbrev Grounds : State → Text → List AffectedProduct → Type 0
Grounds affected version ps = Any (Confirms version) ps
Grounds possibly_affected version ps = Unit {0}
Grounds not_affected version ps = All (RulesOut version) ps

conclude-Grounds :
    (label version : Text) (ps : List AffectedProduct) (s : State)
    → (conclude label version (judge_all label version ps [] false)).state ≡ s
    → Grounds s version ps
conclude-Grounds label version ps affected h =
    let (r, e) = conclude-affected label version _ h in
    (judge_all-returned label version ps [] false r e).1
conclude-Grounds label version ps possibly_affected h = tt
conclude-Grounds label version ps not_affected h =
    elim (conclude-not_affected label version (judge_all label version ps [] false) h) [
      | inl (r, e, k) ↦ cc (k, (judge_all-returned label version ps [] false r e).0)
      | inr (outs, e) ↦ (judge_all-finished label version ps [] false outs e).1
    ]

module _ (asset : EnvironmentAsset) where
  match_candidates-Grounds :
      (ps : List AffectedProduct) (s : State)
      → s ≢ possibly_affected
      → (match_candidates asset ps).state ≡ s
      → (is_empty (version_of asset) ≡ false) × Grounds s (version_of asset) ps
  unfolding match_candidates
  match_candidates-Grounds ps s n h = elim (Bool-cases (is_empty (version_of asset))) [
    | inl e ↦ absurd (n (blank e))
    | inr e ↦ (e, conclude-Grounds (label_of asset) (version_of asset) ps s (rw e at h))
  ]
    where
      blank : is_empty (version_of asset) ≡ true → s ≡ possibly_affected
      blank e = ground arith

  match_kev-possibly :
      (vuln : Option Vulnerability) (r : MatchResult)
      → match_kev asset vuln ≡ some r
      → r.state ≡ possibly_affected
  unfolding match_kev
  match_kev-possibly vuln r h = ground arith

-- A row that shows a version to be affected: it pins a version that compares as the same, or it
-- pins none and has a range whose bounds the version meets.
abbrev pub Shows : Text → AffectedProduct → Type 0
Shows version p =
    ((pinned : Text) × (cpe_version p.cpe ≡ some pinned)
      × (compare_versions version pinned ≡ some same))
    ⊎ ((range : Range) × (cpe_version p.cpe ≡ none)
        × (parse_range p.versions ≡ some range)
        × Meets version range.lower
        × Meets version range.upper)

no_range : (version : Text) → version_in_range (some version) none ≢ within
unfolding version_in_range
no_range version k = cc k

Confirms-Shows :
    (version : Text) (p : AffectedProduct)
    → is_empty version ≡ false
    → Confirms version p
    → Shows version p
Confirms-Shows version p filled (inl c) = inl c
Confirms-Shows version p filled (inr (pinned, inside)) = go (parse_range p.versions) refl inside
  where
    go :
        (o : Option Range)
        → parse_range p.versions ≡ o
        → version_in_range (some version) o ≡ within
        → Shows version p
    go none e k = absurd (no_range version k)
    go (some range) e k =
        let tells = version_in_range_tells p.versions range version e filled in
        let (met_low, met_high) = subst (λ v. RangeTells v version range) k tells in
        inr (range, pinned, e, met_low, met_high)

module _ (asset : EnvironmentAsset) (products : List AffectedProduct) (vuln : Option Vulnerability)
    (r : MatchResult) (matched : match_asset asset products vuln ≡ some r) where
  match_asset-Grounds :
      (s : State)
      → s ≢ possibly_affected
      → r.state ≡ s
      → (is_empty (version_of asset) ≡ false)
        × (is_empty (filter (is_candidate asset) products) ≡ false)
        × Grounds s (version_of asset) (filter (is_candidate asset) products)
  unfolding match_asset
  match_asset-Grounds s n h = elim (Bool-cases (is_empty (filter (is_candidate asset) products))) [
    | inl e ↦ absurd (n (sym h ∙ match_kev-possibly asset vuln r (rw e at matched)))
    | inr e ↦
        let q : match_candidates asset (filter (is_candidate asset) products) ≡ r =
          cc (rw e at matched) in
        let g =
          match_candidates-Grounds asset (filter (is_candidate asset) products) s n
            (ap (λ (x : MatchResult). x.state) q ∙ h) in
        (g.0, e, g.1)
  ]

  -- A verdict `affected` rests on evidence: the asset has a version, and some affected row of the
  -- CVE is for the asset's product and shows it. The row pins a version that compares as the same
  -- as the asset's, or it pins none and has a range each of whose bounds compared with the version
  -- and is met by it. It is not said that either text can be read as a version.
  pub affected_has_evidence :
      r.state ≡ affected
      → (is_empty (version_of asset) ≡ false)
        × Any (λ p. (is_candidate asset p ≡ true) × Shows (version_of asset) p) products
  affected_has_evidence h =
      let g = match_asset-Grounds affected (λ e. cc) h in
      (
        g.0,
        Any-filter (Shows (version_of asset)) (is_candidate asset) products
            (Any-map _ (λ p c. Confirms-Shows (version_of asset) p g.0 c) g.2),
      )

  -- A verdict `not_affected` rests on comparisons alone: the asset has a version, at least one
  -- affected row is for the asset's product, and every such row was compared with the version and
  -- excludes it. No row whose version could not be ordered is among them.
  pub not_affected_is_proved :
      r.state ≡ not_affected
      → (is_empty (version_of asset) ≡ false)
        × (is_empty (filter (is_candidate asset) products) ≡ false)
        × All (λ p. is_candidate asset p ≡ true → RulesOut (version_of asset) p) products
  not_affected_is_proved h =
      let g = match_asset-Grounds not_affected (λ e. cc) h in
      (g.0, g.1, All-filter (RulesOut (version_of asset)) (is_candidate asset) products g.2)

-- An asset with a version, for which a CVE has at least one row of its product, and whose version
-- every such row was compared with and excludes, is found `not_affected`.
pub not_affected_is_found :
    (asset : EnvironmentAsset) (products : List AffectedProduct) (vuln : Option Vulnerability)
    → is_empty (version_of asset) ≡ false
    → is_empty (filter (is_candidate asset) products) ≡ false
    → All (λ p. is_candidate asset p ≡ true → RulesOut (version_of asset) p) products
    → (r : MatchResult) × (match_asset asset products vuln ≡ some r) × (r.state ≡ not_affected)
unfolding match_asset match_candidates
not_affected_is_found asset products vuln recorded listed h =
    let rows = filter (is_candidate asset) products in
    let (reasons, e, z) =
      judge_all-RulesOut (label_of asset) (version_of asset) rows [] false
        (filter-All (RulesOut (version_of asset)) (is_candidate asset) products h) in
    (match_candidates asset rows, rw listed, rw (recorded, e, z ∙ listed))
