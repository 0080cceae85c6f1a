-- ===== src/Rampart/Repository/Fresh.antt =====
-- What the two recomputations store.
use mathlib.Core.Path.{ap₂}
use mathlib.Core.List.{append-nil}
use asber.Base.{
  ◌+◌, map, length, All, All-append, Bool, List, Option, Text, [], arith, false, filter, find,
  is_empty, none, not, refl, some, text_eq_self, true, ℕ, ◌++◌, ◌∷◌, ◌≡◌, All-map, Bool-cases,
  StrictlySorted, ap, filter-append, filter_absorb, filter_unchanged, filter_none, if◌then◌else◌,
  inl, inr, one_of, text_eq, text_eq_comm, ◌&&◌, ◌∙◌, find-some, not_one_of,
  sorted_set-StrictlySorted, sym, text_eq_iff,
}
use asber.Rampart.Tables.{Tables, EnvironmentMatch}
use asber.Matching.Asset.{match_asset, MatchResult}
use asber.Rampart.Repository.{
  match_row, owns_asset, matches_on, is_vulnerability, recompute_cve, keep_result, products_of,
  write_matches, is_match_on, is_match_of, result_for, results_for, candidate_ids, get_asset,
  is_asset, recompute_asset, numbered,
}
use asber.Models.{EnvironmentAsset, Vulnerability, AffectedProduct}
use asber.Rampart.Samples.{known}
use asber.Rampart.Repository.Keys.{unnumbered, numbered-All, filter-numbered}

-- The row that a verdict on a CVE is stored as, if there is a verdict.
abbrev pub stored : Text → EnvironmentAsset → ℕ → Text → Option MatchResult → List EnvironmentMatch
stored owner a now cve_id none = []
stored owner a now cve_id (some r) = match_row owner a now cve_id r ∷ []

-- One verdict for each asset of a list, on the rows of one CVE.
abbrev pub verdicts :
    Text
    → ℕ
    → Text
    → List AffectedProduct
    → Vulnerability
    → List EnvironmentAsset
    → List EnvironmentMatch
verdicts owner now cve_id products v [] = []
verdicts owner now cve_id products v (a ∷ as') =
    stored owner a now cve_id (match_asset a products (some v))
    ++ verdicts owner now cve_id products v as'

module _ (owner : Text) (now : ℕ) (cve_id : Text) where
  write-stored :
      (a : EnvironmentAsset) (o : Option MatchResult)
      → write_matches owner a now (keep_result cve_id o []) ≡ stored owner a now cve_id o
  unfolding write_matches
  write-stored a none = refl
  write-stored a (some r) = refl

  pub matches_on-eq-verdicts :
      (products : List AffectedProduct) (v : Vulnerability) (as' : List EnvironmentAsset)
      → matches_on owner now cve_id products v as' ≡ verdicts owner now cve_id products v as'
  unfolding matches_on
  matches_on-eq-verdicts products v [] = refl
  matches_on-eq-verdicts products v (a ∷ as') =
      rw (write-stored a (match_asset a products (some v)), matches_on-eq-verdicts products v as')

  stored-on :
      (a : EnvironmentAsset) (o : Option MatchResult)
      → All (λ m. is_match_on owner cve_id m ≡ true) (stored owner a now cve_id o)
  stored-on a none = tt
  stored-on a (some r) = (rw (text_eq_self owner, text_eq_self cve_id), tt)

  pub verdicts-on :
      (products : List AffectedProduct) (v : Vulnerability) (as' : List EnvironmentAsset)
      → All (λ m. is_match_on owner cve_id m ≡ true) (verdicts owner now cve_id products v as')
  verdicts-on products v [] = tt
  verdicts-on products v (a ∷ as') =
      All-append (λ m. is_match_on owner cve_id m ≡ true) _ _
        (stored-on a (match_asset a products (some v))) (verdicts-on products v as')

filter-filter-not {ℓ} :
    {A : Type ℓ} (p : A → Bool) (xs : List A) → filter p (filter (λ x. not (p x)) xs) ≡ []
filter-filter-not p [] = refl
filter-filter-not p (x ∷ xs) = ground (arith, filter-filter-not p xs)

filter_disjoint {ℓ} :
    {A : Type ℓ} (p q : A → Bool) (xs : List A)
    → ((x : A) → p x ≡ true → q x ≡ false)
    → filter p (filter q xs) ≡ []
filter_disjoint p q [] h = refl
filter_disjoint p q (x ∷ xs) h = ground (arith, h x, filter_disjoint p q xs h)

stored-unnumbered :
    (owner : Text) (a : EnvironmentAsset) (now : ℕ) (c : Text) (b : Bool) (o : Option MatchResult)
    → map unnumbered (if b then stored owner a now c o else [])
      ≡ (if b then stored owner a now c o else [])
stored-unnumbered owner a now c false o = refl
stored-unnumbered owner a now c true none = refl
stored-unnumbered owner a now c true (some r) = refl

-- Recomputing a known CVE for an owner with at least one asset leaves, of the owner's matches on
-- that CVE, exactly one row for each asset that `match_asset` gives a verdict on, computed from
-- the present products, with the next keys, in the order of the assets, and leaves the other
-- matches as they were. Of the tables nothing but the matches and their next key changes, and what
-- is returned is the number of these rows.
pub recompute_cve_is_fresh :
    (now : ℕ) (db : Tables) (owner cve_id : Text) (v : Vulnerability)
    → is_empty (filter (owns_asset owner) db.assets) ≡ false
    → find (is_vulnerability cve_id) db.vulnerabilities ≡ some v
    → (filter (is_match_on owner cve_id) (recompute_cve now db owner cve_id).1.matches
        ≡ numbered db.next_match (
            verdicts owner now cve_id
              (products_of db cve_id)
              v
              (filter (owns_asset owner) db.assets)))
      × (filter
            (λ m. not (is_match_on owner cve_id m))
            (recompute_cve now db owner cve_id).1.matches
          ≡ filter (λ m. not (is_match_on owner cve_id m)) db.matches)
      × ((recompute_cve now db owner cve_id).1 ≡ record db {
        matches = (recompute_cve now db owner cve_id).1.matches;
        next_match = db.next_match + (recompute_cve now db owner cve_id).0;
      })
      × ((recompute_cve now db owner cve_id).0
          ≡ length (
              verdicts owner now cve_id
                (products_of db cve_id)
                v
                (filter (owns_asset owner) db.assets)))
unfolding recompute_cve
recompute_cve_is_fresh now db owner cve_id v some_asset known =
    let p = is_match_on owner cve_id in
    let products = products_of db cve_id in
    let as' = filter (owns_asset owner) db.assets in
    let e = matches_on-eq-verdicts owner now cve_id products v as' in
    let rows = numbered db.next_match (verdicts owner now cve_id products v as') in
    let on : All (λ m. p m ≡ true) rows =
      numbered-All p (λ m id. refl) db.next_match _ (verdicts-on owner now cve_id products v as') in
    rw (some_asset, known, e)
      (
        filter-append p (filter (λ m. not (p m)) db.matches) rows
            ∙ ap₂ (λ xs ys. xs ++ ys) (filter-filter-not p db.matches) (filter_unchanged p _ on),
        filter-append (λ m. not (p m)) (filter (λ m. not (p m)) db.matches) rows
            ∙ ap₂ (λ xs ys. xs ++ ys)
                (filter_absorb (λ m. not (p m)) (λ m. not (p m)) db.matches (λ x h. h))
                (filter_none (λ m. not (p m)) _ (All-map _ (λ x h. ap not h) on))
            ∙ append-nil _,
        refl,
        refl,
      )

module _ (db : Tables) (owner : Text) (asset_id : ℕ) (a : EnvironmentAsset)
    (same_id : a.id ≡ asset_id) (now : ℕ) (c : Text) where
  abbrev concerns : EnvironmentMatch → Bool
  concerns m = is_match_of owner asset_id m && text_eq m.cve_id c

  row-concerns : (d : Text) (r : MatchResult) → concerns (match_row owner a now d r) ≡ text_eq c d
  row-concerns d r = rw (text_eq_self owner, text_eq_comm d c) (ground arith)

  kept_result-concerns :
      (d : Text) (o : Option MatchResult) (rest : List (Text × MatchResult))
      → filter concerns (write_matches owner a now (keep_result d o rest))
        ≡ (if text_eq c d then stored owner a now d o else [])
          ++ filter concerns (write_matches owner a now rest)
  unfolding write_matches
  kept_result-concerns d none rest = ground arith
  kept_result-concerns d (some r) rest = elim (Bool-cases (text_eq c d)) [
    | inl e ↦ rw (row-concerns d r, e)
    | inr e ↦ rw (row-concerns d r, e)
  ]

  results-concerns :
      (ids : List Text)
      → StrictlySorted ids
      → filter concerns (write_matches owner a now (results_for db a ids))
        ≡ (if one_of c ids then stored owner a now c (result_for db a c) else [])
  unfolding results_for write_matches
  results-concerns [] h = refl
  results-concerns (d ∷ ds) h = elim (Bool-cases (text_eq c d)) [
    | inl e ↦
        let ce = (text_eq_iff c d).0 e in
        let absent : one_of c ds ≡ false = rw ce (not_one_of d ds h.0) in
        kept_result-concerns d (result_for db a d) (results_for db a ds)
        ∙ ap₂ (λ xs ys. xs ++ ys) {y = stored owner a now c (result_for db a c)} {v = []}
            (rw e (ap (λ x. stored owner a now x (result_for db a x)) (sym ce)))
            (results-concerns ds h.1 ∙ rw absent)
        ∙ append-nil (stored owner a now c (result_for db a c))
        ∙ rw e
    | inr e ↦
        kept_result-concerns d (result_for db a d) (results_for db a ds)
        ∙ rw e (results-concerns ds h.1)
  ]

-- Recomputing an asset leaves, of its matches on any CVE, exactly the row, but for its key, of the verdict that its
-- present products and vulnerability give, if the CVE is among the candidates, and no row at all
-- if it is not: whatever `match_asset` would say of a CVE that the search by product name does not
-- find, it is not asked.
pub recompute_asset_is_fresh :
    (like : Text → Text → Bool) (now : ℕ) (db : Tables) (owner : Text) (asset_id : ℕ)
    (a : EnvironmentAsset) (c : Text)
    → get_asset db owner asset_id ≡ some a
    → map unnumbered (
        filter
          (λ m. is_match_of owner asset_id m && text_eq m.cve_id c)
          (recompute_asset like now db owner asset_id).1.matches)
      ≡ (if one_of c (candidate_ids like db a)
          then stored owner a now c (result_for db a c)
          else [])
unfolding recompute_asset candidate_ids get_asset
recompute_asset_is_fresh like now db owner asset_id a c found =
    let same_id : a.id ≡ asset_id =
      ground (arith, (find-some (is_asset owner asset_id) db.assets a found).0) in
    let p = λ (m : EnvironmentMatch). is_match_of owner asset_id m && text_eq m.cve_id c in
    let rows =
      numbered db.next_match
        (write_matches owner a now (results_for db a (candidate_ids like db a))) in
    rw found (
      ap (map unnumbered) (
        filter-append p (filter (λ m. not (is_match_of owner asset_id m)) db.matches) rows
        ∙ ap (λ xs. xs ++ filter p rows)
            (filter_disjoint p (λ m. not (is_match_of owner asset_id m)) db.matches
              (λ x h. ground arith)))
      ∙ filter-numbered p (λ m id. refl) db.next_match _
      ∙ ap (map unnumbered) (
          results-concerns db owner asset_id a same_id now c (candidate_ids like db a)
            (sorted_set-StrictlySorted _))
      ∙ stored-unnumbered owner a now c (one_of c (candidate_ids like db a)) (result_for db a c))
