-- ===== src/Rampart/Reads/Tallies.antt =====
-- What `counts_by_asset` counts, by a description that has no loop.
use asber.Base.{
  Bool, List, Option, Text, filter, if◌then◌else◌, length, map, refl, sort_by, sorted_set, sum_by,
  ℕ, ◌&&◌, ◌+◌, ◌==◌, ◌≡◌, [], ap, arith, ◌∙◌, ◌∷◌, Bool-cases, false, inl, inr, true,
}
use asber.Matching.Asset.{possibly_affected, affected, State, not_affected}
use asber.Rampart.Reads.Counts.{
  tally_entry, joined_rows, counts_from, AssetCounts, tally_each, counts_before, is_wanted,
  counts_by_asset, count_state, count_total,
}
use asber.Rampart.Repository.{list_assets}
use asber.Rampart.Reads.{same_state}
use asber.Models.{EnvironmentAsset}
use asber.Rampart.Tables.{EnvironmentMatch, Tables}

abbrev one : Bool → ℕ
one b = if b then 1 else 0

-- How many of the rows pass.
abbrev pub number : (EnvironmentMatch → Bool) → List EnvironmentMatch → ℕ
number p rows = sum_by (λ m. one (p m)) rows

abbrev pub is_verdict : EnvironmentAsset → State → EnvironmentMatch → Bool
is_verdict a s m = m.asset_id == a.id && same_state m.state s

abbrev pub is_wanted_on : List State → EnvironmentAsset → EnvironmentMatch → Bool
is_wanted_on states a m = m.asset_id == a.id && is_wanted states m

abbrev pub counted : List State → List EnvironmentMatch → EnvironmentAsset → AssetCounts
counted states rows a =
    counts_from a (number (is_verdict a affected) rows)
      (number (is_verdict a possibly_affected) rows) (number (is_verdict a not_affected) rows)
      (number (is_wanted_on states a) rows)

counts_from-eq :
    (a : EnvironmentAsset) {x x' y y' z z' t t' : ℕ}
    → x ≡ x'
    → y ≡ y'
    → z ≡ z'
    → t ≡ t'
    → counts_from a x y z t ≡ counts_from a x' y' z' t'
counts_from-eq a p q r s = rw (p, q, r, s) refl

count_lem :
    (s : State) (wanted : Bool) (a : EnvironmentAsset) (x y z t : ℕ)
    → count_total wanted (count_state s (counts_from a x y z t))
      ≡ counts_from a
          (x + (one (same_state s affected) + 0))
          (y + (one (same_state s possibly_affected) + 0))
          (z + (one (same_state s not_affected) + 0))
          (t + (one wanted + 0))
count_lem affected true a x y z t =
    counts_from-eq a (omega arith) (omega arith) (omega arith) (omega arith)
count_lem affected false a x y z t =
    counts_from-eq a (omega arith) (omega arith) (omega arith) (omega arith)
count_lem possibly_affected true a x y z t =
    counts_from-eq a (omega arith) (omega arith) (omega arith) (omega arith)
count_lem possibly_affected false a x y z t =
    counts_from-eq a (omega arith) (omega arith) (omega arith) (omega arith)
count_lem not_affected true a x y z t =
    counts_from-eq a (omega arith) (omega arith) (omega arith) (omega arith)
count_lem not_affected false a x y z t =
    counts_from-eq a (omega arith) (omega arith) (omega arith) (omega arith)

map_twice :
    {A B C : Type 0} (f : A → B) (g : B → C) (h : A → C) (xs : List A)
    → ((x : A) → g (f x) ≡ h x)
    → map g (map f xs) ≡ map h xs
map_twice f g h [] e = refl
map_twice f g h (x ∷ xs) e = rw (e x, map_twice f g h xs e) refl

map_same : {A B : Type 0} {f g : A → B} (xs : List A) → ((x : A) → f x ≡ g x) → map f xs ≡ map g xs
map_same [] e = refl
map_same (x ∷ xs) e = rw (e x, map_same xs e) refl

module _ (states : List State) where
  tally_lem :
      (m : EnvironmentMatch) (a : EnvironmentAsset) (x y z t : ℕ)
      → tally_entry states m (counts_from a x y z t)
        ≡ counts_from a
            (x + (one (is_verdict a affected m) + 0))
            (y + (one (is_verdict a possibly_affected m) + 0))
            (z + (one (is_verdict a not_affected m) + 0))
            (t + (one (is_wanted_on states a m) + 0))
  tally_lem m a x y z t = elim (Bool-cases (m.asset_id == a.id)) [
    | inl e ↦ rw e (count_lem m.state (is_wanted states m) a x y z t)
    | inr e ↦ rw e (counts_from-eq a (omega arith) (omega arith) (omega arith) (omega arith))
  ]

  -- What an asset has before the rows, and what they add.
  abbrev adds : List EnvironmentMatch → EnvironmentAsset → AssetCounts → AssetCounts
  adds rows a e =
      counts_from a (e.affected_count + number (is_verdict a affected) rows)
        (e.possibly_affected_count + number (is_verdict a possibly_affected) rows)
        (e.not_affected_count + number (is_verdict a not_affected) rows)
        (e.total + number (is_wanted_on states a) rows)

  abbrev of_asset : EnvironmentAsset → AssetCounts → AssetCounts
  of_asset a e =
      counts_from a e.affected_count e.possibly_affected_count e.not_affected_count e.total

  tally_each_lem :
      (rows : List EnvironmentMatch) (assets : List EnvironmentAsset)
      (seed : EnvironmentAsset → AssetCounts)
      → tally_each states rows (map (λ a. of_asset a (seed a)) assets)
        ≡ map (λ a. adds rows a (seed a)) assets
  tally_each_lem [] assets seed =
      map_same assets
        (λ a. counts_from-eq a (omega arith) (omega arith) (omega arith) (omega arith))
  tally_each_lem (m ∷ rows) assets seed =
      ap (tally_each states rows) (
        map_twice (λ a. of_asset a (seed a)) (tally_entry states m) (λ a. adds (m ∷ []) a (seed a))
          assets
          (λ a.
            tally_lem m a (seed a).affected_count (seed a).possibly_affected_count
              (seed a).not_affected_count (seed a).total))
      ∙ tally_each_lem rows assets (λ a. adds (m ∷ []) a (seed a))
      ∙ map_same assets
          (λ a. counts_from-eq a (omega arith) (omega arith) (omega arith) (omega arith))

-- Each asset's entry counts the joined rows of that asset in each state, and those in the wanted
-- states; the entries are the environment's assets, those without a match too, the most exposed
-- first; and the total is the number of CVEs of the joined rows in the wanted states, each once.
pub counts_by_asset_counts :
    (db : Tables) (owner : Text) (environment_id : ℕ) (cve_ids : Option (List Text))
    (states : List State)
    → let rows = joined_rows db owner environment_id cve_ids in
      counts_by_asset db owner environment_id cve_ids states ≡ (
        sort_by counts_before (map (counted states rows) (list_assets db owner environment_id)),
        length (sorted_set (map (λ m. m.cve_id) (filter (is_wanted states) rows))),
      )
unfolding counts_by_asset
counts_by_asset_counts db owner environment_id cve_ids states =
    let rows = joined_rows db owner environment_id cve_ids in
    let assets = list_assets db owner environment_id in
    let e =
      tally_each_lem states rows assets (λ a. counts_from a 0 0 0 0)
      ∙ map_same assets
          (λ a. counts_from-eq a (omega arith) (omega arith) (omega arith) (omega arith)) in
    ap
      (λ entries. (
        sort_by counts_before entries,
        length (
            sorted_set (map (λ (m : EnvironmentMatch). m.cve_id) (filter (is_wanted states) rows))),
      ))
      e
