-- ===== src/Rampart/Examples.antt =====
-- The theorems on the environment at concrete tables, and runs of the repository.
use asber.Base.{
  Bool, List, Text, [], arith, filter, if◌then◌else◌, is_empty, not, one_of, refl, some,
  starts_with, text_eq, ℕ, ◌&&◌, ◌||◌, ◌∷◌, ◌≡◌, sorted_set, length, map, ◌+◌,
}
use asber.Rampart.Handlers.Orphans.{serve_leaves_no_orphans, HasNoOrphans}
use asber.Rampart.Repository.{
  candidate_ids, products_of, is_match_of, get_asset, recompute_asset, recompute_cve, count_assets,
  write_matches, owns_asset, is_match_on, result_for, results_for, matches_on, numbered,
}
use asber.Rampart.Handlers.Limit.{serve_keeps_limit, IsWithinLimit}
use asber.Rampart.Handlers.{patch, post, Request, serve, remove}
use asber.Rampart.Repository.Keys.{unnumbered}
use asber.Rampart.Repository.Fresh.{
  recompute_asset_is_fresh, stored, recompute_cve_is_fresh, verdicts,
}
use asber.Matching.Asset.{match_asset, normalise, same_product}
use asber.Rampart.Samples.{server, ann, underscored, server_fields, known, bob, spaced}

-- `LIKE '%needle%'` for a needle without wildcards.
abbrev contains : Text → Text → Bool
contains needle [] = is_empty needle
contains needle (c ∷ s) = starts_with (c ∷ s) needle || contains needle s

abbrev requests : List (ℕ × Text × Request)
requests = (5, bob, post server_fields) ∷ (6, bob, patch 0 server_fields) ∷ (7, bob, remove 0) ∷ []

spaced-IsWithinLimit : IsWithinLimit spaced
unfolding count_assets
spaced-IsWithinLimit o = ground arith

serve_keeps_limit_example : IsWithinLimit (serve contains requests spaced)
serve_keeps_limit_example = serve_keeps_limit contains requests spaced spaced-IsWithinLimit

serve_leaves_no_orphans_example : HasNoOrphans (serve contains requests spaced)
serve_leaves_no_orphans_example = serve_leaves_no_orphans contains requests spaced tt

recompute_cve_is_fresh_example :
    (filter (is_match_on ann known.cve_id) (recompute_cve 9 spaced ann known.cve_id).1.matches
      ≡ numbered 0 (
          verdicts ann 9 known.cve_id
            (products_of spaced known.cve_id)
            known
            (filter (owns_asset ann) spaced.assets)))
    × (filter
          (λ m. not (is_match_on ann known.cve_id m))
          (recompute_cve 9 spaced ann known.cve_id).1.matches
        ≡ filter (λ m. not (is_match_on ann known.cve_id m)) spaced.matches)
    × ((recompute_cve 9 spaced ann known.cve_id).1 ≡ record spaced {
      matches = (recompute_cve 9 spaced ann known.cve_id).1.matches;
      next_match = 0 + (recompute_cve 9 spaced ann known.cve_id).0;
    })
    × ((recompute_cve 9 spaced ann known.cve_id).0
        ≡ length (
            verdicts ann 9 known.cve_id
              (products_of spaced known.cve_id)
              known
              (filter (owns_asset ann) spaced.assets)))
recompute_cve_is_fresh_example = recompute_cve_is_fresh 9 spaced ann known.cve_id known refl refl

server_found : get_asset underscored ann 0 ≡ some server
unfolding get_asset
server_found = refl

recompute_asset_is_fresh_example :
    map unnumbered (
      filter
        (λ m. is_match_of ann 0 m && text_eq m.cve_id known.cve_id)
        (recompute_asset contains 9 underscored ann 0).1.matches)
    ≡ (if one_of known.cve_id (candidate_ids contains underscored server)
        then stored ann server 9 known.cve_id (result_for underscored server known.cve_id)
        else [])
recompute_asset_is_fresh_example =
    recompute_asset_is_fresh contains 9 underscored ann 0 server known.cve_id server_found

-- The two recomputations disagree where a product is written with underscores: the search by name
-- does not find it, and the comparison does.
underscored_is_hidden : candidate_ids contains underscored server ≡ []
unfolding candidate_ids normalise starts_with sorted_set
underscored_is_hidden = refl

underscored_is_recomputed : (recompute_asset contains 9 underscored ann 0).0 ≡ 0
unfolding recompute_asset results_for candidate_ids normalise starts_with sorted_set
underscored_is_recomputed = refl

underscored_is_matched : (recompute_cve 9 underscored ann known.cve_id).0 ≡ 1
unfolding recompute_cve matches_on write_matches match_asset same_product normalise
underscored_is_matched = refl
