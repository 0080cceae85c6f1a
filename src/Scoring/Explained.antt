-- ===== src/Scoring/Explained.antt =====
-- What the reasons of a score say.
use mathlib.Core.List.{Perm}
use asber.Base.{All, min, sum_by, ℕ, ◌≡◌}
use asber.Scoring.{compute_relevance, ScoreInput, collect, round_tenths, points_of}
use asber.Scoring.Points.{score_is_explained, relevance_points}
use asber.Scoring.Sorting.{Descending, HasPoints, reasons_are_sorted}

-- The points of the returned reasons add up to the sum of the weights whose conditions hold, and
-- the score is that sum, capped at 100 points and rounded. The returned reasons are the collected
-- ones in another order: their points do not rise from one to the next, and each has more than
-- zero points.
pub relevance_is_explained :
    (inp : ScoreInput) (now : ℕ)
    → let result = compute_relevance inp now in
      (sum_by points_of result.reasons ≡ relevance_points inp now)
      × (result.score ≡ round_tenths (min 1000 (relevance_points inp now)))
      × Perm result.reasons (collect inp now)
      × Descending result.reasons
      × All HasPoints result.reasons
relevance_is_explained inp now =
    let sums = score_is_explained inp now in
    let order = reasons_are_sorted inp now in (sums.0, sums.1, order.0, order.1, order.2)
