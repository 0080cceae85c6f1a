-- ===== src/Scoring/Examples.antt =====
-- The scoring theorems at a concrete input, and a run.
use mathlib.Core.List.{Perm}
use asber.Base.{All, [], arith, codes, false, min, refl, some, sum_by, true, ◌∷◌, ◌≡◌, ◌≤◌}
use asber.Scoring.{
  ScoreInput, compute_relevance, collect, cvss_reasons, exploitation_reasons, impact_reasons,
  points_of, product_reasons, recency_reasons, round_tenths, source_reasons,
}
use asber.Scoring.Points.{relevance_points}
use asber.Scoring.Sorting.{Descending, HasPoints}
use asber.Scoring.Monotone.{score_is_monotone, Covers}
use asber.Scoring.Explained.{relevance_is_explained}

abbrev quiet : ScoreInput
quiet = record {
  in_kev = false;
  active_exploitation_evidence = [];
  ransomware = false;
  exploit_count = 1;
  poc_count = 0;
  ssvc_poc = true;
  threat_actors = [];
  tags = codes "rce" ∷ [];
  internet_facing = true;
  cvss_score = some 98;
  independent_sources = 2;
  most_recent_signal = some 1000000;
  affected_product_count = 6;
}

abbrev loud : ScoreInput
loud = record quiet { in_kev = true; active_exploitation_evidence = codes "CISA KEV" ∷ [] }

-- Twelve, eight, eight, six, 9.8, three, four and three points.
quiet_score : (compute_relevance quiet 2000000).score ≡ 54
unfolding compute_relevance exploitation_reasons impact_reasons cvss_reasons source_reasons
    recency_reasons product_reasons
quiet_score = refl

relevance_is_explained_example :
    (sum_by points_of (compute_relevance loud 2000000).reasons ≡ relevance_points loud 2000000)
    × ((compute_relevance loud 2000000).score
        ≡ round_tenths (min 1000 (relevance_points loud 2000000)))
    × Perm (compute_relevance loud 2000000).reasons (collect loud 2000000)
    × Descending (compute_relevance loud 2000000).reasons
    × All HasPoints (compute_relevance loud 2000000).reasons
relevance_is_explained_example = relevance_is_explained loud 2000000

quiet-Covers : Covers quiet loud
quiet-Covers = record {
  kev = λ e. refl;
  evidence = λ e. refl;
  ransom = λ e. e;
  exploits = omega arith;
  pocs = omega arith;
  ssvc = λ e. e;
  actors = λ e. e;
  tagged = λ t e. e;
  facing = λ e. e;
  cvss = omega arith;
  sources = omega arith;
  signal = omega arith;
  products = omega arith;
}

score_is_monotone_example :
    ((compute_relevance quiet 2000000).score ≤ (compute_relevance loud 1900000).score)
    × ((compute_relevance loud 1900000).score ≤ 100)
score_is_monotone_example = score_is_monotone quiet loud 2000000 1900000 quiet-Covers (omega arith)
