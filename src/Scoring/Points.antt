-- ===== src/Scoring/Points.antt =====
-- The score as one sum, and the reasons as its explanation.
use asber.Base.{
  Bool, List, Option, Text, [], ap, arith, codes, false, if◌then◌else◌, is_empty, leb, ltb, min,
  none, not, one_of, refl, some, sum_by, sum_by-append, true, ℕ, ◌*◌, ◌+◌, ◌-◌, ◌||◌, ◌∙◌, ◌∷◌, ◌≡◌,
}
use asber.Models.{Reason}
use asber.Scoring.{
  ScoreInput, compute_relevance, add, add_if, age_days, collect, cvss_reasons, exploitation_reasons,
  impact_reasons, insert_reason, points_of, product_reasons, recency_reasons, round_tenths,
  sort_reasons, source_reasons,
}

abbrev pub when : Bool → ℕ → ℕ
when b n = if b then n else 0

abbrev pub recency_points : ℕ → Option ℕ → ℕ
recency_points now none = 0
recency_points now (some signal) =
    if ltb now (signal + 8 * 86400) then 80 else when (ltb now (signal + 31 * 86400)) 40

abbrev pub cvss_points : Option ℕ → ℕ
cvss_points none = 0
cvss_points (some t) = t

abbrev pub exploitation_points : ScoreInput → ℕ
exploitation_points inp =
    when inp.in_kev 250
    + when (not (is_empty inp.active_exploitation_evidence)) 150
    + when inp.ransomware 100
    + when (ltb 0 inp.exploit_count) 120
    + when (ltb 0 inp.poc_count || inp.ssvc_poc) 80
    + when (not (is_empty inp.threat_actors)) 80

abbrev pub impact_points : ScoreInput → ℕ
impact_points inp =
    when (one_of (codes "rce") inp.tags) 80
    + when (one_of (codes "auth_bypass") inp.tags) 70
    + when (one_of (codes "privilege_escalation") inp.tags) 50
    + when inp.internet_facing 60

-- The weights of the module, summed, in tenths of a point.
abbrev pub relevance_points : ScoreInput → ℕ → ℕ
relevance_points inp now =
    exploitation_points inp
    + impact_points inp
    + cvss_points inp.cvss_score
    + min 90 ((inp.independent_sources - 1) * 30)
    + recency_points now inp.most_recent_signal
    + when (leb 5 inp.affected_product_count) 30
    + when (leb 20 inp.affected_product_count) 20

sum-insert_reason :
    (r : Reason) (rs : List Reason)
    → sum_by points_of (insert_reason r rs) ≡ r.points + sum_by points_of rs
unfolding insert_reason
sum-insert_reason r [] = refl
sum-insert_reason r (x ∷ xs) = ground (arith, sum-insert_reason r xs)

sum-sort_reasons : (rs : List Reason) → sum_by points_of (sort_reasons rs) ≡ sum_by points_of rs
unfolding sort_reasons
sum-sort_reasons [] = refl
sum-sort_reasons (r ∷ rs) =
    omega (arith, sum-insert_reason r (sort_reasons rs), sum-sort_reasons rs)

sum-add_if :
    (b : Bool) (factor detail : Text) (n : ℕ)
    → sum_by points_of (add_if b factor n detail) ≡ when b n
unfolding add
sum-add_if true factor detail n = ground arith
sum-add_if false factor detail n = refl

ruleset sums = (sum_by-append, sum-add_if)

sum-exploitation :
    (inp : ScoreInput) → sum_by points_of (exploitation_reasons inp) ≡ exploitation_points inp
unfolding exploitation_reasons
sum-exploitation inp = simp sums

sum-impact : (inp : ScoreInput) → sum_by points_of (impact_reasons inp) ≡ impact_points inp
unfolding impact_reasons
sum-impact inp = simp sums

sum-cvss : (o : Option ℕ) → sum_by points_of (cvss_reasons o) ≡ cvss_points o
unfolding cvss_reasons
sum-cvss none = refl
sum-cvss (some t) = rw sum-add_if (ground arith)

sum-source : (n : ℕ) → sum_by points_of (source_reasons n) ≡ min 90 ((n - 1) * 30)
unfolding source_reasons
sum-source n = rw sum-add_if (ground arith)

sum-recency :
    (now : ℕ) (o : Option ℕ) → sum_by points_of (recency_reasons now o) ≡ recency_points now o
unfolding recency_reasons age_days add
sum-recency now none = refl
sum-recency now (some signal) = ground arith

sum-product :
    (n : ℕ) → sum_by points_of (product_reasons n) ≡ when (leb 5 n) 30 + when (leb 20 n) 20
unfolding product_reasons add
sum-product n = ground arith

sum-collect :
    (inp : ScoreInput) (now : ℕ) → sum_by points_of (collect inp now) ≡ relevance_points inp now
unfolding collect
sum-collect inp now =
    simp (sums, sum-exploitation, sum-impact, sum-cvss, sum-source, sum-recency, sum-product)
      (omega arith)

-- The points of the returned reasons add up to the sum of the weights whose conditions hold, and
-- the score is that sum, capped at 100 points and rounded.
pub score_is_explained :
    (inp : ScoreInput) (now : ℕ)
    → (sum_by points_of (compute_relevance inp now).reasons ≡ relevance_points inp now)
      × ((compute_relevance inp now).score ≡ round_tenths (min 1000 (relevance_points inp now)))
unfolding compute_relevance
score_is_explained inp now =
    let e = sum-sort_reasons (collect inp now) ∙ sum-collect inp now in
    (e, ap (λ t. round_tenths (min 1000 t)) e)
