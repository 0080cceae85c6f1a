-- ===== src/Scoring/Monotone.antt =====
-- More evidence, or an earlier look at it, never lowers the score.
use asber.Base.{
  Bool, Option, Text, arith, is_empty, leb, ltb, min, none, not, one_of, some, true, ℕ, ◌||◌, ◌≡◌,
  ◌≤◌, codes,
}
use asber.Scoring.{ScoreInput, compute_relevance, round_tenths}
use asber.Scoring.Points.{
  score_is_explained, cvss_points, recency_points, relevance_points, when, exploitation_points,
  impact_points,
}

abbrev pub AtMostOption : Option ℕ → Option ℕ → Type 0
AtMostOption none o = Unit {0}
AtMostOption (some a) none = ⊥
AtMostOption (some a) (some b) = a ≤ b

-- `y` has all the evidence that `x` has.
pub record Covers (x y : ScoreInput) : Type 0 where
  pub kev : x.in_kev ≡ true → y.in_kev ≡ true
  pub evidence :
      is_empty y.active_exploitation_evidence ≡ true
      → is_empty x.active_exploitation_evidence ≡ true
  pub ransom : x.ransomware ≡ true → y.ransomware ≡ true
  pub exploits : x.exploit_count ≤ y.exploit_count
  pub pocs : x.poc_count ≤ y.poc_count
  pub ssvc : x.ssvc_poc ≡ true → y.ssvc_poc ≡ true
  pub actors : is_empty y.threat_actors ≡ true → is_empty x.threat_actors ≡ true
  pub tagged : (t : Text) → one_of t x.tags ≡ true → one_of t y.tags ≡ true
  pub facing : x.internet_facing ≡ true → y.internet_facing ≡ true
  pub cvss : AtMostOption x.cvss_score y.cvss_score
  pub sources : x.independent_sources ≤ y.independent_sources
  pub signal : AtMostOption x.most_recent_signal y.most_recent_signal
  pub products : x.affected_product_count ≤ y.affected_product_count

when_mono : (b c : Bool) (n : ℕ) → (b ≡ true → c ≡ true) → when b n ≤ when c n
when_mono b c n h = ground arith

when_mono_not : (b c : Bool) (n : ℕ) → (c ≡ true → b ≡ true) → when (not b) n ≤ when (not c) n
when_mono_not b c n h = ground arith

cvss_mono : (o o' : Option ℕ) → AtMostOption o o' → cvss_points o ≤ cvss_points o'
cvss_mono o o' h = ground arith

recency_mono :
    (now now' : ℕ) (o o' : Option ℕ)
    → now' ≤ now
    → AtMostOption o o'
    → recency_points now o ≤ recency_points now' o'
recency_mono now now' o o' p h = ground arith

round_mono : (a b : ℕ) → a ≤ b → round_tenths a ≤ round_tenths b
unfolding round_tenths
round_mono a b h = ground arith

pub round_cap : (a : ℕ) → round_tenths (min 1000 a) ≤ 100
unfolding round_tenths
round_cap a = ground arith

exploitation_mono : (x y : ScoreInput) → Covers x y → exploitation_points x ≤ exploitation_points y
exploitation_mono x y h = omega (
  arith,
  when_mono x.in_kev y.in_kev 250 h.kev,
  when_mono_not (is_empty x.active_exploitation_evidence) (is_empty y.active_exploitation_evidence)
      150 h.evidence,
  when_mono x.ransomware y.ransomware 100 h.ransom,
  when_mono (ltb 0 x.exploit_count) (ltb 0 y.exploit_count) 120 (λ e. counted e h.exploits),
  when_mono (ltb 0 x.poc_count || x.ssvc_poc) (ltb 0 y.poc_count || y.ssvc_poc) 80
      (λ e. published e h.pocs h.ssvc),
  when_mono_not (is_empty x.threat_actors) (is_empty y.threat_actors) 80 h.actors,
)
  where
    counted : {a b : ℕ} → ltb 0 a ≡ true → a ≤ b → ltb 0 b ≡ true
    counted e p = ground arith

    published :
        {a b : ℕ} {s t : Bool}
        → (ltb 0 a || s) ≡ true
        → a ≤ b
        → (s ≡ true → t ≡ true)
        → (ltb 0 b || t) ≡ true
    published e p q = ground arith

impact_mono : (x y : ScoreInput) → Covers x y → impact_points x ≤ impact_points y
impact_mono x y h = omega (
  arith,
  when_mono (one_of (codes "rce") x.tags) (one_of (codes "rce") y.tags) 80 (h.tagged (codes "rce")),
  when_mono (one_of (codes "auth_bypass") x.tags) (one_of (codes "auth_bypass") y.tags) 70
      (h.tagged (codes "auth_bypass")),
  when_mono (one_of (codes "privilege_escalation") x.tags)
      (one_of (codes "privilege_escalation") y.tags) 50 (h.tagged (codes "privilege_escalation")),
  when_mono x.internet_facing y.internet_facing 60 h.facing,
)

count_mono : (k n m w : ℕ) → n ≤ m → when (leb k n) w ≤ when (leb k m) w
count_mono k n m w h = ground arith

points_mono :
    (x y : ScoreInput) (now now' : ℕ)
    → Covers x y
    → now' ≤ now
    → relevance_points x now ≤ relevance_points y now'
points_mono x y now now' h p = omega (
  arith,
  exploitation_mono x y h,
  impact_mono x y h,
  cvss_mono x.cvss_score y.cvss_score h.cvss,
  recency_mono now now' x.most_recent_signal y.most_recent_signal p h.signal,
  count_mono 5 x.affected_product_count y.affected_product_count 30 h.products,
  count_mono 20 x.affected_product_count y.affected_product_count 20 h.products,
  h.sources,
)

-- An input with all the evidence of another one, scored no later, has no lower score; and no score
-- is above 100.
pub score_is_monotone :
    (x y : ScoreInput) (now now' : ℕ)
    → Covers x y
    → now' ≤ now
    → ((compute_relevance x now).score ≤ (compute_relevance y now').score)
      × ((compute_relevance y now').score ≤ 100)
score_is_monotone x y now now' h p =
    rw ((score_is_explained x now).1, (score_is_explained y now').1)
      (
        round_mono _ _ (omega (arith, points_mono x y now now' h p)),
        round_cap (relevance_points y now'),
      )
