-- ===== src/Scoring.antt =====
-- backend/app/services/scoring.py: `compute_relevance`. Points and CVSS scores are tenths, as the
-- code rounds the points to one decimal; a score of x tenths adds x/10 * 10 = x tenths. Of the
-- floats of the code only the CVSS points have a fraction, so its sums are exact in tenths.
pub mod Points
pub mod Sorting
pub mod Explained
pub mod Monotone
mod Examples
use asber.Base.{
  Bool, List, Option, Text, [], codes, decimal, if◌then◌else◌, is_empty, join, leb, ltb, min, none,
  not, one_of, some, sorted_set, sum_by, take, ℕ, ◌%◌, ◌*◌, ◌++◌, ◌+◌, ◌-◌, ◌/◌, ◌==◌, ◌||◌, ◌∷◌,
}
use asber.Models.{Reason}

pub record ScoreInput : Type 0 where
  pub in_kev : Bool
  pub active_exploitation_evidence : List Text
  pub ransomware : Bool
  pub exploit_count : ℕ
  pub poc_count : ℕ
  pub ssvc_poc : Bool
  pub threat_actors : List Text
  pub tags : List Text
  pub internet_facing : Bool
  pub cvss_score : Option ℕ
  pub independent_sources : ℕ
  pub most_recent_signal : Option ℕ
  pub affected_product_count : ℕ

pub record ScoreResult : Type 0 where
  pub score : ℕ
  pub reasons : List Reason

-- The helper `add`: a reason is recorded only if it has points.
unfoldable pub add : Text → ℕ → Text → List Reason
add factor points detail =
    if ltb 0 points then record { factor = factor; points = points; detail = detail } ∷ [] else []

-- `if condition: add(…)`
abbrev pub add_if : Bool → Text → ℕ → Text → List Reason
add_if condition factor points detail = if condition then add factor points detail else []

-- `", ".join(sorted(set(names))[:5])`
unfoldable pub first_names : List Text → Text
unfolding join sorted_set
first_names names = join (codes ", ") (take 5 (sorted_set names))

-- A float with one decimal, as Python prints it.
unfoldable pub tenths_text : ℕ → Text
unfolding decimal
tenths_text t = decimal (t / 10) ++ codes "." ++ decimal (t % 10)

unfoldable pub poc_detail : ScoreInput → Text
unfolding join decimal
poc_detail inp = join (codes "; ") (
    (if ltb 0 inp.poc_count
      then (decimal inp.poc_count ++ codes " public PoC repo(s) (unverified)") ∷ []
      else [])
    ++ (if inp.ssvc_poc then codes "CISA SSVC reports public PoC" ∷ [] else []))

-- `(now - sig).days`; where the signal is later than `now` the code has a negative number, which
-- it treats as this 0.
unfoldable pub age_days : ℕ → ℕ → ℕ
age_days now signal = (now - signal) / 86400

unfoldable pub exploitation_reasons : ScoreInput → List Reason
unfolding add first_names decimal poc_detail
exploitation_reasons inp =
    add_if inp.in_kev (codes "CISA KEV") 250
      (codes "Listed in the CISA Known Exploited Vulnerabilities catalog")
    ++ add_if (not (is_empty inp.active_exploitation_evidence)) (codes "Active exploitation") 150
        (codes "Exploitation reported by: " ++ first_names inp.active_exploitation_evidence)
    ++ add_if inp.ransomware (codes "Ransomware association") 100
        (codes "Known or reported use in ransomware campaigns")
    ++ add_if (ltb 0 inp.exploit_count) (codes "Public exploit") 120
        (decimal inp.exploit_count ++ codes " public exploit(s) (e.g. Exploit-DB)")
    ++ add_if (ltb 0 inp.poc_count || inp.ssvc_poc) (codes "Public PoC") 80 (poc_detail inp)
    ++ add_if (not (is_empty inp.threat_actors)) (codes "Threat actor association") 80
        (codes "Mentioned alongside: " ++ first_names inp.threat_actors)

unfoldable pub impact_reasons : ScoreInput → List Reason
unfolding add
impact_reasons inp =
    add_if (one_of (codes "rce") inp.tags) (codes "Remote code execution") 80
      (codes "Impact classified as RCE (description/CWE)")
    ++ add_if (one_of (codes "auth_bypass") inp.tags) (codes "Authentication bypass") 70
        (codes "Impact classified as authentication bypass")
    ++ add_if (one_of (codes "privilege_escalation") inp.tags) (codes "Privilege escalation") 50
        (codes "Impact classified as privilege escalation")
    ++ add_if inp.internet_facing (codes "Internet-facing product") 60
        (codes "Affected product is typically Internet-exposed")

unfoldable pub cvss_reasons : Option ℕ → List Reason
unfolding add tenths_text
cvss_reasons none = []
cvss_reasons (some t) =
    add_if (ltb 0 t) (codes "CVSS severity") t (codes "CVSS base score " ++ tenths_text t)

unfoldable pub source_reasons : ℕ → List Reason
unfolding add decimal
source_reasons n =
    add_if (ltb 1 n) (codes "Multiple independent sources") (min 90 ((n - 1) * 30))
      (decimal n ++ codes " independent sources")

unfoldable pub recency_reasons : ℕ → Option ℕ → List Reason
unfolding add decimal age_days
recency_reasons now none = []
recency_reasons now (some signal) =
    let age = age_days now signal in
    if leb age 7
    then add (codes "Recency") 80 (codes "New activity " ++ decimal age ++ codes " day(s) ago")
    else if leb age 30
    then add (codes "Recency") 40 (codes "New activity " ++ decimal age ++ codes " days ago")
    else []

unfoldable pub product_reasons : ℕ → List Reason
unfolding add decimal
product_reasons n =
    let detail = decimal n ++ codes " affected product entries" in
    if leb 20 n
    then add (codes "Broad impact") 50 detail
    else if leb 5 n
    then add (codes "Broad impact") 30 detail
    else []

-- The reasons in the order in which the code adds them.
unfoldable pub collect : ScoreInput → ℕ → List Reason
collect inp now =
    exploitation_reasons inp
    ++ impact_reasons inp
    ++ cvss_reasons inp.cvss_score
    ++ source_reasons inp.independent_sources
    ++ recency_reasons now inp.most_recent_signal
    ++ product_reasons inp.affected_product_count

-- `reasons.sort(key=lambda r: -r["points"])`, which is stable.
unfoldable pub insert_reason : Reason → List Reason → List Reason
insert_reason r [] = r ∷ []
insert_reason r (x ∷ xs) =
    let rest = insert_reason r xs in if leb x.points r.points then r ∷ x ∷ xs else x ∷ rest

unfoldable pub sort_reasons : List Reason → List Reason
unfolding insert_reason
sort_reasons [] = []
sort_reasons (r ∷ rs) = insert_reason r (sort_reasons rs)

-- `round` of a number of tenths: to the nearest integer, a half to the even one.
unfoldable pub round_tenths : ℕ → ℕ
round_tenths t =
    if ltb (t % 10) 5
    then t / 10
    else if ltb 5 (t % 10)
    then t / 10 + 1
    else if t / 10 % 2 == 0
    then t / 10
    else t / 10 + 1

abbrev pub points_of : Reason → ℕ
points_of r = r.points

unfoldable pub compute_relevance : ScoreInput → ℕ → ScoreResult
unfolding collect sort_reasons round_tenths
compute_relevance inp now =
    let reasons = sort_reasons (collect inp now) in
    record { score = round_tenths (min 1000 (sum_by points_of reasons)); reasons = reasons }
