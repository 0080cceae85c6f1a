-- ===== src/Normalize/Severity.antt =====
-- The CVSS severity of normalize.py, which is not clipped to the length of its column.
use asber.Base.{
  ℕ, inl, inr, Bool-cases, ◌⊎◌, suc, ◌≡◌, refl, ap, Option, none, some, List, [], ◌∷◌, length, ltb,
  if◌then◌else◌, arith, Text, Bool, true, false, any, upper, ◌||◌,
}
use asber.Normalize.{
  Metric, pick_cvss, least_metric, cvss_of, upper_severity, or_next, rank_before, cvss_rank,
}
use asber.Normalize.Products.{Within}
use asber.Correlation.Merge.{is_absent}

abbrev pub has_length : Option Text → ℕ → Bool
has_length none n = false
has_length (some t) n = ltb n (length t)

-- A severity of more than the 16 characters of its column, in a list of metrics.
abbrev pub is_long_severity : Metric → Bool
is_long_severity m = has_length m.data_severity 16 || has_length m.entry_severity 16

abbrev pub has_long_severity : List (List Metric) → Bool
has_long_severity metrics = any (any is_long_severity) metrics

length-upper : (s : Text) → length (upper s) ≡ length s
unfolding upper
length-upper [] = refl
length-upper (c ∷ s) = ap suc (length-upper s)

upper_severity-Within : (o : Option Text) → has_length o 16 ≡ false → Within 16 (upper_severity o)
unfolding upper_severity
upper_severity-Within none h = tt
upper_severity-Within (some []) h = tt
upper_severity-Within (some (c ∷ s)) h = let e = length-upper (c ∷ s) in ground (arith, e)

least-is_short :
    (best : Metric) (entries : List Metric)
    → is_long_severity best ≡ false
    → any is_long_severity entries ≡ false
    → is_long_severity (least_metric best entries) ≡ false
unfolding least_metric
least-is_short best [] h k = h
least-is_short best (e ∷ entries) h k =
    least-is_short (if rank_before (cvss_rank e) (cvss_rank best) then e else best) entries
      (either (rank_before (cvss_rank e) (cvss_rank best))) (ground arith)
  where
    either : (b : Bool) → is_long_severity (if b then e else best) ≡ false
    either true = ground arith
    either false = h

metric-Within :
    (m : Metric)
    → is_long_severity m ≡ false
    → Within 16 (upper_severity (or_next m.data_severity m.entry_severity))
metric-Within m h = elim (Bool-cases (is_absent m.data_severity)) [
  | inl e ↦ rw e (upper_severity-Within m.entry_severity (ground arith))
  | inr e ↦ rw e (upper_severity-Within m.data_severity (ground arith))
]

severity-Within :
    (metrics : List (List Metric))
    → has_long_severity metrics ≡ false
    → Within 16 (pick_cvss metrics).severity
unfolding pick_cvss cvss_of
severity-Within [] h = tt
severity-Within ([] ∷ metrics) h = severity-Within metrics h
severity-Within ((e ∷ entries) ∷ metrics) h =
    metric-Within (least_metric e entries) (least-is_short e entries (ground arith) (ground arith))

pub severity_fits :
    (metrics : List (List Metric))
    → (has_long_severity metrics ≡ true) ⊎ Within 16 (pick_cvss metrics).severity
severity_fits metrics = elim (Bool-cases (has_long_severity metrics)) [
  | inl e ↦ inl e
  | inr e ↦ inr (severity-Within metrics e)
]
