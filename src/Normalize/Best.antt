-- ===== src/Normalize/Best.antt =====
-- Which score of a CVE is picked.
use mathlib.Core.Path.{subst}
use asber.Base.{
  Any, Bool, Bool-cases, List, [], any, arith, codes, inl, inr, not, refl, ◌&&◌, ◌||◌, ◌∙◌, ◌∷◌,
  ◌≡◌, replicate, suc, sym, zero, ℕ, ◌++◌, ap, false, true,
}
use asber.Normalize.{
  cvss_rank, Metric, is_text, least_metric, nvd_source_name, rank_before, cvss_of, pick_cvss,
}

abbrev pub is_nvd : Metric → Bool
is_nvd e = is_text nvd_source_name e.source

abbrev pub is_primary : Metric → Bool
is_primary e = is_text (codes "Primary") e.kind

-- An entry that no other of the list is to be preferred to: NVD's own come first, and among
-- entries alike in that, the primary ones.
abbrev pub IsBest : Metric → List Metric → Type 0
IsBest best entries =
    Any (λ e. e ≡ best) entries
    × (is_nvd best ≡ any is_nvd entries)
    × (is_primary best ≡ any (λ e. is_primary e && (not (is_nvd best) || is_nvd e)) entries)

least_metric-Any :
    (best : Metric) (entries : List Metric)
    → Any (λ e. e ≡ least_metric best entries) (best ∷ entries)
unfolding least_metric
least_metric-Any best [] = inl refl
least_metric-Any best (e ∷ entries) =
    elim (Bool-cases (rank_before (cvss_rank e) (cvss_rank best))) [
      | inl h ↦
          let q : least_metric best (e ∷ entries) ≡ least_metric e entries = rw h refl in
          subst (λ m. Any (λ x. x ≡ m) (best ∷ e ∷ entries)) (sym q)
            (inr (least_metric-Any e entries))
      | inr h ↦
          let q : least_metric best (e ∷ entries) ≡ least_metric best entries = rw h refl in
          subst (λ m. Any (λ x. x ≡ m) (best ∷ e ∷ entries)) (sym q)
            (go (least_metric best entries) (least_metric-Any best entries))
    ]
  where
    go : (m : Metric) → Any (λ x. x ≡ m) (best ∷ entries) → Any (λ x. x ≡ m) (best ∷ e ∷ entries)
    go m (inl p) = inl p
    go m (inr p) = inr (inr p)

least_metric-is_nvd :
    (best : Metric) (entries : List Metric)
    → is_nvd (least_metric best entries) ≡ any is_nvd (best ∷ entries)
unfolding least_metric cvss_rank
least_metric-is_nvd best [] = ground arith
least_metric-is_nvd best (e ∷ entries) =
    elim (Bool-cases (rank_before (cvss_rank e) (cvss_rank best))) [
      | inl h ↦
          let q : least_metric best (e ∷ entries) ≡ least_metric e entries = rw h refl in
          ap is_nvd q ∙ least_metric-is_nvd e entries ∙ ground arith
      | inr h ↦
          let q : least_metric best (e ∷ entries) ≡ least_metric best entries = rw h refl in
          ap is_nvd q ∙ least_metric-is_nvd best entries ∙ ground arith
    ]

abbrev rivals : Metric → List Metric → Bool
rivals best entries = any (λ e. is_primary e && (not (is_nvd best) || is_nvd e)) entries

rivals-better :
    (m best e : Metric) (entries : List Metric)
    → rank_before (cvss_rank e) (cvss_rank best) ≡ true
    → is_nvd m ≡ any is_nvd (e ∷ entries)
    → is_primary m ≡ rivals m (e ∷ entries)
    → is_primary m ≡ rivals m (best ∷ e ∷ entries)
unfolding cvss_rank
rivals-better m best e entries h n k = k ∙ ground arith

rivals-worse :
    (m best e : Metric) (entries : List Metric)
    → rank_before (cvss_rank e) (cvss_rank best) ≡ false
    → is_nvd m ≡ any is_nvd (best ∷ entries)
    → is_primary m ≡ rivals m (best ∷ entries)
    → is_primary m ≡ rivals m (best ∷ e ∷ entries)
unfolding cvss_rank
rivals-worse m best e entries h n k = k ∙ ground arith

least_metric-is_primary :
    (best : Metric) (entries : List Metric)
    → is_primary (least_metric best entries) ≡ rivals (least_metric best entries) (best ∷ entries)
unfolding least_metric
least_metric-is_primary best [] = ground arith
least_metric-is_primary best (e ∷ entries) =
    elim (Bool-cases (rank_before (cvss_rank e) (cvss_rank best))) [
      | inl h ↦
          let q : least_metric best (e ∷ entries) ≡ least_metric e entries = rw h refl in
          subst (λ m. is_primary m ≡ rivals m (best ∷ e ∷ entries)) (sym q)
            (rivals-better (least_metric e entries) best e entries h (least_metric-is_nvd e entries)
              (least_metric-is_primary e entries))
      | inr h ↦
          let q : least_metric best (e ∷ entries) ≡ least_metric best entries = rw h refl in
          subst (λ m. is_primary m ≡ rivals m (best ∷ e ∷ entries)) (sym q)
            (rivals-worse (least_metric best entries) best e entries h
              (least_metric-is_nvd best entries) (least_metric-is_primary best entries))
    ]

-- From the metrics by version, the newest first, the score comes from the newest version that has
-- entries, and from the best of them: an entry of NVD if there is one, and then a primary one, if
-- there is one among those alike in that.
pub pick_cvss-IsBest :
    (n : ℕ) (e : Metric) (entries : List Metric) (older : List (List Metric))
    → (best : Metric) × (pick_cvss (replicate n [] ++ ((e ∷ entries) ∷ older)) ≡ cvss_of best)
      × IsBest best (e ∷ entries)
unfolding pick_cvss
pick_cvss-IsBest zero e entries older = (
  least_metric e entries,
  refl,
  (least_metric-Any e entries, least_metric-is_nvd e entries, least_metric-is_primary e entries),
)
pick_cvss-IsBest (suc n) e entries older = pick_cvss-IsBest n e entries older
