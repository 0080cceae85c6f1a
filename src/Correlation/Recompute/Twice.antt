-- ===== src/Correlation/Recompute/Twice.antt =====
-- Recomputing a CVE again.
use mathlib.Core.Path.{ap₂, subst}
use mathlib.Core.List.{append-nil, map-append}
use asber.Base.{
  All, All-map, Bool, List, Text, ap, filter, filter-append, filter_absorb, filter_none, not, refl,
  some, true, ℕ, ◌++◌, ◌∙◌, ◌≡◌, Bool-cases, Option-cases, find, inl, inr, is_empty, [], any, arith,
  if◌then◌else◌, map, ◌∷◌, find-some, sym, length, ◌+◌,
}
use asber.Models.{Vulnerability}
use asber.Rampart.Tables.{Tables, EnvironmentMatch}
use asber.Rampart.Repository.{
  recompute_cve, recompute_on, is_match_on, is_vulnerability, owns_asset, products_of, numbered,
}
use asber.Rampart.Repository.Keys.{unnumbered, unnumbered-numbered, numbered-All}
use asber.Rampart.Repository.Fresh.{verdicts, matches_on-eq-verdicts, verdicts-on}
use asber.Correlation.Recompute.Signals.{
  co_mentioned_attack, links_to, linked_exploits, exploitation_evidence, independent_sources_of,
  signals_of, linked_documents, Corpus,
}
use asber.Correlation.Recompute.Vuln.{
  is_ransomware, recompute_row, recomputed, recompute_vulnerability, recompute_known, store_row,
}
use asber.Correlation.Recompute.Techniques.{heuristic_techniques}
use asber.Rampart.Repository.Keys.{unnumbered-numbered}

-- The tables up to the keys of the matches.
abbrev pub without_keys : Tables → Tables
without_keys db = record db { matches = map unnumbered db.matches; next_match = 0 }

abbrev pub corpus_without_keys : Corpus → Corpus
corpus_without_keys corpus = record corpus { tables = without_keys corpus.tables }

module _ (now : ℕ) (owner cve_id : Text) where
  -- Deleting the rows and writing the same rows with other keys.
  rewrite_twice :
      (p : EnvironmentMatch → Bool) (old written again : List EnvironmentMatch)
      → All (λ m. p m ≡ true) written
      → map unnumbered again ≡ map unnumbered written
      → map unnumbered (filter (λ m. not (p m)) (filter (λ m. not (p m)) old ++ written) ++ again)
        ≡ map unnumbered (filter (λ m. not (p m)) old ++ written)
  rewrite_twice p old written again h e =
      let kept = filter (λ m. not (p m)) old in
      let same_kept : filter (λ m. not (p m)) (kept ++ written) ≡ kept =
        filter-append (λ m. not (p m)) kept written
        ∙ ap₂ (λ xs ys. xs ++ ys) (filter_absorb (λ m. not (p m)) (λ m. not (p m)) old (λ x e. e))
            (filter_none (λ m. not (p m)) written (All-map written (λ x e. ap not e) h))
        ∙ append-nil kept in
      ap (λ l. map unnumbered (l ++ again)) same_kept
      ∙ map-append unnumbered kept again
      ∙ ap (λ l. map unnumbered kept ++ l) e
      ∙ sym (map-append unnumbered kept written)

  recompute_on_twice :
      (db : Tables) (v : Vulnerability)
      → without_keys
          (recompute_on now (recompute_on now db owner cve_id (some v)).1 owner cve_id (some v)).1
        ≡ without_keys (recompute_on now db owner cve_id (some v)).1
  recompute_on_twice db v =
      let as' = filter (owns_asset owner) db.assets in
      let products = products_of db cve_id in
      let rows = verdicts owner now cve_id products v as' in
      let e = matches_on-eq-verdicts owner now cve_id products v as' in
      let p = is_match_on owner cve_id in
      rw e (
        ap (λ ms. record db { matches = ms; next_match = 0 })
          (rewrite_twice p db.matches (numbered db.next_match rows)
            (numbered (db.next_match + length rows) rows)
            (numbered-All p (λ m id. refl) db.next_match rows
              (verdicts-on owner now cve_id products v as'))
            (unnumbered-numbered (db.next_match + length rows) rows
              ∙ sym (unnumbered-numbered db.next_match rows))))

  recompute_cve_twice :
      (db : Tables)
      → without_keys (recompute_cve now (recompute_cve now db owner cve_id).1 owner cve_id).1
        ≡ without_keys (recompute_cve now db owner cve_id).1
  unfolding recompute_cve
  recompute_cve_twice db = elim (Bool-cases (is_empty (filter (owns_asset owner) db.assets))) [
    | inl e ↦ rw e (rw e refl)
    | inr e ↦ elim (Option-cases (find (is_vulnerability cve_id) db.vulnerabilities)) [
      | inl f ↦ rw (e, f) (rw (e, f) refl)
      | inr (v, f) ↦ rw (e, f) (rw (e, f) (recompute_on_twice db v))
    ]
  ]

  -- Only the matches change.
  pub recompute_cve-keeps :
      (db : Tables)
      → (recompute_cve now db owner cve_id).1 ≡ record db {
        matches = (recompute_cve now db owner cve_id).1.matches;
        next_match = (recompute_cve now db owner cve_id).1.next_match;
      }
  unfolding recompute_cve
  recompute_cve-keeps db = elim (Bool-cases (is_empty (filter (owns_asset owner) db.assets))) [
    | inl e ↦ rw e refl
    | inr e ↦ elim (Option-cases (find (is_vulnerability cve_id) db.vulnerabilities)) [
      | inl f ↦ rw (e, f) refl
      | inr (v, f) ↦ rw (e, f) refl
    ]
  ]

  -- The row is computed from what the assignments leave alone.
  recompute_row_twice :
      (search : Text → Text → Bool) (corpus : Corpus) (v : Vulnerability) (vs : List Vulnerability)
      (ms : List EnvironmentMatch) (n : ℕ)
      → recompute_row search now
          (record corpus {
            tables = record corpus.tables { vulnerabilities = vs; matches = ms; next_match = n };
          })
          cve_id
          (recompute_row search now corpus cve_id v)
        ≡ recompute_row search now corpus cve_id v
  unfolding recompute_row recomputed links_to linked_documents linked_exploits co_mentioned_attack
      independent_sources_of exploitation_evidence signals_of is_ransomware heuristic_techniques
  recompute_row_twice search corpus v vs ms n = refl

  abbrev pub replaced : Vulnerability → List Vulnerability → List Vulnerability
  replaced row vs = map (λ w. if is_vulnerability cve_id w then row else w) vs

  replaced_twice :
      (row : Vulnerability) (vs : List Vulnerability)
      → is_vulnerability cve_id row ≡ true
      → replaced row (replaced row vs) ≡ replaced row vs
  replaced_twice row [] h = refl
  replaced_twice row (w ∷ vs) h = ap₂ (λ x xs. x ∷ xs) (replace_one w) (replaced_twice row vs h)
    where
      replace_one :
          (w : Vulnerability)
          → (if is_vulnerability cve_id (if is_vulnerability cve_id w then row else w)
              then row
              else (if is_vulnerability cve_id w then row else w))
            ≡ (if is_vulnerability cve_id w then row else w)
      replace_one w = elim (Bool-cases (is_vulnerability cve_id w)) [
        | inl e ↦ rw (e, h) refl
        | inr e ↦ rw (e, e) refl
      ]

  pub find-replaced :
      (row : Vulnerability) (vs : List Vulnerability)
      → is_vulnerability cve_id row ≡ true
      → any (is_vulnerability cve_id) vs ≡ true
      → find (is_vulnerability cve_id) (replaced row vs) ≡ some row
  find-replaced row [] h k = ground arith
  find-replaced row (w ∷ vs) h k = elim (Bool-cases (is_vulnerability cve_id w)) [
    | inl e ↦ rw (e, h) refl
    | inr e ↦ rw (e, e) (find-replaced row vs h (ground arith))
  ]

  module _ (search : Text → Text → Bool) (corpus : Corpus) where
    pub is_vulnerability-row :
        (v : Vulnerability)
        → is_vulnerability cve_id v ≡ true
        → is_vulnerability cve_id (recompute_row search now corpus cve_id v) ≡ true
    unfolding recompute_row recomputed
    is_vulnerability-row v h = h

    -- The tables in which the CVE's row is `row`, with these matches.
    abbrev settled : Vulnerability → List EnvironmentMatch → ℕ → Tables
    settled row ms n = record corpus.tables {
      vulnerabilities = replaced row corpus.tables.vulnerabilities;
      matches = ms;
      next_match = n;
    }

    settled_again :
        (v : Vulnerability) (ms : List EnvironmentMatch) (n : ℕ)
        → find (is_vulnerability cve_id) corpus.tables.vulnerabilities ≡ some v
        → let db = settled (recompute_row search now corpus cve_id v) ms n in
          without_keys (recompute_cve now db owner cve_id).1 ≡ without_keys db
          → corpus_without_keys
              (recompute_vulnerability search now owner (record corpus { tables = db }) cve_id)
            ≡ corpus_without_keys (record corpus { tables = db })
    unfolding recompute_vulnerability
    settled_again v ms n f h =
        let row = recompute_row search now corpus cve_id v in
        let vs = corpus.tables.vulnerabilities in
        let g = find-some (is_vulnerability cve_id) vs v f in
        let r = is_vulnerability-row v g.0 in
        rw (find-replaced row vs r g.1) (
          ap (λ t. record corpus { tables = t })
            (rw
              (recompute_row_twice search corpus v (replaced row vs) ms n, replaced_twice row vs r)
              h))

    known_twice :
        (v : Vulnerability)
        → find (is_vulnerability cve_id) corpus.tables.vulnerabilities ≡ some v
        → let once = recompute_known search now owner corpus cve_id (some v) in
          corpus_without_keys (recompute_vulnerability search now owner once cve_id)
          ≡ corpus_without_keys once
    known_twice v f =
        let row = recompute_row search now corpus cve_id v in
        let db = store_row search now cve_id row corpus.tables in
        let done = (recompute_cve now db owner cve_id).1 in
        let k : done ≡ settled row done.matches done.next_match = recompute_cve-keeps db in
        subst
          (λ t.
            corpus_without_keys
              (recompute_vulnerability search now owner (record corpus { tables = t }) cve_id)
            ≡ corpus_without_keys (record corpus { tables = t }))
          (sym k)
          (settled_again v done.matches done.next_match f (
            subst (λ t. without_keys (recompute_cve now t owner cve_id).1 ≡ without_keys t) k
              (recompute_cve_twice db)))

-- Recomputing a CVE a second time at the same instant changes nothing, up to the primary keys of the
-- matches and the next of these keys: the CVE's row, with its score, reasons, flags, tags and
-- techniques, every other row of every table, and every other column of every match, in their order,
-- are the same.
pub recompute_vulnerability_twice :
    (search : Text → Text → Bool) (now : ℕ) (owner : Text) (corpus : Corpus) (cve_id : Text)
    → let once = recompute_vulnerability search now owner corpus cve_id in
      corpus_without_keys (recompute_vulnerability search now owner once cve_id)
      ≡ corpus_without_keys once
unfolding recompute_vulnerability
recompute_vulnerability_twice search now owner corpus cve_id =
    elim (Option-cases (find (is_vulnerability cve_id) corpus.tables.vulnerabilities)) [
      | inl f ↦ rw f (rw f refl)
      | inr (v, f) ↦ rw f (known_twice now owner cve_id search corpus v f)
    ]
