-- ===== src/Rampart/Repository/Keys.antt =====
-- The primary keys of matches: what they do not change.
use asber.Base.{
  ℕ, ◌∙◌, inl, inr, Bool-cases, ◌+◌, ◌≡◌, refl, ap, List, [], ◌∷◌, Bool, true, false, map, filter,
  All,
}
use asber.Rampart.Tables.{EnvironmentMatch}
use asber.Rampart.Repository.{numbered}

-- A row without its key.
abbrev pub unnumbered : EnvironmentMatch → EnvironmentMatch
unnumbered m = record m { id = 0 }

-- Predicates that do not look at the key.
module _ (p : EnvironmentMatch → Bool)
    (blind : (m : EnvironmentMatch) (id : ℕ) → p (record m { id = id }) ≡ p m) where
  pub numbered-All :
      (id : ℕ) (ms : List EnvironmentMatch)
      → All (λ m. p m ≡ true) ms
      → All (λ m. p m ≡ true) (numbered id ms)
  numbered-All id [] h = tt
  numbered-All id (m ∷ ms) h = (blind m id ∙ h.0, numbered-All (id + 1) ms h.1)

  pub filter-numbered :
      (id : ℕ) (ms : List EnvironmentMatch)
      → map unnumbered (filter p (numbered id ms)) ≡ map unnumbered (filter p ms)
  filter-numbered id [] = refl
  filter-numbered id (m ∷ ms) = elim (Bool-cases (p m)) [
    | inl e ↦
        let e' : p (record m { id = id }) ≡ true = blind m id ∙ e in
        rw (e, e') (ap (λ l. unnumbered m ∷ l) (filter-numbered (id + 1) ms))
    | inr e ↦
        let e' : p (record m { id = id }) ≡ false = blind m id ∙ e in
        rw (e, e') (filter-numbered (id + 1) ms)
  ]

pub unnumbered-numbered :
    (id : ℕ) (ms : List EnvironmentMatch) → map unnumbered (numbered id ms) ≡ map unnumbered ms
unnumbered-numbered id [] = refl
unnumbered-numbered id (m ∷ ms) = ap (λ l. unnumbered m ∷ l) (unnumbered-numbered (id + 1) ms)
