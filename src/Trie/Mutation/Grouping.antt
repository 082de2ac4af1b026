-- ===== src/Trie/Mutation/Grouping.antt =====
-- The groups of Mutate of ledger/trie/trie.go: what a sorted group holds for a path, and how the pivot
-- parts it by the next bit.
use flow_dps.Base.{
  ℕ, zero, suc, true, false, Option, none, some, [], ◌∷◌, if◌then◌else◌, ◌≡◌, ◌≢◌, refl, subst,
  Bool-cases, inl, inr, arith,
}
use flow_dps.Trie.{bit}
use flow_dps.Trie.Lookup.{common}
use flow_dps.Trie.Mutation.{Group, zeros, ones, path_of}

module _ {P : Type 0} where
  -- The first path, with its payload, of a group that has the `h` bits below a height.
  unfoldable pub find : ℕ → ℕ → Group P → Option (ℕ × P)
  unfolding common
  find h p [] = none
  find h p ((q, v) ∷ g) = let rest = find h p g in if common h h p q then some (q, v) else rest

  unfoldable pub AllOnes : ℕ → Group P → Type 0
  AllOnes h [] = Unit
  AllOnes h ((q, v) ∷ g) = (bit q h ≡ true) × AllOnes h g

  -- Ascending paths that agree above a height, each of them once.
  unfoldable pub Grouped : ℕ → Group P → Type 0
  unfolding zeros ones AllOnes
  Grouped zero [] = Unit
  Grouped zero (x ∷ []) = Unit
  Grouped zero (x ∷ y ∷ g) = ⊥
  Grouped (suc h) g = AllOnes h (ones h g) × Grouped h (zeros h g) × Grouped h (ones h g)

  find-ones :
      (h p : ℕ) (g : Group P)
      → AllOnes h g
      → find (suc h) p g ≡ (if bit p h then find h p g else none)
  unfolding find common AllOnes
  find-ones h p [] a = ground arith
  find-ones h p ((q, v) ∷ g) a = ground (arith, find-ones h p g a.1, a.0)

  pub find-parts :
      (h p : ℕ) (g : Group P)
      → AllOnes h (ones h g)
      → find (suc h) p g ≡ (if bit p h then find h p (ones h g) else find h p (zeros h g))
  unfolding find common zeros ones AllOnes
  find-parts h p [] a = ground arith
  find-parts h p ((q, v) ∷ g) a = elim (Bool-cases (bit q h)) [
    | inl e ↦
        let w : ones h ((q, v) ∷ g) ≡ (q, v) ∷ g = ground arith in
        ground (arith, find-ones h p ((q, v) ∷ g) (subst (AllOnes h) w a))
    | inr e ↦
        let w : ones h ((q, v) ∷ g) ≡ ones h g = ground arith in
        ground (arith, find-parts h p g (subst (AllOnes h) w a))
  ]

  pub ones_of_none : (h : ℕ) (g : Group P) → zeros h g ≡ [] → ones h g ≡ g
  unfolding zeros ones
  ones_of_none h [] e = refl
  ones_of_none h ((q, v) ∷ g) e = ground arith

  pub zeros_of_none : (h : ℕ) (g : Group P) → ones h g ≡ [] → zeros h g ≡ g
  unfolding zeros ones
  zeros_of_none h [] e = refl
  zeros_of_none h ((q, v) ∷ g) e = ground (arith, zeros_of_none h g)

  -- The first path tells which way a group goes that goes one way.
  pub first_one : (h : ℕ) (g : Group P) → g ≢ [] → bit (path_of g) h ≡ true → zeros h g ≡ []
  unfolding zeros
  first_one h [] n e = elim (n refl) [ ]
  first_one h ((q, v) ∷ g) n e = ground arith

  pub first_zero : (h : ℕ) (g : Group P) → g ≢ [] → bit (path_of g) h ≡ false → zeros h g ≢ []
  unfolding zeros
  first_zero h [] n e = elim (n refl) [ ]
  first_zero h ((q, v) ∷ g) n e = λ z. ground arith
