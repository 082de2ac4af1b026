-- ===== src/Trie/Mutation/Sorting.antt =====
-- The sort of paths and payloads by path in Mutate of ledger/trie: what it makes of distinct paths.
use flow_dps.Base.{
  ℕ, ◌^◌, ◌<◌, ◌==◌, ltb, false, none, some, List, [], ◌∷◌, if◌then◌else◌, ◌≡◌, refl, ◌∙◌, if_split,
  contains, All, arith,
}
use flow_dps.Base.Store.{lookup}
use flow_dps.Trie.Mutation.{Group, insert_sorted, sort_group, zip}
use flow_dps.Trie.Mutation.Ordering.{Above, Ascending, Bounded}

-- No path is given twice.
unfoldable pub Distinct : List ℕ → Type 0
Distinct [] = Unit
Distinct (p ∷ ps) = (contains p ps ≡ false) × Distinct ps

module _ {P : Type 0} where
  lookup-insert_sorted :
      (k p : ℕ) (v : P) (g : Group P)
      → lookup p g ≡ none
      → lookup k (insert_sorted p v g) ≡ (if p == k then some v else lookup k g)
  unfolding lookup insert_sorted
  lookup-insert_sorted k p v [] n = ground arith
  lookup-insert_sorted k p v ((q, w) ∷ g) n = ground (arith, lookup-insert_sorted k p v g)

  insert_sorted-Above :
      (o p : ℕ) (v : P) (g : Group P)
      → o < p
      → Above o g
      → lookup p g ≡ none
      → Above o (insert_sorted p v g)
  unfolding lookup insert_sorted Above
  insert_sorted-Above o p v [] lt a n = (lt, tt)
  insert_sorted-Above o p v ((q, w) ∷ g) lt a n =
      if_split (Above o) (ltb q p) ((q, w) ∷ insert_sorted p v g) ((p, v) ∷ (q, w) ∷ g)
        (λ e. (a.0, insert_sorted-Above q p v g (ground arith) a.1 (ground arith)))
        (λ e. (lt, (ground arith, a.1)))

  insert_sorted-Ascending :
      (p : ℕ) (v : P) (g : Group P)
      → Ascending g
      → lookup p g ≡ none
      → Ascending (insert_sorted p v g)
  unfolding lookup insert_sorted Above Ascending
  insert_sorted-Ascending p v [] a n = tt
  insert_sorted-Ascending p v ((q, w) ∷ g) a n =
      if_split Ascending (ltb q p) ((q, w) ∷ insert_sorted p v g) ((p, v) ∷ (q, w) ∷ g)
        (λ e. insert_sorted-Above q p v g (ground arith) a (ground arith)) (λ e. (ground arith, a))

  insert_sorted-Bounded :
      (p : ℕ) (v : P) (g : Group P) → p < 2 ^ 256 → Bounded g → Bounded (insert_sorted p v g)
  unfolding insert_sorted Bounded
  insert_sorted-Bounded p v [] lt b = (lt, tt)
  insert_sorted-Bounded p v ((q, w) ∷ g) lt b =
      if_split Bounded (ltb q p) ((q, w) ∷ insert_sorted p v g) ((p, v) ∷ (q, w) ∷ g)
        (λ e. (b.0, insert_sorted-Bounded p v g lt b.1)) (λ e. (lt, (b.0, b.1)))

  -- A path that is not given has no payload.
  pub lookup-zip :
      (p : ℕ) (ps : List ℕ) (vs : List P) → contains p ps ≡ false → lookup p (zip ps vs) ≡ none
  unfolding lookup
  lookup-zip p [] vs c = refl
  lookup-zip p (q ∷ ps) [] c = refl
  lookup-zip p (q ∷ ps) (v ∷ vs) c = ground (arith, lookup-zip p ps vs)

  abbrev Sorted : Group P → Group P → Type 0
  Sorted g s = Ascending s × Bounded s × ((k : ℕ) → lookup k s ≡ lookup k g)

  pub sort_group-zip :
      (ps : List ℕ) (vs : List P)
      → Distinct ps
      → All (λ p. p < 2 ^ 256) ps
      → Sorted (zip ps vs) (sort_group (zip ps vs))
  unfolding sort_group Distinct lookup Ascending Bounded
  sort_group-zip [] vs d b = (tt, tt, λ k. refl)
  sort_group-zip (p ∷ ps) [] d b = (tt, tt, λ k. refl)
  sort_group-zip (p ∷ ps) (v ∷ vs) d b =
      let (asc, bound, same_keys) = sort_group-zip ps vs d.1 b.1 in
      let fresh = same_keys p ∙ lookup-zip p ps vs d.0 in
      let g = sort_group (zip ps vs) in
      (
        insert_sorted-Ascending p v g asc fresh,
        insert_sorted-Bounded p v g b.0 bound,
        λ k. ground (arith, lookup-insert_sorted k p v g fresh, same_keys k),
      )
