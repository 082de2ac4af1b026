-- ===== src/Trie/Mutation/Growing.antt =====
-- Mutate of ledger/trie/trie.go, over all depths.
use flow_dps.Base.{ℕ, zero, suc, ◌≤◌, [], ◌∷◌, refl, subst, arith}
use flow_dps.Trie.{Node, nil, leaf, branch, extension}
use flow_dps.Trie.Lookup.{get, Shape}
use flow_dps.Trie.Mutation.{Group, advance, grow, zeros, ones, place, cross}
use flow_dps.Trie.Mutation.Grouping.{
  find, Grouped, find-parts, ones_of_none, zeros_of_none, first_one, first_zero,
}
use flow_dps.Trie.Mutation.Pointers.{Source}
use flow_dps.Trie.Mutation.Outcomes.{Done, Split, Aligned, Places, Crosses, Parted}
use flow_dps.Trie.Mutation.Placing.{place_lem}
use flow_dps.Trie.Mutation.Crossing.{cross_lem}

module _ {P : Type 0} where
  parted : (h : ℕ) (g : Group P) → Grouped (suc h) g → Parted h g (zeros h g) (ones h g)
  unfolding Grouped
  parted h g gr = ((λ p. find-parts h p g gr.0), gr.1, gr.2, zeros_of_none h g, ones_of_none h g)

  leaves_place : Places {P = P} (grow zero) zero
  unfolding grow find get Shape Grouped
  leaves_place [] ne gr s o points = elim (ne refl) [ ]
  leaves_place ((q, v) ∷ []) ne gr s o points = (leaf q v, refl, (tt, λ p. refl))
  leaves_place (x ∷ y ∷ g) ne gr s o points = elim gr [ ]

  no_crossing :
      (t : Node P) (k n c : ℕ) (g : Group P) (q : ℕ)
      → c ≤ n
      → Source t k zero
      → Aligned q n c zero g t k
      → ⊥
  unfolding Aligned Source Shape
  no_crossing nil k n c g q le s a = ground (arith, a.0)
  no_crossing (leaf q' v) k n c g q le s a = a
  no_crossing (branch l r) k n c g q le s a = a
  no_crossing (extension q' m t) k n c g q le s a = elim s.2.0 [ ]

  -- Every group is grown right, at every height.
  pub grow_lem : (h : ℕ) → h ≤ 256 → Places {P = P} (grow h) h × Crosses {P = P} (grow h) h
  unfolding grow advance
  grow_lem zero le = (
    leaves_place,
    λ g ne gr s o points q n c c1 cn n255 a.
        elim (no_crossing s.node s.count n c g q cn points.0 a) [ ],
  )
  grow_lem (suc h) le =
      let below_h = grow_lem h (omega arith) in
      let bound : h ≤ 255 = omega arith in
      (
        λ g ne gr s o points.
            subst (λ x. Done (suc h) g x (place (grow h) h g s.node s.count (zeros h g) (ones h g)))
              points.1
              (place_lem (grow h) h g (zeros h g) (ones h g) s.node s.count bound below_h.0
                below_h.1 ne (parted h g gr) (first_one h g ne) (first_zero h g ne) points.0),
        λ g ne gr s o points q n c c1 cn n255 a.
            subst (λ x. Split q c (suc h) g x (cross (grow h) h g s q n c (zeros h g) (ones h g)))
              points.1
              (cross_lem (grow h) h g (zeros h g) (ones h g) s.node s.count q n c bound below_h.0
                below_h.1 ne (parted h g gr) (first_one h g ne) (first_zero h g ne) points.0 c1 cn
                n255 a),
      )
