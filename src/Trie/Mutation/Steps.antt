-- ===== src/Trie/Mutation/Steps.antt =====
-- A group of Mutate of ledger/trie/trie.go that goes along an extension of the target.
use flow_dps.Base.{
  ℕ, suc, ◌-◌, ◌≤◌, ◌<◌, ◌==◌, true, [], ◌≡◌, ◌≢◌, refl, sym, subst, if_split, arith,
}
use flow_dps.Base.Outcome.{Result}
use flow_dps.Trie.{Node, nil, leaf, branch, extension, bit, inc8, sub8}
use flow_dps.Trie.Lookup.{get, below, get-extension}
use flow_dps.Trie.Mutation.{
  Group, Pointer, Rec, at, empty, within, along, follows, map_node, forward,
}
use flow_dps.Trie.Mutation.Pointers.{view, Source, Points, forward-Points}
use flow_dps.Trie.Mutation.Outcomes.{
  Correct, Done, Split, Aligned, Places, Crosses, Parted, On, extension-Correct, follows_all,
  follows-Grouped,
}

module _ {P : Type 0} where
  -- The source pointer of a group that goes one bit along an extension of the target.
  abbrev Forwarded : ℕ → ℕ → ℕ → ℕ → Group P → Node P → Node P → ℕ → Type 0
  Forwarded q n c h g o t k =
      (u : Node P) × Points (forward t k) h u
      × ((p : ℕ) → get o (suc h) p ≡ On q h p (get u h p))
      × (c < n → Aligned q n (suc c) h g (forward t k).node (forward t k).count)

  forward-Forwarded :
      (t : Node P) (k h : ℕ) (g : Group P) (q n c : ℕ)
      → h ≤ 255
      → Source t k (suc h)
      → Aligned q n c (suc h) g t k
      → Forwarded q n c h g (view t k) t k
  unfolding Aligned view get forward Source
  forward-Forwarded nil k h g q n c le s a =
      (nil, (tt, refl), λ p. ground arith, λ lt. (omega (arith, a.0), a.1))
  forward-Forwarded (leaf q' v) k h g q n c le s a = elim a [ ]
  forward-Forwarded (branch l r) k h g q n c le s a = elim a [ ]
  forward-Forwarded (extension q' m t) k h g q n c le s a = (
    below q' (m - k) t,
    forward-Points q' m t k h le s,
    λ p.
        subst
          (λ x. get (extension q' (m - k) t) (suc h) p ≡ On x h p (get (below q' (m - k) t) h p))
          a.0 (get-extension q' (m - k) t h p),
    λ lt.
        if_split (λ (s : Pointer P). Aligned q n (suc c) h g s.node s.count) (k == m) (at t 0)
          (at (extension q' m t) (inc8 k))
          (λ e. let no : ⊥ = ground (arith, a.1, s.1) in elim no [ ])
          (λ e. (a.0, ground (arith, a.1, s.1, s.0))),
  )

  pub along_lem :
      (rec : Rec P) (h : ℕ) (g zs os : Group P) (s : Pointer P) (o : Node P) (q n c : ℕ)
      → h ≤ 255
      → Places rec h
      → Crosses rec h
      → g ≢ []
      → Parted h g zs os
      → follows (bit q h) zs os ≡ true
      → Points s (suc h) o
      → c ≤ n
      → n ≤ 255
      → Aligned q n c (suc h) g s.node s.count
      → Split q c (suc h) g o (along rec g s q n c)
  unfolding along below
  along_lem rec h g zs os s o q n c le places crosses ne parts goes points cn n255 a =
      let next = forward s.node s.count in
      let (u, to, old, more) =
        subst (λ x. Forwarded q n c h g x s.node s.count) points.1
          (forward-Forwarded s.node s.count h g q n c le points.0 a) in
      let grouped = follows-Grouped (bit q h) h g zs os parts goes in
      let new = λ (p : ℕ). follows_all (bit q h) h p g zs os parts goes in
      if_split (Split q c (suc h) g o) (c == n) (map_node (extension q n) (rec empty g next))
        (rec (within q n (inc8 c)) g next)
        (λ e.
          let grown = places g ne grouped next u to in
          let one : 1 ≡ suc n - c = ground arith in
          (
            n,
            grown.0,
            ground (arith, grown.1),
            omega arith,
            subst (λ j. Correct (suc h) g o (below q j grown.0)) one
                (extension-Correct h g o u q 0 grown.0 old new grown.2),
          ))
        (λ e.
          let lt : c < n = ground arith in
          let c1 : inc8 c ≡ suc c = omega arith in
          let grown =
            crosses g ne grouped next u to q n (inc8 c) (omega arith) (omega arith) n255
              (subst (λ d. Aligned q n d h g next.node next.count) (sym c1) (more lt)) in
          let one : suc (suc grown.0 - inc8 c) ≡ suc grown.0 - c = omega (arith, grown.3) in
          (
            grown.0,
            grown.1,
            grown.2,
            omega (arith, grown.3),
            subst (λ j. Correct (suc h) g o (below q j grown.1)) one
                (extension-Correct h g o u q (suc grown.0 - inc8 c) grown.1 old new grown.4),
          ))

  -- An extension of the target that begins at this depth.
  pub from_start :
      (q h : ℕ) (g : Group P) (o : Node P) (r : Result (Node P)) → Split q 0 h g o r → Done h g o r
  unfolding below
  from_start q h g o r (m, t, e, le, c) =
      let all : suc m - 0 ≡ suc m = omega arith in
      (extension q m t, e, subst (λ j. Correct h g o (below q j t)) all c)

  -- An extension of the target that ends above this depth.
  pub cut_off :
      (q c h : ℕ) (g : Group P) (o : Node P) (r : Result (Node P))
      → 1 ≤ c
      → c ≤ 255
      → Done h g o r
      → Split q c h g o (map_node (extension q (sub8 c 1)) r)
  unfolding below
  cut_off q c h g o r c1 c255 (t, e, done) =
      let z : 0 ≡ suc (sub8 c 1) - c = omega arith in
      (sub8 c 1, t, ground (arith, e), omega arith, subst (λ j. Correct h g o (below q j t)) z done)
