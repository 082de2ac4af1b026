-- ===== src/Trie/Mutation/Forking.antt =====
-- The branches that Mutate of ledger/trie/trie.go puts into the target.
use flow_dps.Base.{
  ℕ, suc, ◌-◌, ◌≤◌, Bool, true, false, not, ◌&&◌, [], ◌∷◌, if◌then◌else◌, ◌≡◌, ◌≢◌, refl, sym, ap,
  subst, arith,
}
use flow_dps.Base.Outcome.{Result}
use flow_dps.Trie.{Node, nil, leaf, branch, extension, bit}
use flow_dps.Trie.Lookup.{Shape, below, left_of, right_of, below-Shape}
use flow_dps.Trie.Mutation.{
  Group, Pointer, Rec, at, empty, fork, follows, is_empty, join, go_left, go_right, split_left,
  split_right, forward,
}
use flow_dps.Trie.Mutation.Pointers.{view, Source, Points, at_start, forward-Points}
use flow_dps.Trie.Mutation.Outcomes.{Done, Places, Parted, unchanged, branch-Correct}

module _ {P : Type 0} where
  Points-if :
      (b : Bool) (s t : Pointer P) (h : ℕ) (o u : Node P)
      → Points s h o
      → Points t h u
      → Points (if b then s else t) h (if b then o else u)
  Points-if true s t h o u x y = x
  Points-if false s t h o u x y = y

  -- A group that goes both ways has each side of the source.
  pub split-Points :
      (t : Node P) (k h : ℕ)
      → h ≤ 255
      → Source t k (suc h)
      → Points (split_left h t k) h (left_of h (view t k))
        × Points (split_right h t k) h (right_of h (view t k))
  unfolding split_left split_right left_of right_of view Source Shape
  split-Points nil k h le s = ((tt, refl), (tt, refl))
  split-Points (leaf q v) k h le s = elim s [ ]
  split-Points (branch l r) k h le s = (at_start l h le s.0, at_start r h le s.1)
  split-Points (extension q n c) k h le s =
      let f = forward-Points q n c k h le s in
      (
        Points-if (bit q h) (at nil k) (forward (extension q n c) k) h nil (below q (n - k) c)
            (tt, refl) f,
        Points-if (bit q h) (forward (extension q n c) k) (at nil k) h (below q (n - k) c) nil f
            (tt, refl),
      )

  join-Done :
      (h : ℕ) (g zs os : Group P) (o : Node P) (l r : Result (Node P))
      → Parted h g zs os
      → Done h zs (left_of h o) l
      → Done h os (right_of h o) r
      → Done (suc h) g o (join l r)
  join-Done h g zs os o l r parts L R =
      (branch L.0 R.0, ground (arith, L.1, R.1), branch-Correct h g zs os o L.0 R.0 parts L.2 R.2)

  pub fork_lem :
      (rec : Rec P) (h : ℕ) (s : Pointer P) (o l r : Node P) (g zs os : Group P)
      → Places rec h
      → g ≢ []
      → Parted h g zs os
      → Points (split_left h s.node s.count) h (left_of h o)
        × Points (split_right h s.node s.count) h (right_of h o)
      → (zs ≡ []
          → (l ≡ left_of h o)
            × Shape (left_of h o) h
            × Points (go_right s.node s.count) h (right_of h o))
      → (os ≡ []
          → (r ≡ right_of h o)
            × Shape (right_of h o) h
            × Points (go_left s.node s.count) h (left_of h o))
      → Done (suc h) g o (fork rec h s l r zs os)
  unfolding fork
  fork_lem rec h s o l r g [] [] places ne parts both L R = elim (ne (sym (parts.3 refl))) [ ]
  fork_lem rec h s o l r g (z ∷ zs) [] places ne parts both L R =
      let (e, shape, points) = R refl in
      let grown =
        places (z ∷ zs) (λ q. ground arith) parts.1 (go_left s.node s.count) (left_of h o) points in
      (
        branch grown.0 (right_of h o),
        ground (arith, grown.1, ap (branch grown.0) e),
        branch-Correct h g (z ∷ zs) [] o grown.0 (right_of h o) parts grown.2
            (unchanged h (right_of h o) shape),
      )
  fork_lem rec h s o l r g [] (y ∷ os) places ne parts both L R =
      let (e, shape, points) = L refl in
      let grown =
        places (y ∷ os) (λ q. ground arith) parts.2 (go_right s.node s.count) (right_of h o)
          points in
      (
        branch (left_of h o) grown.0,
        ground (arith, grown.1, ap (λ t. branch t grown.0) e),
        branch-Correct h g [] (y ∷ os) o (left_of h o) grown.0 parts
            (unchanged h (left_of h o) shape) grown.2,
      )
  fork_lem rec h s o l r g (z ∷ zs) (y ∷ os) places ne parts both L R =
      join-Done h g (z ∷ zs) (y ∷ os) o (rec empty (z ∷ zs) (split_left h s.node s.count))
        (rec empty (y ∷ os) (split_right h s.node s.count)) parts
        (places (z ∷ zs) (λ q. ground arith) parts.1 (split_left h s.node s.count) (left_of h o)
          both.0)
        (places (y ∷ os) (λ q. ground arith) parts.2 (split_right h s.node s.count) (right_of h o)
          both.1)

  leaves_right : (b : Bool) (zs os : Group P) → follows b zs os ≡ false → zs ≡ [] → b ≡ false
  leaves_right false zs os e z = refl
  leaves_right true zs os e z = ground (arith, ap is_empty z)

  leaves_left : (b : Bool) (zs os : Group P) → follows b zs os ≡ false → os ≡ [] → b ≡ true
  leaves_left true zs os e z = refl
  leaves_left false zs os e z = ground (arith, ap is_empty z)

  -- A group that leaves an extension of the source: the side that it does not take keeps what is
  -- left of the extension.
  pub leaving :
      (rec : Rec P) (h q n k : ℕ) (c b : Node P) (g zs os : Group P)
      → h ≤ 255
      → Places rec h
      → g ≢ []
      → Parted h g zs os
      → Source (extension q n c) k (suc h)
      → b ≡ below q (n - k) c
      → follows (bit q h) zs os ≡ false
      → Done (suc h) g (extension q (n - k) c) (
          fork rec h
            (at (extension q n c) k)
            (if not (bit q h) && is_empty zs then b else nil)
            (if bit q h && is_empty os then b else nil)
            zs
            os)
  unfolding left_of right_of go_left go_right view Source
  leaving rec h q n k c b g zs os le places ne parts s e leaves =
      let shape = below-Shape q (n - k) c h s.2 in
      let both = split-Points (extension q n c) k h le s in
      fork_lem rec h (at (extension q n c) k) (extension q (n - k) c)
        (if not (bit q h) && is_empty zs then b else nil)
        (if bit q h && is_empty os then b else nil) g zs os places ne parts both
        (λ z.
          let x = leaves_right (bit q h) zs os leaves z in
          let w : below q (n - k) c ≡ left_of h (extension q (n - k) c) = ground (arith, x) in
          (
            ground (arith, x, ap is_empty z, e),
            subst (λ t. Shape t h) w shape,
            (tt, ground (arith, x)),
          ))
        (λ z.
          let x = leaves_left (bit q h) zs os leaves z in
          let w : below q (n - k) c ≡ right_of h (extension q (n - k) c) = ground (arith, x) in
          (
            ground (arith, x, ap is_empty z, e),
            subst (λ t. Shape t h) w shape,
            (tt, ground (arith, x)),
          ))
