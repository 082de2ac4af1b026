-- ===== src/Trie/Mutation/Pointers.antt =====
-- The pointers of a group into the source trie of Mutate in ledger/trie/trie.go: what is left of the
-- source below them.
use flow_dps.Base.{ℕ, zero, suc, ◌-◌, ◌≤◌, ◌<◌, ◌==◌, leb, ◌≡◌, refl, sym, subst, if_split, arith}
use flow_dps.Trie.{Node, nil, leaf, branch, extension, inc8, sub8}
use flow_dps.Trie.Lookup.{Shape, below, below-Shape}
use flow_dps.Trie.Mutation.{Pointer, at, forward, rest_of, cut_rest}

module _ {P : Type 0} where
  -- What is left of the source at a pointer.
  unfoldable pub view : Node P → ℕ → Node P
  view nil k = nil
  view (leaf q v) k = leaf q v
  view (branch l r) k = branch l r
  view (extension q n c) k = extension q (n - k) c

  -- A pointer to nil or to a part of the source; an extension of the source leaves at least one bit
  -- of a path to its child.
  unfoldable pub Source : Node P → ℕ → ℕ → Type 0
  unfolding Shape
  Source nil k h = Unit
  Source (leaf q v) k h = Shape (leaf q v) h
  Source (branch l r) k h = Shape (branch l r) h
  Source (extension q n c) k h = (n < 255) × (k ≤ n) × Shape (extension q (n - k) c) h

  abbrev pub Points : Pointer P → ℕ → Node P → Type 0
  Points s h o = Source s.node s.count h × (view s.node s.count ≡ o)

  -- A pointer to the start of a part of the trie below its root.
  pub at_start : (t : Node P) (h : ℕ) → h ≤ 255 → Shape t h → Points (at t 0) h t
  unfolding Source view Shape
  at_start nil h le s = (tt, refl)
  at_start (leaf q v) h le s = (s, refl)
  at_start (branch l r) h le s = (s, refl)
  at_start (extension q n c) h le s =
      let e : n ≡ n - 0 = omega arith in
      (
        (omega (arith, s.0), omega arith, subst (λ m. Shape (extension q m c) h) e s),
        subst (λ m. extension q m c ≡ extension q n c) e refl,
      )

  pub forward-Points :
      (q n : ℕ) (c : Node P) (k h : ℕ)
      → h ≤ 255
      → Source (extension q n c) k (suc h)
      → Points (forward (extension q n c) k) h (below q (n - k) c)
  unfolding forward below Source view Shape
  forward-Points q n c k h le s =
      let w : Shape (below q (n - k) c) h = below-Shape q (n - k) c h s.2 in
      if_split (λ t. Points t h (below q (n - k) c)) (k == n) (at c 0)
        (at (extension q n c) (inc8 k))
        (λ e.
          let last : n - k ≡ 0 = ground arith in
          subst (λ j. Points (at c 0) h (below q j c)) (sym last)
            (at_start c h le (subst (λ j. Shape (below q j c) h) last w)))
        (λ e.
          let more : n - k ≡ suc (n - inc8 k) = ground (arith, s.1) in
          subst (λ j. Points (at (extension q n c) (inc8 k)) h (below q j c)) (sym more)
            ((s.0, ground (arith, s.1), subst (λ j. Shape (below q j c) h) more w), refl))

  below_last : (q n : ℕ) (c : Node P) → n ≡ 0 → c ≡ below q n c
  unfolding below
  below_last q zero c e = refl
  below_last q (suc n) c e = ground arith

  below_more : (q n m : ℕ) (c : Node P) → n ≡ suc m → extension q m c ≡ below q n c
  unfolding below
  below_more q zero m c e = ground arith
  below_more q (suc n) m c e = ground arith

  pub rest_of-below :
      (q n k : ℕ) (c : Node P) → k ≤ n → n < 255 → rest_of q n k c ≡ below q (n - k) c
  unfolding rest_of below
  rest_of-below q n k c le lt =
      if_split (λ t. t ≡ below q (n - k) c) (leb (inc8 k) n) (extension q (sub8 n (inc8 k)) c) c
        (λ e. below_more q (n - k) (sub8 n (inc8 k)) c (ground arith))
        (λ e. below_last q (n - k) c (ground arith))

  pub cut_rest-below :
      (q n k q' m : ℕ) (c : Node P)
      → k ≤ n
      → n ≤ 255
      → cut_rest q n k (extension q' m c) ≡ below q (n - k) c
  unfolding cut_rest below
  cut_rest-below q n k q' m c le lt =
      if_split (λ t. t ≡ below q (n - k) c) (k == n) c (extension q (sub8 (sub8 n k) 1) c)
        (λ e. below_last q (n - k) c (ground arith))
        (λ e. below_more q (n - k) (sub8 (sub8 n k) 1) c (ground arith))
