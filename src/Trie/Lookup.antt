-- ===== src/Trie/Lookup.antt =====
-- What a trie holds, bit by bit, and the shapes that it may have: the reference for the reads and for
-- Mutate of ledger/trie/trie.go.
use flow_dps.Base.{
  ℕ, zero, suc, ◌-◌, ◌≤◌, Bool, true, false, ◌&&◌, Option, none, some, if◌then◌else◌, ◌≡◌, ◌≢◌,
  refl, subst, if_intro, arith,
}
use flow_dps.Trie.{Node, nil, leaf, branch, extension, bit, same}

-- Whether two paths have the `n` bits below a height in common.
unfoldable pub common : ℕ → ℕ → ℕ → ℕ → Bool
common zero h p q = true
common (suc n) zero p q = false
common (suc n) (suc h) p q = same (bit p h) (bit q h) && common n h p q

module _ {P : Type 0} where
  -- The leaf at a path in a node whose subtree has the height `h`: its path and payload.
  unfoldable pub get : Node P → ℕ → ℕ → Option (ℕ × P)
  unfolding common
  get nil h p = none
  get (leaf q v) zero p = some (q, v)
  get (leaf q v) (suc h) p = none
  get (branch l r) zero p = none
  get (branch l r) (suc h) p =
      let left = get l h p in let right = get r h p in if bit p h then right else left
  get (extension q n c) h p = if common (suc n) h p q then get c (h - suc n) p else none

  -- All leaves at the height 0, and two sides to each branch.
  unfoldable pub Shape : Node P → ℕ → Type 0
  Shape nil h = ⊥
  Shape (leaf q v) zero = Unit
  Shape (leaf q v) (suc h) = ⊥
  Shape (branch l r) zero = ⊥
  Shape (branch l r) (suc h) = Shape l h × Shape r h
  Shape (extension q n c) h = (suc n ≤ h) × Shape c (h - suc n)

  -- A trie or a side of it is nil, or has a shape.
  abbrev pub Side : Node P → ℕ → Type 0
  Side nil h = Unit
  Side (leaf q v) h = Shape (leaf q v) h
  Side (branch l r) h = Shape (branch l r) h
  Side (extension q n c) h = Shape (extension q n c) h

  pub Shape-Side : (t : Node P) (h : ℕ) → Shape t h → Side t h
  Shape-Side nil h s = tt
  Shape-Side (leaf q v) h s = s
  Shape-Side (branch l r) h s = s
  Shape-Side (extension q n c) h s = s

  pub Shape-some : (t : Node P) (h : ℕ) → Shape t h → t ≢ nil
  unfolding Shape
  Shape-some nil h s e = elim s [ ]
  Shape-some (leaf q v) h s e = ground arith
  Shape-some (branch l r) h s e = ground arith
  Shape-some (extension q n c) h s e = ground arith

  -- What is below the first of the `n + 1` bits of an extension, and below the first bit of a node.
  unfoldable pub below : ℕ → ℕ → Node P → Node P
  below q zero c = c
  below q (suc n) c = extension q n c

  unfoldable pub left_of : ℕ → Node P → Node P
  unfolding below
  left_of h (branch l r) = l
  left_of h (extension q n c) = if bit q h then nil else below q n c
  left_of h _ = nil

  unfoldable pub right_of : ℕ → Node P → Node P
  unfolding below
  right_of h (branch l r) = r
  right_of h (extension q n c) = if bit q h then below q n c else nil
  right_of h _ = nil

  pub get-extension :
      (q n : ℕ) (c : Node P) (h p : ℕ)
      → get (extension q n c) (suc h) p
        ≡ (if same (bit p h) (bit q h) then get (below q n c) h p else none)
  unfolding get common below
  get-extension q zero c h p = ground arith
  get-extension q (suc n) c h p = ground arith

  pub get-sides :
      (t : Node P) (h p : ℕ)
      → get t (suc h) p ≡ (if bit p h then get (right_of h t) h p else get (left_of h t) h p)
  unfolding get left_of right_of
  get-sides nil h p = ground arith
  get-sides (leaf q v) h p = ground arith
  get-sides (branch l r) h p = refl
  get-sides (extension q n c) h p = ground (arith, get-extension q n c h p)

  pub extension-Shape :
      (q n : ℕ) (c : Node P) (h : ℕ) → Shape (below q n c) h → Shape (extension q n c) (suc h)
  unfolding Shape below
  extension-Shape q zero c h s = (omega arith, subst (Shape c) (omega arith) s)
  extension-Shape q (suc n) c h s = (omega (arith, s.0), subst (Shape c) (omega arith) s.1)

  pub below-Shape :
      (q n : ℕ) (c : Node P) (h : ℕ) → Shape (extension q n c) (suc h) → Shape (below q n c) h
  unfolding Shape below
  below-Shape q zero c h s = subst (Shape c) (omega arith) s.1
  below-Shape q (suc n) c h s = (omega (arith, s.0), subst (Shape c) (omega arith) s.1)

  pub left-Side : (t : Node P) (h : ℕ) → Shape t (suc h) → Side (left_of h t) h
  unfolding left_of Shape
  left-Side nil h s = tt
  left-Side (leaf q v) h s = tt
  left-Side (branch l r) h s = Shape-Side l h s.0
  left-Side (extension q n c) h s =
      if_intro (λ t. Side t h) (bit q h) nil (below q n c) tt
        (Shape-Side (below q n c) h (below-Shape q n c h s))

  pub right-Side : (t : Node P) (h : ℕ) → Shape t (suc h) → Side (right_of h t) h
  unfolding right_of Shape
  right-Side nil h s = tt
  right-Side (leaf q v) h s = tt
  right-Side (branch l r) h s = Shape-Side r h s.1
  right-Side (extension q n c) h s =
      if_intro (λ t. Side t h) (bit q h) (below q n c) nil
        (Shape-Side (below q n c) h (below-Shape q n c h s)) tt
