-- ===== src/Trie/Hashing/Sides.antt =====
-- The hash of a node of ledger/trie from the hashes of its two sides.
use flow_dps.Base.{
  ℕ, zero, suc, ◌+◌, ◌-◌, ◌≤◌, Bool, true, false, if◌then◌else◌, ◌≡◌, refl, sym, ap, ◌∙◌, subst,
  arith,
}
use flow_dps.Base.Outcome.{Result, ok, err}
use flow_dps.Trie.{Node, nil, leaf, branch, extension, bit}
use flow_dps.Trie.Lookup.{Shape, below, left_of, right_of, below-Shape}
use flow_dps.Trie.Hashing.{is_leaf, both, one_sided, climb, climbed, node_hash}
use flow_dps.Trie.Hashing.Merkle.{Placed, leaf_bit}

leaf-Shape : {P : Type 0} (q : ℕ) (v : P) (k : ℕ) → Shape (leaf q v) k → k ≡ 0
unfolding Shape
leaf-Shape q v zero s = refl
leaf-Shape q v (suc k) s = elim s [ ]

module _ {P H : Type 0} (inter : H → H → H) (default : ℕ → H) (compact : ℕ → P → ℕ → H)
    (rise : (q : ℕ) (v : P) (h : ℕ)
      → compact q v (suc (suc h)) ≡ one_sided inter default compact q h (compact q v (suc h)))
    (bottom : (q : ℕ) (v : P) → compact q v 1 ≡ compact q v 0) where
  -- An empty side has the default hash.
  abbrev pub side_hash : Node P → ℕ → Result H
  side_hash nil h = ok (default h)
  side_hash (leaf q v) h = node_hash inter default compact (leaf q v) h
  side_hash (branch l r) h = node_hash inter default compact (branch l r) h
  side_hash (extension q n c) h = node_hash inter default compact (extension q n c) h

  side_hash-Shape :
      (t : Node P) (h : ℕ) → Shape t h → side_hash t h ≡ node_hash inter default compact t h
  unfolding Shape
  side_hash-Shape nil h s = elim s [ ]
  side_hash-Shape (leaf q v) h s = refl
  side_hash-Shape (branch l r) h s = refl
  side_hash-Shape (extension q n c) h s = refl

  abbrev raised : ℕ → ℕ → Result H → Result H
  raised q h (ok x) = ok (one_sided inter default compact q h x)
  raised q h (err e) = err e

  climb_last :
      (m i q : ℕ) (x : H)
      → climb inter default compact (suc m) i q x
        ≡ one_sided inter default compact q (i + m) (climb inter default compact m i q x)
  unfolding climb
  climb_last zero i q x = ap (λ j. one_sided inter default compact q j x) (omega arith)
  climb_last (suc m) i q x =
      climb_last m (suc i) q (one_sided inter default compact q i x)
      ∙ ap
          (λ j.
            one_sided inter default compact q j
              (climb inter default compact m (suc i) q (one_sided inter default compact q i x)))
          (omega arith)

  climbed_last :
      (m i j q : ℕ) (r : Result H)
      → j ≡ i + m
      → climbed inter default compact false (suc m) i q r
        ≡ raised q j (climbed inter default compact false m i q r)
  climbed_last m i j q (ok x) e = ap ok (
      climb_last m i q x
      ∙ ap (λ k. one_sided inter default compact q k (climb inter default compact m i q x)) (sym e))
  climbed_last m i j q (err x) e = refl

  climbed_none : (i q : ℕ) (r : Result H) → climbed inter default compact false 0 i q r ≡ r
  unfolding climb
  climbed_none i q (ok x) = refl
  climbed_none i q (err e) = refl

  inner_child :
      (c : Node P) (m i q x y : ℕ)
      → is_leaf c ≡ false
      → climbed inter default compact
          (is_leaf c)
          m
          i
          q
          (node_hash inter default compact c (if is_leaf c then x else y))
        ≡ climbed inter default compact false m i q (node_hash inter default compact c y)
  inner_child c m i q x y l =
      ap
        (λ b.
          climbed inter default compact b m i q
            (node_hash inter default compact c (if b then x else y)))
        l

  -- An extension's first bit raises the hash of what is below it.
  inner_raised :
      (q n : ℕ) (c : Node P) (h : ℕ)
      → is_leaf c ≡ false
      → n ≤ h
      → node_hash inter default compact (extension q n c) (suc h)
        ≡ raised q h (node_hash inter default compact (below q n c) h)
  unfolding node_hash below
  inner_raised q zero c h l le =
      let down : suc h - 1 ≡ h = omega arith in
      inner_child c 1 (suc h - 1) q (suc (suc h)) (suc h - 1) l
      ∙ ap (λ k. climbed inter default compact false 1 k q (node_hash inter default compact c k))
          down
      ∙ climbed_last 0 h h q (node_hash inter default compact c h) (omega arith)
      ∙ ap (raised q h) (climbed_none h q (node_hash inter default compact c h))
  inner_raised q (suc n) c h l le =
      let down : suc h - suc (suc n) ≡ h - suc n = omega arith in
      inner_child c (suc (suc n)) (suc h - suc (suc n)) q (suc (suc h)) (suc h - suc (suc n)) l
      ∙ ap
          (λ k.
            climbed inter default compact false (suc (suc n)) k q
              (node_hash inter default compact c k))
          down
      ∙ climbed_last (suc n) (h - suc n) h q (node_hash inter default compact c (h - suc n))
          (omega arith)
      ∙ ap (raised q h) (sym (inner_child c (suc n) (h - suc n) q (suc h) (h - suc n) l))

  leaf_rise :
      (q n q' h a : ℕ) (v : P)
      → n ≡ h
      → Placed (extension q n (leaf q' v)) (suc h) a
      → compact q' v (suc (suc h)) ≡ one_sided inter default compact q h (compact q' v (suc h))
  leaf_rise q n q' h a v e f =
      let x = compact q' v (suc h) in
      rise q' v h
      ∙ ap (λ b. if b then inter (default h) x else inter x (default h))
          (leaf_bit q q' h a v (subst (λ m. Placed (extension q m (leaf q' v)) (suc h) a) e f))

  leaf_raised :
      (q n q' h a : ℕ) (v : P)
      → n ≡ h
      → Placed (extension q n (leaf q' v)) (suc h) a
      → node_hash inter default compact (extension q n (leaf q' v)) (suc h)
        ≡ raised q h (node_hash inter default compact (below q n (leaf q' v)) h)
  unfolding node_hash below
  leaf_raised q zero q' h a v e f =
      let flat : compact q' v (suc h) ≡ compact q' v h =
        subst (λ k. compact q' v (suc k) ≡ compact q' v k) e (bottom q' v) in
      ap ok (leaf_rise q zero q' h a v e f ∙ ap (one_sided inter default compact q h) flat)
  leaf_raised q (suc n) q' h a v e f = ap ok (leaf_rise q (suc n) q' h a v e f)

  extension_raised :
      (q n : ℕ) (c : Node P) (h a : ℕ)
      → Shape (extension q n c) (suc h)
      → Placed (extension q n c) (suc h) a
      → node_hash inter default compact (extension q n c) (suc h)
        ≡ raised q h (node_hash inter default compact (below q n c) h)
  unfolding Shape
  extension_raised q n nil h a s f = elim s.1 [ ]
  extension_raised q n (leaf q' v) h a s f =
      leaf_raised q n q' h a v (omega (arith, s.0, leaf-Shape q' v (suc h - suc n) s.1)) f
  extension_raised q n (branch l r) h a s f =
      inner_raised q n (branch l r) h refl (omega (arith, s.0))
  extension_raised q n (extension q' m c) h a s f =
      inner_raised q n (extension q' m c) h refl (omega (arith, s.0))

  sided :
      (x : Bool) (h : ℕ) (b : Node P) (r : Result H)
      → r ≡ side_hash b h
      → (if x
          then both inter default compact (ok (default h)) r
          else both inter default compact r (ok (default h)))
        ≡ both inter default compact
            (side_hash (if x then nil else b) h)
            (side_hash (if x then b else nil) h)
  sided true h b r e = ap (both inter default compact (ok (default h))) e
  sided false h b r e = ap (λ r. both inter default compact r (ok (default h))) e

  raised-both :
      (q h : ℕ) (r : Result H)
      → raised q h r ≡ (
          if bit q h
          then both inter default compact (ok (default h)) r
          else both inter default compact r (ok (default h)))
  raised-both q h (ok x) = ground arith
  raised-both q h (err e) = ground arith

  raised_sides :
      (q h : ℕ) (b : Node P)
      → raised q h (side_hash b h)
        ≡ both inter default compact
            (side_hash (if bit q h then nil else b) h)
            (side_hash (if bit q h then b else nil) h)
  raised_sides q h b = raised-both q h (side_hash b h) ∙ sided (bit q h) h b (side_hash b h) refl

  pub node_hash-sides :
      (t : Node P) (h a : ℕ)
      → Shape t (suc h)
      → Placed t (suc h) a
      → node_hash inter default compact t (suc h)
        ≡ both inter default compact (side_hash (left_of h t) h) (side_hash (right_of h t) h)
  unfolding node_hash Shape left_of right_of
  node_hash-sides nil h a s f = elim s [ ]
  node_hash-sides (leaf q v) h a s f = elim s [ ]
  node_hash-sides (branch l r) h a s f = λ i.
      both inter default compact (sym (side_hash-Shape l h s.0) i) (sym (side_hash-Shape r h s.1) i)
  node_hash-sides (extension q n c) h a s f =
      extension_raised q n c h a s f
      ∙ ap (raised q h) (sym (side_hash-Shape (below q n c) h (below-Shape q n c h s)))
      ∙ raised_sides q h (below q n c)
