-- ===== src/Trie/Leaves/Complete.antt =====
-- Leaves of ledger/trie/trie.go against the reads.
use flow_dps.Base.{
  ℕ, zero, suc, ◌+◌, ◌*◌, ◌^◌, ◌≤◌, ◌<◌, ◌==◌, Bool, true, false, Option, some, none, List, [], ◌∷◌,
  ◌++◌, ◌≡◌, ◌≢◌, refl, sym, ap, ◌∙◌, if◌then◌else◌, subst, if_split, Bool-cases, inl, inr, ==_iff,
  arith,
}
use mathlib.Core.List.{append-nil, append_assoc}
use flow_dps.Base.Outcome.{not_found, Result, ok, err}
use flow_dps.Base.Store.{lookup}
use flow_dps.Trie.{Node, nil, leaf, branch, extension, bit, shr, read_root}
use flow_dps.Trie.Lookup.{get, Shape, Side, below, left_of, right_of, left-Side, right-Side}
use flow_dps.Trie.Bits.{shr-bit, shr_small}
use flow_dps.Trie.Reads.{payload_of, found, read_root-get}
use flow_dps.Trie.Hashing.Merkle.{Placed, holds, holds-side, left-Placed, right-Placed}
use flow_dps.Trie.Mutation.{Group}
use flow_dps.Trie.Mutation.Outcomes.{updated}
use flow_dps.Trie.Mutation.Ordering.{Shared}
use flow_dps.Trie.Leaves.{drain, leaves, with_leaf, size}

module _ {P : Type 0} where
  updated-none : (x y : Option P) → y ≡ none → updated x y ≡ x
  updated-none (some v) y e = refl
  updated-none none y e = e

  -- The leaves from right to left.
  unfoldable leaves_of : Node P → Group P
  leaves_of nil = []
  leaves_of (leaf q v) = (q, v) ∷ []
  leaves_of (branch l r) = leaves_of r ++ leaves_of l
  leaves_of (extension q n c) = leaves_of c

  abbrev leaves_all : List (Node P) → Group P
  leaves_all [] = []
  leaves_all (t ∷ ts) = leaves_of t ++ leaves_all ts

  abbrev sizes : List (Node P) → ℕ
  sizes [] = 0
  sizes (t ∷ ts) = size t + sizes ts

  size-some : (t : Node P) → 1 ≤ size t
  unfolding size
  size-some nil = omega arith
  size-some (leaf q v) = omega arith
  size-some (branch l r) = omega arith
  size-some (extension q n c) = omega arith

  drain_lem :
      (fuel : ℕ) (queue : List (Node P))
      → sizes queue ≤ fuel
      → drain fuel queue ≡ ok (leaves_all queue)
  unfolding drain leaves_of size
  drain_lem fuel [] le = refl
  drain_lem zero (t ∷ queue) le =
      let no_fuel : ⊥ = omega (arith, le, size-some t) in elim no_fuel [ ]
  drain_lem (suc fuel) (nil ∷ queue) le = drain_lem fuel queue (omega arith)
  drain_lem (suc fuel) (leaf q v ∷ queue) le =
      ap (with_leaf (q, v)) (drain_lem fuel queue (omega arith))
  drain_lem (suc fuel) (branch l r ∷ queue) le =
      drain_lem fuel (r ∷ l ∷ queue) (omega arith)
      ∙ ap ok (sym (append_assoc (leaves_of r) (leaves_of l) (leaves_all queue)))
  drain_lem (suc fuel) (extension q n c ∷ queue) le = drain_lem fuel (c ∷ queue) (omega arith)

  -- A node's leaves are those of its two sides.
  leaves_of-below : (q n : ℕ) (c : Node P) → leaves_of (below q n c) ≡ leaves_of c
  unfolding leaves_of below
  leaves_of-below q zero c = refl
  leaves_of-below q (suc n) c = refl

  one_side :
      (b : Bool) (q n : ℕ) (c : Node P)
      → leaves_of c
        ≡ leaves_of (if b then below q n c else nil) ++ leaves_of (if b then nil else below q n c)
  unfolding leaves_of
  one_side true q n c = sym (append-nil (leaves_of (below q n c)) ∙ leaves_of-below q n c)
  one_side false q n c = sym (leaves_of-below q n c)

  leaves_of-sides :
      (t : Node P) (h : ℕ)
      → Shape t (suc h)
      → leaves_of t ≡ leaves_of (right_of h t) ++ leaves_of (left_of h t)
  unfolding leaves_of left_of right_of Shape
  leaves_of-sides nil h s = elim s [ ]
  leaves_of-sides (leaf q v) h s = elim s [ ]
  leaves_of-sides (branch l r) h s = refl
  leaves_of-sides (extension q n c) h s = one_side (bit q h) q n c

  lookup-append :
      (p : ℕ) (xs ys : Group P) → lookup p (xs ++ ys) ≡ updated (lookup p xs) (lookup p ys)
  unfolding lookup
  lookup-append p [] ys = refl
  lookup-append p ((q, v) ∷ xs) ys = ground (arith, lookup-append p xs ys)

  Shared-append :
      (h a : ℕ) (xs ys : Group P) → Shared h a xs → Shared h a ys → Shared h a (xs ++ ys)
  unfolding Shared
  Shared-append h a [] ys s r = r
  Shared-append h a (x ∷ xs) ys s r = (s.0, Shared-append h a xs ys s.1 r)

  Shared-up :
      (h a b : ℕ) (xs : Group P) → 2 * a ≤ b → b ≤ 2 * a + 1 → Shared h b xs → Shared (suc h) a xs
  unfolding Shared
  Shared-up h a b [] low high s = tt
  Shared-up h a b ((q, v) ∷ xs) low high s =
      (ground (arith, shr-bit q h, s.0), Shared-up h a b xs low high s.1)

  lookup-Shared : (h a p : ℕ) (xs : Group P) → Shared h a xs → shr p h ≢ a → lookup p xs ≡ none
  unfolding Shared lookup
  lookup-Shared h a p [] s n = refl
  lookup-Shared h a p ((q, v) ∷ xs) s n =
      if_split (λ o. o ≡ none) (q == p) (some v) (lookup p xs)
        (λ e. elim (n (subst (λ x. shr x h ≡ a) ((==_iff q p).0 e) s.0)) [ ])
        (λ e. lookup-Shared h a p xs s.1 n)

-- The leaves below a height have the bits above it, and are those that are found.
abbrev Listed : Type 0 → ℕ → Type 0
Listed P h =
    (a : ℕ) (t : Node P)
    → Side t h
    → Placed t h a
    → Shared h a (leaves_of t) × ((p : ℕ) → shr p h ≡ a → lookup p (leaves_of t) ≡ holds t h p)

module _ {P : Type 0} where
  node_Listed :
      (h : ℕ)
      → Listed P h
      → (a : ℕ) (t : Node P) → Shape t (suc h)
      → Placed t (suc h) a
      → Shared (suc h) a (leaves_of t)
        × ((p : ℕ) → shr p (suc h) ≡ a → lookup p (leaves_of t) ≡ holds t (suc h) p)
  node_Listed h sides a t s f =
      let L = sides (2 * a) (left_of h t) (left-Side t h s) (left-Placed t h a f) in
      let R = sides (2 * a + 1) (right_of h t) (right-Side t h s) (right-Placed t h a f) in
      let ls = leaves_of (left_of h t) in
      let rs = leaves_of (right_of h t) in
      let all = leaves_of-sides t h s in
      (
        subst (Shared (suc h) a) (sym all) (
            Shared-append (suc h) a rs ls
              (Shared-up h a (2 * a + 1) rs (omega arith) (omega arith) R.0)
              (Shared-up h a (2 * a) ls (omega arith) (omega arith) L.0)),
        λ p e. ap (lookup p) all ∙ lookup-append p rs ls ∙ (elim (Bool-cases (bit p h)) [
          | inl b ↦
              let here : shr p h ≡ 2 * a + 1 = ground (arith, shr-bit p h) in
              let other : shr p h ≢ 2 * a = λ x. omega (arith, here, x) in
              updated-none (lookup p rs) (lookup p ls) (lookup-Shared h (2 * a) p ls L.0 other)
              ∙ R.1 p here
              ∙ holds-side t h p true b
          | inr b ↦
              let here : shr p h ≡ 2 * a = ground (arith, shr-bit p h) in
              let other : shr p h ≢ 2 * a + 1 = λ x. omega (arith, here, x) in
              ap (λ x. updated x (lookup p ls)) (lookup-Shared h (2 * a + 1) p rs R.0 other)
              ∙ L.1 p here
              ∙ holds-side t h p false b
        ]),
      )

  all_Listed : (h : ℕ) → Listed P h
  unfolding Shape get shr leaves_of lookup Shared
  all_Listed h a nil s f = (tt, λ p e. refl)
  all_Listed zero a (leaf q v) s f =
      let own : q ≡ a = f a q v refl refl in ((own, tt), λ p e. ground (arith, own, e))
  all_Listed (suc h) a (leaf q v) s f = elim s [ ]
  all_Listed zero a (branch l r) s f = elim s [ ]
  all_Listed (suc h) a (branch l r) s f = node_Listed h (all_Listed h) a (branch l r) s f
  all_Listed zero a (extension q n c) s f = elim s.0 [ ]
  all_Listed (suc h) a (extension q n c) s f = node_Listed h (all_Listed h) a (extension q n c) s f

  leaves_lem : (fuel : ℕ) (t : Node P) → size t ≤ fuel → leaves fuel t ≡ ok (leaves_of t)
  unfolding leaves leaves_of
  leaves_lem fuel nil le = drain_lem fuel [] (omega arith)
  leaves_lem fuel (leaf q v) le =
      drain_lem fuel (leaf q v ∷ []) (omega arith) ∙ ap ok (append-nil _)
  leaves_lem fuel (branch l r) le =
      drain_lem fuel (branch l r ∷ []) (omega arith) ∙ ap ok (append-nil _)
  leaves_lem fuel (extension q n c) le =
      drain_lem fuel (extension q n c ∷ []) (omega arith) ∙ ap ok (append-nil _)

  -- What a list of leaves has for a path.
  abbrev pub listed : Option P → Result P
  listed (some v) = ok v
  listed none = err not_found

  found-listed : (o : Option (ℕ × P)) → found o ≡ listed (payload_of o)
  found-listed none = refl
  found-listed (some (q, v)) = refl

  -- Leaves of a trie that is empty or well formed, with its leaves at their own paths, ends after as
  -- many rounds as the trie has nodes, and lists for every path of 32 bytes what a read of it finds.
  pub leaves-read_root :
      (fuel : ℕ) (t : Node P)
      → Side t 256
      → Placed t 256 0
      → size t ≤ fuel
      → (p : ℕ) → p < 2 ^ 256
      → (xs : Group P) × (leaves fuel t ≡ ok xs) × (read_root t p ≡ listed (lookup p xs))
  leaves-read_root fuel t s f le p lt = (
    leaves_of t,
    leaves_lem fuel t le,
    read_root-get t p s
        ∙ found-listed (get t 256 p)
        ∙ ap listed (sym ((all_Listed 256 0 t s f).1 p (shr_small p 256 lt))),
  )
