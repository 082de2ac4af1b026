-- ===== src/Trie/Hashing/Canonical.antt =====
-- RootHash of ledger/trie/trie.go against the complete binary tree over all paths.
use flow_dps.Base.{
  ℕ, zero, suc, ◌+◌, ◌*◌, ◌^◌, ◌<◌, true, false, Option, none, some, ◌≡◌, refl, sym, ap, ◌∙◌, arith,
}
use flow_dps.Base.Outcome.{ok, ok-injective}
use flow_dps.Trie.{Node, nil, leaf, branch, extension, shr, read_root}
use flow_dps.Trie.Lookup.{get, Shape, left_of, right_of, Side, left-Side, right-Side}
use flow_dps.Trie.Bits.{shr-bit, shr_bound}
use flow_dps.Trie.Reads.{payload_of, found, read_root-get}
use flow_dps.Trie.Hashing.{both, one_sided, node_hash, root_hash}
use flow_dps.Trie.Hashing.Merkle.{
  Placed, holds, holds-side, left-Placed, right-Placed, merkle, merkle_eq,
}
use flow_dps.Trie.Hashing.Sides.{side_hash, node_hash-sides}

module _ {P H : Type 0} (inter : H → H → H) (default : ℕ → H) (compact : ℕ → P → ℕ → H)
    (rise : (q : ℕ) (v : P) (h : ℕ)
      → compact q v (suc (suc h)) ≡ one_sided inter default compact q h (compact q v (suc h)))
    (bottom : (q : ℕ) (v : P) → compact q v 1 ≡ compact q v 0)
    (absent : (h : ℕ) → default (suc h) ≡ inter (default h) (default h)) where
  merkle-none : (h a : ℕ) → merkle inter default compact (λ p. none) h a ≡ default h
  unfolding merkle
  merkle-none zero a = refl
  merkle-none (suc h) a =
      (λ i. inter (merkle-none h (2 * a) i) (merkle-none h (2 * a + 1) i)) ∙ sym (absent h)

  abbrev Hashed : ℕ → Type 0
  Hashed h =
      (a : ℕ) (t : Node P)
      → Side t h
      → Placed t h a
      → side_hash inter default compact rise bottom t h
        ≡ ok (merkle inter default compact (holds t h) h a)

  node_lem :
      (h : ℕ)
      → Hashed h
      → (a : ℕ) (t : Node P) → Shape t (suc h)
      → Placed t (suc h) a
      → node_hash inter default compact t (suc h)
        ≡ ok (merkle inter default compact (holds t (suc h)) (suc h) a)
  unfolding merkle
  node_lem h sides a t s f =
      node_hash-sides inter default compact rise bottom t h a s f
      ∙ (λ i.
          both inter default compact
            (sides (2 * a) (left_of h t) (left-Side t h s) (left-Placed t h a f) i)
            (sides (2 * a + 1) (right_of h t) (right-Side t h s) (right-Placed t h a f) i))
      ∙ (λ i. ok (
          inter
            (merkle_eq inter default compact (holds (left_of h t) h) (holds t (suc h)) h (2 * a)
              (λ p e. holds-side t h p false (ground (arith, shr-bit p h, e))) i)
            (merkle_eq inter default compact (holds (right_of h t) h) (holds t (suc h)) h
              (2 * a + 1) (λ p e. holds-side t h p true (ground (arith, shr-bit p h, e))) i)))

  side_lem : (h : ℕ) → Hashed h
  unfolding Shape get shr merkle node_hash
  side_lem h a nil s f = sym (ap ok (merkle-none h a))
  side_lem zero a (leaf q v) s f = ap (λ x. ok (compact x v 0)) (f a q v refl refl)
  side_lem (suc h) a (leaf q v) s f = elim s [ ]
  side_lem zero a (branch l r) s f = elim s [ ]
  side_lem (suc h) a (branch l r) s f = node_lem h (side_lem h) a (branch l r) s f
  side_lem zero a (extension q n c) s f = elim s.0 [ ]
  side_lem (suc h) a (extension q n c) s f = node_lem h (side_lem h) a (extension q n c) s f

  root_lem :
      (t : Node P)
      → Side t 256
      → root_hash inter default compact t ≡ side_hash inter default compact rise bottom t 256
  unfolding root_hash
  root_lem nil s = refl
  root_lem (leaf q v) s = refl
  root_lem (branch l r) s = refl
  root_lem (extension q n c) s = refl

  -- RootHash of a trie that is empty or well formed, and whose leaves stand at their own paths: it is
  -- the root of the complete binary tree over all paths, in which a path that the trie has no leaf for
  -- is an empty leaf.
  pub root_hash-merkle :
      (t : Node P)
      → Side t 256
      → Placed t 256 0
      → root_hash inter default compact t ≡ ok (merkle inter default compact (holds t 256) 256 0)
  root_hash-merkle t s f = root_lem t s ∙ side_lem 256 0 t s f

  found_eq : (x y : Option (ℕ × P)) → found x ≡ found y → payload_of x ≡ payload_of y
  found_eq none none e = refl
  found_eq none (some y) e = ground arith
  found_eq (some x) none e = ground arith
  found_eq (some (q, v)) (some (r, w)) e = ap some (ok-injective e)

  -- The root hash depends on nothing but the reads: two such tries that answer every read of a path of
  -- 32 bytes alike have the same root hash, whatever extensions and branches they consist of.
  pub root_hash-read_root :
      (t u : Node P)
      → Side t 256
      → Placed t 256 0
      → Side u 256
      → Placed u 256 0
      → ((p : ℕ) → p < 2 ^ 256 → read_root t p ≡ read_root u p)
      → root_hash inter default compact t ≡ root_hash inter default compact u
  root_hash-read_root t u s f r g same_reads =
      root_hash-merkle t s f
      ∙ ap ok (
          merkle_eq inter default compact (holds t 256) (holds u 256) 256 0 (λ p e.
            found_eq (get t 256 p) (get u 256 p)
              (sym (read_root-get t p s) ∙ same_reads p (shr_bound p 256 e) ∙ read_root-get u p r)))
      ∙ sym (root_hash-merkle u r g)
