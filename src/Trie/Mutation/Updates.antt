-- ===== src/Trie/Mutation/Updates.antt =====
-- What Mutate of ledger/trie/trie.go promises to its callers: the reads of the new trie.
use flow_dps.Base.{
  ℕ, ◌^◌, ◌<◌, Option, none, some, List, [], ◌∷◌, ◌≡◌, ◌≢◌, refl, sym, ap, ◌∙◌, All, length, arith,
}
use flow_dps.Base.Outcome.{Result, ok}
use flow_dps.Base.Store.{lookup}
use flow_dps.Trie.{Node, nil, leaf, branch, extension, read_root}
use flow_dps.Trie.Lookup.{get, Shape, Side, Shape-Side, Shape-some}
use flow_dps.Trie.Bits.{shr_bound}
use flow_dps.Trie.Hashing.Merkle.{Placed}
use flow_dps.Trie.Reads.{found, read_root-get}
use flow_dps.Trie.Mutation.{Group, mutate, zip}
use flow_dps.Trie.Mutation.Outcomes.{updated}
use flow_dps.Trie.Mutation.Ordering.{named}
use flow_dps.Trie.Mutation.Sorting.{Distinct}
use flow_dps.Trie.Mutation.Roots.{Root, mutate_lem}

-- What is read where a payload may have been written.
abbrev pub read_over : {P : Type 0} → Option P → Result P → Result P
read_over (some v) r = ok v
read_over none r = r

module _ {P : Type 0} where
  pub Root-Side : (t : Node P) → Root t → Side t 256
  unfolding Root Shape
  Root-Side nil r = tt
  Root-Side (leaf q v) r = r
  Root-Side (branch l r) s = s
  Root-Side (extension q n c) s = s.1

  found-updated :
      (p : ℕ) (o : Option (ℕ × P)) (v : Option P)
      → found (updated (named p v) o) ≡ read_over v (found o)
  found-updated p o none = refl
  found-updated p o (some v) = refl

  named_path :
      (k q : ℕ) (x : Option P) (o : Option (ℕ × P)) (v : P)
      → (o ≡ some (q, v) → q ≡ k)
      → updated (named k x) o ≡ some (q, v)
      → q ≡ k
  named_path k q none o v old e = old e
  named_path k q (some x) o v old e = ground arith

  -- A trie that `mutate` returns for a group of paths, in full.
  abbrev pub Mutated : Node P → Group P → Result (Node P) → Type 0
  Mutated t g r =
      (u : Node P) × (r ≡ ok u)
      × Side u 256
      × Placed u 256 0
      × (t ≢ nil → Root u × (u ≢ nil))
      × ((k : ℕ) → k < 2 ^ 256 → read_root u k ≡ read_over (lookup k g) (read_root t k))

  pub mutate-Mutated :
      (t : Node P) (ps : List ℕ) (vs : List P)
      → Root t
      → Placed t 256 0
      → ps ≢ []
      → Distinct ps
      → All (λ p. p < 2 ^ 256) ps
      → length ps ≡ length vs
      → Mutated t (zip ps vs) (mutate t ps vs)
  mutate-Mutated t [] vs root placed given d b len = elim (given refl) [ ]
  mutate-Mutated t (p ∷ ps) [] root placed given d b len = ground arith
  mutate-Mutated t (p ∷ ps) (v ∷ vs) root placed given d b len =
      let (u, e, w) = mutate_lem t p ps v vs root d b (omega (arith, len)) in
      let new = λ (k : ℕ). lookup k (zip (p ∷ ps) (v ∷ vs)) in
      (
        u,
        e,
        Shape-Side u 256 w.0,
        λ k q x top g.
            named_path k q (new k) (get t 256 k) x (placed k q x top)
              (sym (w.1 k (shr_bound k 256 top)) ∙ g),
        λ full. (w.2 full, Shape-some u 256 w.0),
        λ k lt.
            read_root-get u k (Shape-Side u 256 w.0)
            ∙ ap found (w.1 k lt)
            ∙ found-updated k (get t 256 k) (new k)
            ∙ ap (read_over (new k)) (sym (read_root-get t k (Root-Side t root))),
      )

  -- Mutate of distinct paths of 32 bytes, with as many payloads, on a trie that is empty or well formed
  -- with its leaves at their own paths, and not a single leaf: it returns a trie, of which a read at a
  -- given path finds the new payload, and a read at any other path finds what it found before.
  pub mutate-read_root :
      (t : Node P) (ps : List ℕ) (vs : List P)
      → Root t
      → Placed t 256 0
      → ps ≢ []
      → Distinct ps
      → All (λ p. p < 2 ^ 256) ps
      → length ps ≡ length vs
      → (k : ℕ) → k < 2 ^ 256
      → (u : Node P) × (mutate t ps vs ≡ ok u)
        × (read_root u k ≡ read_over (lookup k (zip ps vs)) (read_root t k))
  mutate-read_root t ps vs root placed given d b len k lt =
      let m = mutate-Mutated t ps vs root placed given d b len in (m.0, m.1, m.5 k lt)

  -- Mutate keeps a trie well formed: from a trie that is neither empty nor a single leaf, and whose
  -- leaves stand at their own paths, it returns such a trie again, for distinct paths of 32 bytes with as
  -- many payloads.
  pub mutate-Root :
      (t : Node P) (ps : List ℕ) (vs : List P)
      → Root t
      → Placed t 256 0
      → t ≢ nil
      → ps ≢ []
      → Distinct ps
      → All (λ p. p < 2 ^ 256) ps
      → length ps ≡ length vs
      → (u : Node P) × (mutate t ps vs ≡ ok u) × Root u × (u ≢ nil) × Placed u 256 0
  mutate-Root t ps vs root placed full given d b len =
      let m = mutate-Mutated t ps vs root placed given d b len in
      (m.0, m.1, (m.4 full).0, (m.4 full).1, m.3)
