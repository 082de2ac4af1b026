-- ===== src/Trie/Orders.antt =====
-- Several calls of Mutate, in either order, and the root hash: ledger/trie as its callers see it.
use flow_dps.Base.{
  ℕ, suc, ◌^◌, ◌<◌, ◌==◌, false, none, List, [], ◌∷◌, ◌≡◌, ◌≢◌, refl, sym, ap, ◌∙◌, All, contains,
  length, subst, Bool-cases, inl, inr, ==_iff, arith,
}
use flow_dps.Base.Outcome.{Result, ok, err}
use flow_dps.Base.Store.{lookup}
use flow_dps.Trie.{Node, nil, read_root}
use flow_dps.Trie.Lookup.{Side}
use flow_dps.Trie.Mutation.{mutate, zip}
use flow_dps.Trie.Mutation.Sorting.{Distinct, lookup-zip}
use flow_dps.Trie.Mutation.Roots.{Root}
use flow_dps.Trie.Mutation.Updates.{read_over, mutate-Mutated}
use flow_dps.Trie.Hashing.{one_sided, root_hash}
use flow_dps.Trie.Hashing.Merkle.{Placed}
use flow_dps.Trie.Hashing.Canonical.{root_hash-read_root}

module _ {P : Type 0} where
  -- A second call of Mutate on the trie that the first one returns.
  abbrev pub and_mutate : Result (Node P) → List ℕ → List P → Result (Node P)
  and_mutate (ok t) ps vs = mutate t ps vs
  and_mutate (err e) ps vs = err e

  -- What Mutate asks of its arguments.
  abbrev pub Batch : List ℕ → List P → Type 0
  Batch ps vs = (ps ≢ []) × Distinct ps × All (λ p. p < 2 ^ 256) ps × (length ps ≡ length vs)

  either_order :
      (k : ℕ) (ps qs : List ℕ) (vs ws : List P) (r : Result P)
      → All (λ p. contains p qs ≡ false) ps
      → read_over (lookup k (zip qs ws)) (read_over (lookup k (zip ps vs)) r)
        ≡ read_over (lookup k (zip ps vs)) (read_over (lookup k (zip qs ws)) r)
  unfolding lookup
  either_order k [] qs vs ws r a = refl
  either_order k (p ∷ ps) qs [] ws r a = refl
  either_order k (p ∷ ps) qs (v ∷ vs) ws r a = elim (Bool-cases (p == k)) [
    | inl e ↦
        let none_here : lookup k (zip qs ws) ≡ none =
          lookup-zip k qs ws (subst (λ x. contains x qs ≡ false) ((==_iff p k).0 e) a.0) in
        ground (arith, none_here)
    | inr e ↦ ground (arith, either_order k ps qs vs ws r a.1)
  ]

  both_batches :
      (t : Node P) (ps qs : List ℕ) (vs ws : List P)
      → Root t
      → Placed t 256 0
      → t ≢ nil
      → Batch ps vs
      → Batch qs ws
      → (u : Node P) × (and_mutate (mutate t ps vs) qs ws ≡ ok u)
        × Side u 256
        × Placed u 256 0
        × ((k : ℕ)
            → k < 2 ^ 256
            → read_root u k
              ≡ read_over (lookup k (zip qs ws)) (read_over (lookup k (zip ps vs)) (read_root t k)))
  both_batches t ps qs vs ws root placed full a b =
      let (x, e, sx, px, rx, readx) = mutate-Mutated t ps vs root placed a.0 a.1 a.2 a.3 in
      let (u, f, su, pu, ru, readu) = mutate-Mutated x qs ws (rx full).0 px b.0 b.1 b.2 b.3 in
      (
        u,
        ap (λ r. and_mutate r qs ws) e ∙ f,
        su,
        pu,
        λ k lt. readu k lt ∙ ap (read_over (lookup k (zip qs ws))) (readx k lt),
      )

module _ {P H : Type 0} (inter : H → H → H) (default : ℕ → H) (compact : ℕ → P → ℕ → H)
    (rise : (q : ℕ) (v : P) (h : ℕ)
      → compact q v (suc (suc h)) ≡ one_sided inter default compact q h (compact q v (suc h)))
    (bottom : (q : ℕ) (v : P) → compact q v 1 ≡ compact q v 0)
    (absent : (h : ℕ) → default (suc h) ≡ inter (default h) (default h)) where
  -- Two batches of updates that have no path in common give the same root hash in either order: both
  -- orders succeed on a trie that is well formed with its leaves at their own paths and neither empty
  -- nor a single leaf, where each batch has distinct paths of 32 bytes and as many payloads.
  pub mutate-either_order :
      (t : Node P) (ps qs : List ℕ) (vs ws : List P)
      → Root t
      → Placed t 256 0
      → t ≢ nil
      → Batch ps vs
      → Batch qs ws
      → All (λ p. contains p qs ≡ false) ps
      → (u v : Node P) × (and_mutate (mutate t ps vs) qs ws ≡ ok u)
        × (and_mutate (mutate t qs ws) ps vs ≡ ok v)
        × (root_hash inter default compact u ≡ root_hash inter default compact v)
  mutate-either_order t ps qs vs ws root placed full a b apart =
      let (u, e, su, pu, readu) = both_batches t ps qs vs ws root placed full a b in
      let (v, f, sv, pv, readv) = both_batches t qs ps ws vs root placed full b a in
      (
        u,
        v,
        e,
        f,
        root_hash-read_root inter default compact rise bottom absent u v su pu sv pv (λ k lt.
            readu k lt ∙ either_order k ps qs vs ws (read_root t k) apart ∙ sym (readv k lt)),
      )
