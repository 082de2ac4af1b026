-- ===== src/Checkpoint/Flatten/Steps.antt =====
-- The loop of FlattenForest over the nodes of a trie.
use flow_dps.Base.{
  ℕ, ◌+◌, ◌<◌, ◌==◌, ◌≡◌, ◌≢◌, inl, inr, refl, sym, ap, ◌∙◌, subst, true, Option, none, some, List,
  [], ◌∷◌, ◌++◌, length, length-append, arith, Bool-cases, ==_iff, some_eq,
}
use flow_dps.Base.Outcome.{Result, ok}
use flow_dps.Base.Store.{lookup, insert, lookup-insert}
use flow_dps.Checkpoint.Light.{Formats, LightNode}
use flow_dps.Checkpoint.Rebuild.{HashedNode, at, Arrays, from_light_node, rebuild_nodes}
use flow_dps.Checkpoint.Flatten.{Object, Flattening, add_node, append_node, flatten_nodes}
use flow_dps.Checkpoint.Flatten.Sound.{
  Restores, at-append, at-snoc, rebuild_from-snoc, Represents, IsSound, IsReady, DescendantsFirst,
  onto, Indexed, Indexed-insert,
}
use flow_dps.Checkpoint.Flatten.Turned.{turned}

module _ {P : Type 0} (F : Formats P) (R : Arrays) (law : Restores F R) (compact : ℕ → P → ℕ)
    (heap : ℕ → Object P) where
  pub append_node-tree_at :
      (f : Flattening) (nodes : List (HashedNode P)) (a : ℕ) (node : HashedNode P)
      → IsSound F R heap f nodes
      → Represents heap a node
      → (b j : ℕ) → lookup b (insert a f.count f.index) ≡ some j
      → (t : HashedNode P) × (at (nodes ++ node ∷ []) j ≡ ok t)
        × Represents heap b t
        × (b ≢ 0 → j ≢ 0)
  append_node-tree_at f nodes a node sound rep b j e = elim (Bool-cases (a == b)) [
    | inl q ↦
        let here : some f.count ≡ some j =
          (sym ((rw (lookup-insert a b f.count f.index, q)))) ∙ e in
        let count_j : f.count ≡ j = some_eq here in
        (
          node,
          ap (at (nodes ++ node ∷ [])) (sym (sound.size ∙ count_j)) ∙ at-snoc nodes node,
          subst (λ x. Represents heap x node) ((==_iff a b).0 q) rep,
          λ _ z. omega (arith, count_j, z, sound.positive),
        )
    | inr q ↦
        let (t, at_j, r, z) =
          sound.tree_at b j ((sym ((rw (lookup-insert a b f.count f.index, q)))) ∙ e) in
        (t, at-append nodes (node ∷ []) j t at_j, r, z)
  ]

  pub append_node-IsSound :
      (f : Flattening) (nodes : List (HashedNode P)) (a : ℕ) (light : LightNode)
      (node : HashedNode P)
      → IsSound F R heap f nodes
      → from_light_node F R light nodes ≡ ok node
      → Represents heap a node
      → light.l_index < length nodes
      → light.r_index < length nodes
      → IsSound F R heap
          (record {
            index = insert a f.count f.index;
            count = f.count + 1;
            nodes = f.nodes ++ some light ∷ [];
          })
          (nodes ++ node ∷ [])
  unfolding rebuild_nodes
  append_node-IsSound f nodes a light node sound back rep hl hr = record {
    built =
        rebuild_from-snoc F R f.nodes 0 [] nodes light node sound.built
          (omega (arith, hl, sound.size, sound.light_size))
          (omega (arith, hr, sound.size, sound.light_size)) back;
    size = omega (arith, length-append nodes (node ∷ []), sound.size);
    positive = omega arith;
    light_size = omega (arith, length-append f.nodes (some light ∷ []), sound.light_size);
    tree_at = append_node-tree_at f nodes a node sound rep;
  }

  abbrev pub Grows : List (HashedNode P) → List (HashedNode P) → Type 0
  Grows before nodes = (j : ℕ) (t : HashedNode P) → at before j ≡ ok t → at nodes j ≡ ok t

  -- What the loop keeps, from the nodes `before`.
  abbrev pub Kept : List (HashedNode P) → List ℕ → Result Flattening → Type 0
  Kept before seen r =
      (g : Flattening) × (nodes : List (HashedNode P)) × (r ≡ ok g)
      × IsSound F R heap g nodes
      × Indexed heap g.index seen
      × Grows before nodes

  pub add_node-Kept :
      (f : Flattening) (nodes : List (HashedNode P)) (seen : List ℕ) (a : ℕ) (o : Option ℕ)
      → IsSound F R heap f nodes
      → Indexed heap f.index seen
      → lookup a f.index ≡ o
      → a ≢ 0
      → IsReady heap seen (heap a)
      → Kept nodes (a ∷ seen) (add_node F compact (R.default_hash) heap a f o)
  add_node-Kept f nodes seen a (some j) sound idx e nz ready =
      (f, nodes, refl, sound, ((j, e), idx), λ k t q. q)
  add_node-Kept f nodes seen a none sound idx e nz ready =
      let (light, node, forth, back, rep, hl, hr) =
        turned F R law compact heap f nodes seen a f.count (heap a) sound idx e
          (omega (arith, sound.positive, sound.size)) nz refl ready in
      (
        record {
          index = insert a f.count f.index;
          count = f.count + 1;
          nodes = f.nodes ++ some light ∷ [];
        },
        nodes ++ node ∷ [],
        ap (append_node F compact (R.default_hash) f a) forth,
        append_node-IsSound f nodes a light node sound back rep hl hr,
        (
          (f.count, (rw (lookup-insert a a f.count f.index, same a))),
          Indexed-insert heap f.index seen a f.count e idx,
        ),
        λ k t q. at-append nodes (node ∷ []) k t q,
      )
    where
      same : (x : ℕ) → (x == x) ≡ true
      same x = ground arith

  -- The loop over a sequence in which descendants come first succeeds.
  pub flatten_nodes-Kept :
      (order seen : List ℕ) (f : Flattening) (nodes : List (HashedNode P))
      → IsSound F R heap f nodes
      → Indexed heap f.index seen
      → DescendantsFirst heap seen order
      → Kept nodes (onto heap order seen) (flatten_nodes F compact (R.default_hash) heap order f)
  unfolding flatten_nodes
  flatten_nodes-Kept [] seen f nodes sound idx d = (f, nodes, refl, sound, idx, λ k t q. q)
  flatten_nodes-Kept (a ∷ order) seen f nodes sound idx d =
      let (g, ms, e, sound', idx', more) =
        add_node-Kept f nodes seen a (lookup a f.index) sound idx refl d.0 d.1 in
      let (h, ks, e', s', i', more') = flatten_nodes-Kept order (a ∷ seen) g ms sound' idx' d.2 in
      (h, ks, (rw e) ∙ e', s', i', λ k t q. more' k t (more k t q))
