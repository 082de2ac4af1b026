-- ===== src/Checkpoint/Flatten/RoundTrip.antt =====
-- FlattenForest and then RebuildTries.
use flow_dps.Base.{
  ℕ, zero, suc, ◌==◌, ◌≡◌, ◌≢◌, refl, sym, ap, ◌∙◌, true, Option, none, some, List, [], ◌∷◌, ◌++◌,
  if◌then◌else◌, arith, some_eq,
}
use flow_dps.Base.Outcome.{Result, ok}
use flow_dps.Base.Store.{lookup}
use flow_dps.Storage.Encoding.{big_endian}
use flow_dps.Checkpoint.{LightForest}
use flow_dps.Checkpoint.Light.{Formats, LightNode, LightTrie}
use mathlib.Core.List.{append_assoc, append-nil}
use flow_dps.Checkpoint.Rebuild.{
  HashedNode, nil, leaf, branch, extension, at, Arrays, rebuild_from, rebuild_nodes, kept_hash,
  equal, rebuild_trie, rebuild_each, rebuild_tries,
}
use flow_dps.Checkpoint.Flatten.{
  Object, Flattening, Tree, object_hash, root_hash_at, flatten_trees, flatten_forest, to_light_trie,
  start,
}
use flow_dps.Checkpoint.Flatten.Sound.{
  Restores, Represents, IsSound, IsSeen, DescendantsFirst, onto, Indexed, seen_index,
}
use flow_dps.Checkpoint.Flatten.Steps.{Grows, flatten_nodes-Kept}

module _ {P : Type 0} (heap : ℕ → Object P) where
  -- The tries in sequence: descendants first in each, and its root among the nodes seen, or nil.
  abbrev pub ForestFirst : List ℕ → List Tree → Type 0
  ForestFirst seen [] = Unit
  ForestFirst seen (t ∷ ts) =
      DescendantsFirst heap seen t.order
      × IsSeen heap (onto heap t.order seen) t.root
      × ForestFirst (onto heap t.order seen) ts

  abbrev pub AllRepresent : List Tree → List (HashedNode P) → Type 0
  AllRepresent [] [] = Unit
  AllRepresent (t ∷ ts) (r ∷ rs) = Represents heap t.root r × AllRepresent ts rs
  AllRepresent _ _ = ⊥

module _ {P : Type 0} (F : Formats P) (R : Arrays) (law : Restores F R) (compact : ℕ → P → ℕ)
    (heap : ℕ → Object P) where
  kept_hash-Represents :
      (a : ℕ) (t : HashedNode P)
      → Represents heap a t
      → kept_hash F R t ≡ root_hash_at (R.default_hash) heap a
  kept_hash-Represents zero nil r = refl
  kept_hash-Represents (suc a) nil r = ground arith
  kept_hash-Represents zero (leaf q v h) r = absurd (r.0 refl)
  kept_hash-Represents zero (branch t u h) r = absurd (r.0 refl)
  kept_hash-Represents zero (extension q n t h) r = absurd (r.0 refl)
  kept_hash-Represents (suc a) (leaf q v h) r = ap object_hash (sym r.1)
  kept_hash-Represents (suc a) (branch t u h) (nz, x, y, e, rt, ru) = ap object_hash (sym e)
  kept_hash-Represents (suc a) (extension q n t h) (nz, x, e, rest) = ap object_hash (sym e)

  equal_refl : (b : List ℕ) → equal F R b b ≡ true
  equal_refl [] = refl
  equal_refl (x ∷ b) = ground (arith, equal_refl b)

  rebuild_trie-root :
      (nodes : List (HashedNode P)) (a j : ℕ) (t : HashedNode P)
      → at nodes j ≡ ok t
      → Represents heap a t
      → rebuild_trie F R nodes (record {
        root_index = j;
        root_hash = big_endian 32 (root_hash_at (R.default_hash) heap a);
      })
        ≡ ok t
  unfolding rebuild_trie
  rebuild_trie-root nodes a j t at_j r = rw (
    at_j,
    kept_hash-Represents a t r,
    equal_refl (big_endian 32 (root_hash_at (R.default_hash) heap a)),
  )

  -- The forest that the loop over the tries ends with, after the light tries `tries`.
  abbrev Flattened : List (HashedNode P) → List Tree → List LightTrie → Result LightForest → Type 0
  Flattened before ts tries r =
      (nodes : List (HashedNode P)) × (lights : List (Option LightNode)) × (new : List LightTrie)
      × (roots : List (HashedNode P)) × (r ≡ ok (record { nodes = lights; tries = tries ++ new }))
      × (rebuild_nodes F R lights ≡ ok nodes)
      × Grows F R law compact heap before nodes
      × (rebuild_each F R nodes new ≡ ok roots)
      × AllRepresent heap ts roots

  flatten_trees-Flattened :
      (ts : List Tree) (seen : List ℕ) (f : Flattening) (nodes : List (HashedNode P))
      (tries : List LightTrie)
      → IsSound F R heap f nodes
      → Indexed heap f.index seen
      → ForestFirst heap seen ts
      → Flattened nodes ts tries (flatten_trees F compact (R.default_hash) heap ts f tries)
  unfolding flatten_trees to_light_trie rebuild_each
  flatten_trees-Flattened [] seen f nodes tries sound idx d = (
    nodes,
    f.nodes,
    [],
    [],
    ap (λ l. ok (record { nodes = f.nodes; tries = l })) (sym (append-nil tries)),
    sound.built,
    (λ k t q. q),
    refl,
    tt,
  )
  flatten_trees-Flattened (t ∷ ts) seen f nodes tries sound idx d =
      let (g, ms, e, sound', idx', more) =
        flatten_nodes-Kept F R law compact heap t.order seen f nodes sound idx d.0 in
      let (j, ej) = seen_index heap g.index (onto heap t.order seen) t.root idx' d.1 in
      let (r, at_j, rep, _) = sound'.tree_at t.root j ej in
      let lt : LightTrie = record {
        root_index = j;
        root_hash = big_endian 32 (root_hash_at (R.default_hash) heap t.root);
      } in
      let (ks, lights, new, roots, e', built, more', each, all) =
        flatten_trees-Flattened ts (onto heap t.order seen) g ms (tries ++ lt ∷ []) sound' idx'
          d.2 in
      (
        ks,
        lights,
        lt ∷ new,
        r ∷ roots,
        (rw (e, ej))
            ∙ e'
            ∙ ap (λ l. ok (record { nodes = lights; tries = l }))
                (append_assoc tries (lt ∷ []) new),
        built,
        (λ k x q. more' k x (more k x q)),
        (rw (rebuild_trie-root ks t.root j r (more' j r at_j) rep, each)),
        (rep, all),
      )

  start-IsSound : IsSound F R heap start (nil ∷ [])
  unfolding start rebuild_nodes rebuild_from lookup
  start-IsSound = record {
    built = refl;
    size = refl;
    positive = omega arith;
    light_size = refl;
    tree_at = at_start;
  }
    where
      at_start :
          (a j : ℕ)
          → (if 0 == a then some 0 else none) ≡ some j
          → (t : HashedNode P) × (at (nil ∷ []) j ≡ ok t) × Represents heap a t × (a ≢ 0 → j ≢ 0)
      at_start zero j e = (nil, ap (at (nil ∷ [])) (sym (some_eq e)), refl, λ n. absurd (n refl))
      at_start (suc a) j e = ground arith

  start_index : Indexed heap (start.index) (0 ∷ [])
  unfolding start lookup
  start_index = ((0, refl), tt)

  -- Flattening tries succeeds if in the order of the iterator descendants come first, all nodes are
  -- clean, and each root is among the nodes passed, or nil; and RebuildTries makes of the result, in
  -- the same order, the tries that were flattened.
  pub flatten_forest-rebuild_tries :
      (ts : List Tree)
      → ForestFirst heap (0 ∷ []) ts
      → (lf : LightForest) × (roots : List (HashedNode P)) × (flatten_forest F compact
            (R.default_hash)
            heap
            ts
          ≡ ok lf)
        × (rebuild_tries F R lf ≡ ok roots)
        × AllRepresent heap ts roots
  unfolding flatten_forest rebuild_tries
  flatten_forest-rebuild_tries ts d =
      let (nodes, lights, new, roots, e, built, more, each, all) =
        flatten_trees-Flattened ts (0 ∷ []) start (nil ∷ []) [] start-IsSound start_index d in
      (record { nodes = lights; tries = new }, roots, e, (rw (built, each)), all)
