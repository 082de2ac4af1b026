-- ===== src/Checkpoint/Rebuild.antt =====
-- RebuildNodes and RebuildTries of ledger/forest/light_forest.go, FromLightNode of
-- ledger/trie/light_node.go, and Trie of service/loader/checkpoint.go.
use flow_dps.Base.{
  ℕ, zero, suc, ◌==◌, leb, Bool, true, false, ◌||◌, ◌&&◌, not, Option, none, some, List, [], ◌∷◌,
  ◌++◌, length, if◌then◌else◌,
}
use flow_dps.Base.Outcome.{Result, ok, err, other, panic, hash_mismatch}
use flow_dps.Base.Outcome.Steps.{◌>>=◌}
use flow_dps.Storage.Encoding.{big_endian}
use flow_dps.Checkpoint.Light.{LightNode, LightTrie, Formats}
use flow_dps.Checkpoint.{LightForest}

-- The nodes of ledger/trie with the hashes they keep, all of them clean.
pub data HashedNode (P : Type 0) : Type 0 where
  nil : HashedNode P
  leaf : ℕ → P → ℕ → HashedNode P
  branch : HashedNode P → HashedNode P → ℕ → HashedNode P
  extension : ℕ → ℕ → HashedNode P → ℕ → HashedNode P

-- nodes[i]
abbrev pub at : {A : Type 0} → List A → ℕ → Result A
at [] i = err panic
at (a ∷ as_) zero = ok a
at (a ∷ as_) (suc i) = at as_ i

-- flow-go's hash.ToHash and ledger.ToPath, and GetDefaultHashForHeight of the height of a trie.
pub record Arrays : Type 0 where
  pub to_hash : List ℕ → Result ℕ
  pub to_path : List ℕ → Result ℕ
  pub default_hash : ℕ

-- The errors of the source that no caller tells apart.
abbrev pub disordered : ℕ
disordered = 1

module _ {P : Type 0} (F : Formats P) (R : Arrays) where
  abbrev to_branch : LightNode → List (HashedNode P) → ℕ → Result (HashedNode P)
  to_branch ln nodes hash = do
    left ← at nodes ln.l_index
    right ← at nodes ln.r_index
    ok (branch left right hash)

  abbrev to_extension : LightNode → List (HashedNode P) → ℕ → Result (HashedNode P)
  to_extension ln nodes hash = do
    path ← R.to_path ln.path
    child ← at nodes ln.l_index
    ok (extension path ln.count child hash)

  abbrev to_leaf : LightNode → ℕ → Result (HashedNode P)
  to_leaf ln hash = do
    path ← R.to_path ln.path
    payload ← F.decode_payload ln.payload
    ok (leaf path payload hash)

  unfoldable pub from_light_node : LightNode → List (HashedNode P) → Result (HashedNode P)
  from_light_node ln nodes = do
    hash ← R.to_hash ln.hash_value
    if not (ln.l_index == 0) && not (ln.r_index == 0)
        then to_branch ln nodes hash
        else (if not (ln.l_index == 0) then to_extension ln nodes hash else to_leaf ln hash)

  -- The loop of RebuildNodes from the index `i` on, with the nodes rebuilt so far.
  unfoldable pub rebuild_from :
      ℕ → List (HashedNode P) → List (Option LightNode) → Result (List (HashedNode P))
  rebuild_from i nodes [] = ok nodes
  rebuild_from i nodes (none ∷ light_nodes) = rebuild_from (suc i) (nodes ++ nil ∷ []) light_nodes
  rebuild_from i nodes (some ln ∷ light_nodes) =
      if leb i ln.l_index || leb i ln.r_index then err (other disordered) else (do
        node ← from_light_node ln nodes
        rebuild_from (suc i) (nodes ++ node ∷ []) light_nodes)

  unfoldable pub rebuild_nodes : List (Option LightNode) → Result (List (HashedNode P))
  rebuild_nodes light_nodes = rebuild_from 0 [] light_nodes

  -- RootHash of a trie whose nodes are clean.
  abbrev pub kept_hash : HashedNode P → ℕ
  kept_hash nil = R.default_hash
  kept_hash (leaf q v h) = h
  kept_hash (branch l r h) = h
  kept_hash (extension q n c h) = h

  -- bytes.Equal
  abbrev pub equal : List ℕ → List ℕ → Bool
  equal [] [] = true
  equal (a ∷ as_) (b ∷ bs) = let rest = equal as_ bs in if a == b then rest else false
  equal _ _ = false

  unfoldable pub rebuild_trie : List (HashedNode P) → LightTrie → Result (HashedNode P)
  rebuild_trie nodes lt = do
    root ← at nodes lt.root_index
    if equal (big_endian 32 (kept_hash root)) lt.root_hash then ok root else err hash_mismatch

  unfoldable pub rebuild_each : List (HashedNode P) → List LightTrie → Result (List (HashedNode P))
  rebuild_each nodes [] = ok []
  rebuild_each nodes (lt ∷ lts) = do
    root ← rebuild_trie nodes lt
    roots ← rebuild_each nodes lts
    ok (root ∷ roots)

  unfoldable pub rebuild_tries : LightForest → Result (List (HashedNode P))
  rebuild_tries light_forest = do
    nodes ← rebuild_nodes light_forest.nodes
    rebuild_each nodes light_forest.tries

  -- Trie of the checkpoint loader, after the checkpoint was read.
  abbrev pub only_trie : List (HashedNode P) → Result (HashedNode P)
  only_trie (root ∷ []) = ok root
  only_trie roots = err (other (length roots))

  unfoldable pub checkpoint_trie : Result LightForest → Result (HashedNode P)
  checkpoint_trie read = do checkpoint ← read; roots ← rebuild_tries checkpoint; only_trie roots
