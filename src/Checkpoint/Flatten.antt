-- ===== src/Checkpoint/Flatten.antt =====
-- FlattenForest of ledger/forest/light_forest.go, with ToLightNode and ToLightTrie of ledger/trie. A
-- node is an object at an address, since the index of FlattenForest has pointers for its keys; the
-- address of nil is 0. The order in which the iterator passes the nodes of a trie is an argument.
pub mod Sound
pub mod Turned
pub mod Steps
pub mod RoundTrip
use flow_dps.Base.{
  ℕ, zero, suc, ◌+◌, Bool, true, false, Option, none, some, List, [], ◌∷◌, ◌++◌, if◌then◌else◌,
}
use flow_dps.Base.Outcome.{Result, ok, err, other}
use flow_dps.Base.Outcome.Steps.{◌>>=◌, ◌>>◌}
use flow_dps.Base.Store.{Store, lookup, insert}
use flow_dps.Storage.Encoding.{big_endian}
use flow_dps.Checkpoint.{LightForest}
use flow_dps.Checkpoint.Light.{Formats, LightNode, LightTrie}

-- A node in memory: its children by their addresses, its hash, and whether that is clean.
pub data Object (P : Type 0) : Type 0 where
  leaf_at : ℕ → P → ℕ → Bool → Object P
  branch_at : ℕ → ℕ → ℕ → Bool → Object P
  extension_at : ℕ → ℕ → ℕ → ℕ → Bool → Object P

abbrev pub missing : ℕ
missing = 2

abbrev pub dirty : ℕ
dirty = 3

-- index[node], where it has to be found.
abbrev pub found : Option ℕ → Result ℕ
found none = err (other missing)
found (some j) = ok j

abbrev pub when_clean : {A : Type 0} → Bool → Result A → Result A
when_clean true r = r
when_clean false r = err (other dirty)

-- The variables of FlattenForest.
pub record Flattening : Type 0 where
  pub index : Store ℕ
  pub count : ℕ
  pub nodes : List (Option LightNode)

unfoldable pub start : Flattening
start = record { index = (0, 0) ∷ []; count = 1; nodes = none ∷ [] }

-- A trie: the nodes in the iterator's order, and the address of its root.
pub record Tree : Type 0 where
  pub order : List ℕ
  pub root : ℕ

abbrev pub object_hash : {P : Type 0} → Object P → ℕ
object_hash (leaf_at q v h clean) = h
object_hash (branch_at x y h clean) = h
object_hash (extension_at q n x h clean) = h

-- RootHash of a trie whose nodes are clean, with the hash of an empty trie.
abbrev pub root_hash_at : {P : Type 0} → ℕ → (ℕ → Object P) → ℕ → ℕ
root_hash_at default heap zero = default
root_hash_at default heap (suc a) = object_hash (heap (suc a))

unfoldable pub to_light_trie : ℕ → ℕ → Store ℕ → Result LightTrie
to_light_trie root root_hash index = do
  root_index ← found (lookup root index)
  ok (record { root_index = root_index; root_hash = big_endian 32 root_hash })

-- The parameter is the hash of a leaf at the height 0, which a leaf that is not clean gets.
module _ {P : Type 0} (F : Formats P) (compact : ℕ → P → ℕ) (default : ℕ) where
  unfoldable pub to_light_node : Object P → Store ℕ → Result LightNode
  to_light_node (branch_at left right hash clean) index = when_clean clean (do
    l_index ← found (lookup left index)
    r_index ← found (lookup right index)
    ok (record {
      l_index = l_index;
      r_index = r_index;
      hash_value = big_endian 32 hash;
      payload = [];
      path = [];
      count = 0;
    }))
  to_light_node (extension_at path count child hash clean) index = when_clean clean (do
    l_index ← found (lookup child index)
    ok (record {
      l_index = l_index;
      r_index = 0;
      hash_value = big_endian 32 hash;
      payload = [];
      path = big_endian 32 path;
      count = count;
    }))
  to_light_node (leaf_at path payload hash clean) index = ok (record {
    l_index = 0;
    r_index = 0;
    hash_value = big_endian 32 (if clean then hash else compact path payload);
    payload = F.encode_payload payload;
    path = big_endian 32 path;
    count = 0;
  })

  abbrev pub append_node : Flattening → ℕ → Result LightNode → Result Flattening
  append_node f address (err e) = err e
  append_node f address (ok light) = ok (record {
    index = insert address f.count f.index;
    count = f.count + 1;
    nodes = f.nodes ++ some light ∷ [];
  })

  abbrev pub add_node : (ℕ → Object P) → ℕ → Flattening → Option ℕ → Result Flattening
  add_node heap address f (some j) = ok f
  add_node heap address f none =
      append_node f address (to_light_node (heap address) (insert address f.count f.index))

  -- The loop over the nodes that the iterator passes.
  unfoldable pub flatten_nodes : (ℕ → Object P) → List ℕ → Flattening → Result Flattening
  flatten_nodes heap [] f = ok f
  flatten_nodes heap (address ∷ order) f = do
    g ← add_node heap address f (lookup address f.index)
    flatten_nodes heap order g

  -- The loop over the tries.
  unfoldable pub flatten_trees :
      (ℕ → Object P) → List Tree → Flattening → List LightTrie → Result LightForest
  flatten_trees heap [] f tries = ok (record { nodes = f.nodes; tries = tries })
  flatten_trees heap (t ∷ ts) f tries = do
    g ← flatten_nodes heap t.order f
    light_trie ← to_light_trie t.root (root_hash_at default heap t.root) g.index
    flatten_trees heap ts g (tries ++ light_trie ∷ [])

  unfoldable pub flatten_forest : (ℕ → Object P) → List Tree → Result LightForest
  flatten_forest heap trees = flatten_trees heap trees start []
