-- ===== src/Trie/Hashing.antt =====
-- The hashes of branch.go, extension.go and leaf.go in ledger/trie, and RootHash of trie.go. The three
-- functions of the ledger's packages that they call are the section's parameters. A height is one more
-- than the code's, which counts from 255 down to -1 for a leaf below a branch. The cached hashes and
-- the semaphore are left out: the branch's sides are hashed in either order with the same result.
pub mod Merkle
pub mod Sides
pub mod Canonical
use flow_dps.Base.{ℕ, zero, suc, ◌+◌, ◌-◌, Bool, true, false, if◌then◌else◌}
use flow_dps.Base.Outcome.{panic, Result, ok, err}
use flow_dps.Trie.{Node, nil, leaf, branch, extension, bit}

abbrev pub is_leaf : {P : Type 0} → Node P → Bool
is_leaf (leaf q v) = true
is_leaf _ = false

-- HashInterNode, GetDefaultHashForHeight, and ComputeCompactValue at a height that is one more.
module _ {P H : Type 0} (inter : H → H → H) (default : ℕ → H) (compact : ℕ → P → ℕ → H) where
  abbrev pub both : Result H → Result H → Result H
  both (ok l) (ok r) = ok (inter l r)
  both (ok l) (err e) = err e
  both (err e) r = err e

  -- One bit of an extension: its side of the branch, and an empty side.
  abbrev pub one_sided : ℕ → ℕ → H → H
  one_sided q i x = if bit q i then inter (default i) x else inter x (default i)

  -- The loop over the bits of an extension, upwards from a height.
  unfoldable pub climb : ℕ → ℕ → ℕ → H → H
  climb zero i q x = x
  climb (suc m) i q x = climb m (suc i) q (one_sided q i x)

  abbrev climbed : Bool → ℕ → ℕ → ℕ → Result H → Result H
  climbed true m i q r = r
  climbed false m i q (ok x) = ok (climb m i q x)
  climbed false m i q (err e) = err e

  -- Hash of the three kinds of nodes; on nil, and below a leaf's height, the call panics.
  unfoldable pub node_hash : Node P → ℕ → Result H
  unfolding climb
  node_hash nil k = err panic
  node_hash (leaf q v) k = ok (compact q v k)
  node_hash (branch l r) zero = err panic
  node_hash (branch l r) (suc k) = both (node_hash l k) (node_hash r k)
  node_hash (extension q n c) k =
      climbed (is_leaf c) (suc n) (k - suc n) q
        (node_hash c (if is_leaf c then suc k else k - suc n))

  -- RootHash.
  unfoldable pub root_hash : Node P → Result H
  unfolding node_hash
  root_hash nil = ok (default 256)
  root_hash (leaf q v) = node_hash (leaf q v) 256
  root_hash (branch l r) = node_hash (branch l r) 256
  root_hash (extension q n c) = node_hash (extension q n c) 256
