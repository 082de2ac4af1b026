-- ===== src/Trie/Leaves.antt =====
-- Leaves and Paths of ledger/trie/trie.go: the walk over all leaves. The queue's back is the head of
-- the list; each round takes a node off it, so as many rounds as there are nodes are enough.
pub mod Complete
use flow_dps.Base.{ℕ, zero, suc, ◌+◌, List, [], ◌∷◌}
use flow_dps.Base.Outcome.{out_of_fuel, Result, ok, err}
use flow_dps.Trie.{Node, nil, leaf, branch, extension}

module _ {P : Type 0} where
  abbrev pub with_leaf : ℕ × P → Result (List (ℕ × P)) → Result (List (ℕ × P))
  with_leaf x (ok xs) = ok (x ∷ xs)
  with_leaf x (err e) = err e

  unfoldable pub drain : ℕ → List (Node P) → Result (List (ℕ × P))
  drain fuel [] = ok []
  drain zero (t ∷ queue) = err out_of_fuel
  drain (suc fuel) (nil ∷ queue) = drain fuel queue
  drain (suc fuel) (leaf q v ∷ queue) = with_leaf (q, v) (drain fuel queue)
  drain (suc fuel) (branch l r ∷ queue) = drain fuel (r ∷ l ∷ queue)
  drain (suc fuel) (extension q n c ∷ queue) = drain fuel (c ∷ queue)

  -- Leaves.
  unfoldable pub leaves : ℕ → Node P → Result (List (ℕ × P))
  unfolding drain
  leaves fuel nil = drain fuel []
  leaves fuel (leaf q v) = drain fuel (leaf q v ∷ [])
  leaves fuel (branch l r) = drain fuel (branch l r ∷ [])
  leaves fuel (extension q n c) = drain fuel (extension q n c ∷ [])

  abbrev first_of : List (ℕ × P) → List ℕ
  first_of [] = []
  first_of ((q, v) ∷ xs) = q ∷ first_of xs

  abbrev path_list : Result (List (ℕ × P)) → Result (List ℕ)
  path_list (ok xs) = ok (first_of xs)
  path_list (err e) = err e

  -- Paths, the same walk.
  unfoldable pub all_paths : ℕ → Node P → Result (List ℕ)
  unfolding leaves
  all_paths fuel t = path_list (leaves fuel t)

  -- How many nodes a trie has.
  unfoldable pub size : Node P → ℕ
  size nil = 1
  size (leaf q v) = 1
  size (branch l r) = suc (size l + size r)
  size (extension q n c) = suc (size c)
