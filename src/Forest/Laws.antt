-- ===== src/Forest/Laws.antt =====
-- What the queries of the forest answer after `add` and `reset`.
use flow_dps.Base.{ℕ, ◌≡◌, ◌==◌, true, false, none, some, List, arith, if◌then◌else◌}
use flow_dps.Base.Store.{lookup, lookup-insert, lookup-keep}
use flow_dps.Forest.{Step, Forest, add, has, tree_of, paths_of, parent_of, reset}

module _ {T : Type 0} where
  -- the step that `add` stores
  abbrev pub step_for : T → List ℕ → ℕ → Step T
  step_for tree paths parent = record { tree = tree; paths = paths; parent = parent }

  pub lookup-add :
      (root_hash : T → ℕ) (tree : T) (paths : List ℕ) (parent commit : ℕ) (f : Forest T)
      → lookup commit (add root_hash tree paths parent f).steps ≡ (
          if root_hash tree == commit
          then some (step_for tree paths parent)
          else lookup commit f.steps)
  unfolding add
  lookup-add root_hash tree paths parent commit f =
      lookup-insert (root_hash tree) commit (step_for tree paths parent) f.steps

  pub has-add :
      (root_hash : T → ℕ) (tree : T) (paths : List ℕ) (parent commit : ℕ) (f : Forest T)
      → has (add root_hash tree paths parent f) commit
        ≡ (if root_hash tree == commit then true else has f commit)
  unfolding has
  has-add root_hash tree paths parent commit f =
      ground (arith, lookup-add root_hash tree paths parent commit f)

  pub lookup-reset :
      (finalized commit : ℕ) (f : Forest T)
      → lookup commit (reset finalized f).steps
        ≡ (if commit == finalized then lookup commit f.steps else none)
  unfolding reset
  lookup-reset finalized commit f = lookup-keep (λ c. c == finalized) commit f.steps

  -- After a reset the forest answers for the finalized commitment as before, and has no other.
  pub reset_lem :
      (dummy finalized commit : ℕ) (f : Forest T)
      → (has (reset finalized f) commit ≡ (if commit == finalized then has f commit else false))
        × (tree_of (reset finalized f) finalized ≡ tree_of f finalized)
        × (paths_of (reset finalized f) finalized ≡ paths_of f finalized)
        × (parent_of dummy (reset finalized f) finalized ≡ parent_of dummy f finalized)
  unfolding has tree_of paths_of parent_of
  reset_lem dummy finalized commit f = (
    ground (arith, lookup-reset finalized commit f),
    ground (arith, lookup-reset finalized finalized f),
    ground (arith, lookup-reset finalized finalized f),
    ground (arith, lookup-reset finalized finalized f),
  )
