-- ===== src/Forest.antt =====
-- ledger/forest/forest.go: the tries that await indexing, by state commitment. A commitment and a
-- register path are 32 bytes, read as a number in big-endian order.
pub mod Laws
use flow_dps.Base.{ℕ, ◌==◌, Bool, true, false, Option, none, some, List, [], ◌∷◌}
use flow_dps.Base.Store.{Store, lookup, insert, keep}

pub record Step (T : Type 0) : Type 0 where
  pub tree : T
  pub paths : List ℕ
  pub parent : ℕ

pub record Forest (T : Type 0) : Type 0 where
  pub steps : Store (Step T)

module _ {T : Type 0} where
  abbrev pub new : Forest T
  new = record { steps = [] }

  unfoldable pub add : (T → ℕ) → T → List ℕ → ℕ → Forest T → Forest T
  add root_hash tree paths parent f =
      let commit = root_hash tree in
      let s : Step T = record { tree = tree; paths = paths; parent = parent } in
      record { steps = insert commit s f.steps }

  abbrev is_some : Option (Step T) → Bool
  is_some none = false
  is_some (some s) = true

  unfoldable pub has : Forest T → ℕ → Bool
  has f commit = is_some (lookup commit f.steps)

  unfoldable pub tree_of : Forest T → ℕ → Option T
  tree_of f commit = elim (lookup commit f.steps) [ none ↦ none | some s ↦ some s.tree ]

  -- `nil`, or the dummy commitment of flow-go, beside `false` for a missing commitment
  unfoldable pub paths_of : Forest T → ℕ → List ℕ × Bool
  paths_of f commit = elim (lookup commit f.steps) [ none ↦ ([], false) | some s ↦ (s.paths, true) ]

  unfoldable pub parent_of : ℕ → Forest T → ℕ → ℕ × Bool
  parent_of dummy f commit = elim (lookup commit f.steps) [
    | none ↦ (dummy, false)
    | some s ↦ (s.parent, true)
  ]

  unfoldable pub reset : ℕ → Forest T → Forest T
  reset finalized f = record { steps = keep (λ commit _. commit == finalized) f.steps }

  trees_in : Store (Step T) → List T
  trees_in [] = []
  trees_in ((_, s) ∷ rest) = s.tree ∷ trees_in rest

  pub trees : Forest T → List T
  trees f = trees_in f.steps
