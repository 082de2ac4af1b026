-- ===== src/Mapper/Pathings.antt =====
-- pathings.go: the paths of a trie update, sorted and each once, and the last payload of each.
pub mod Laws
use flow_dps.Base.{ℕ, ltb, Option, none, some, List, [], ◌∷◌, ◌++◌, if◌then◌else◌}
use flow_dps.Base.Store.{Store, lookup, insert}
use flow_dps.Base.Outcome.{Result, ok, err, panic}

-- `sort.Slice` by `bytes.Compare`, on paths that are all different.
insert_sorted : ℕ → List ℕ → List ℕ
insert_sorted p [] = p ∷ []
insert_sorted p (q ∷ qs) = if ltb p q then p ∷ q ∷ qs else q ∷ insert_sorted p qs

sort_paths : List ℕ → List ℕ
unfolding insert_sorted
sort_paths [] = []
sort_paths (p ∷ ps) = insert_sorted p (sort_paths ps)

abbrev map_result : {Q R : Type 0} → (Q → R) → Result Q → Result R
map_result f (ok a) = ok (f a)
map_result f (err e) = err e

module _ {P : Type 0} where
  -- `if !ok { paths = append(paths, path) }`
  abbrev add_path : Option P → ℕ → List ℕ → List ℕ
  add_path none p paths = paths ++ p ∷ []
  add_path (some _) p paths = paths

  -- The first loop: the paths in the order of their first occurrence, and the map of payloads. An
  -- update with fewer payloads than paths indexes past the end of a slice.
  gather : List ℕ → List P → List ℕ → Store P → Result (List ℕ × Store P)
  gather [] payloads paths m = ok (paths, m)
  gather (p ∷ ps) [] paths m = err panic
  gather (p ∷ ps) (v ∷ vs) paths m = gather ps vs (add_path (lookup p m) p paths) (insert p v m)

  -- The second loop. Every path is in the map; a missing one would give the zero payload.
  payloads_for : List ℕ → Store P → List P
  payloads_for [] m = []
  payloads_for (p ∷ ps) m =
      let rest = payloads_for ps m in elim (lookup p m) [ none ↦ rest | some v ↦ v ∷ rest ]

  finish : List ℕ × Store P → List ℕ × List P
  unfolding sort_paths payloads_for
  finish (paths, m) = let sorted = sort_paths paths in (sorted, payloads_for sorted m)

  unfoldable pub paths_payloads : List ℕ → List P → Result (List ℕ × List P)
  unfolding gather finish
  paths_payloads paths payloads = map_result finish (gather paths payloads [] [])
