-- ===== src/Scenarios/Flattening.antt =====
-- A trie with two leaves, flattened and rebuilt.
use flow_dps.Base.{ℕ, zero, suc, ◌≡◌, refl, arith, inl, inr, true, List, [], ◌∷◌}
use flow_dps.Base.Outcome.{ok}
use flow_dps.Storage.Encoding.{big_endian}
use flow_dps.Storage.Encoding.Order.{length-big_endian, read_number-big_endian}
use flow_dps.Storage.Entries.{IsArray}
use flow_dps.Checkpoint.{LightForest}
use flow_dps.Checkpoint.Rebuild.{HashedNode, rebuild_tries}
use flow_dps.Checkpoint.Flatten.{Object, leaf_at, branch_at, extension_at, Tree, flatten_forest}
use flow_dps.Checkpoint.Flatten.Sound.{Restores}
use flow_dps.Checkpoint.Flatten.RoundTrip.{flatten_forest-rebuild_tries, AllRepresent}
use flow_dps.Scenarios.Checkpoints.{formats, arrays, path_of}

-- The leaves of two paths that part at the last bit but one; the extension has 254 bits.
abbrev heap : ℕ → Object (List ℕ)
heap zero = leaf_at 0 [] 0 true
heap (suc zero) = leaf_at 4 (40 ∷ []) 11 true
heap (suc (suc zero)) = leaf_at 6 (60 ∷ []) 12 true
heap (suc (suc (suc zero))) = branch_at 1 2 13 true
heap (suc (suc (suc (suc n)))) = extension_at 4 253 3 14 true

abbrev tree : Tree
tree = record { order = 1 ∷ 2 ∷ 3 ∷ 4 ∷ []; root = 4 }

path_of-big_endian : (x : ℕ) → IsArray x → path_of (big_endian 32 x) ≡ ok x
path_of-big_endian x h = rw (length-big_endian 32 x, read_number-big_endian 32 x h)

restores : Restores formats arrays
restores = record {
  hash_of_bytes = path_of-big_endian;
  path_of_bytes = path_of-big_endian;
  payload = λ p. refl;
}

flatten_forest-rebuild_tries_example :
    (lf : LightForest) × (roots : List (HashedNode (List ℕ))) × (flatten_forest formats
        (λ q v. 0)
        0
        heap
        (tree ∷ [])
      ≡ ok lf)
    × (rebuild_tries formats arrays lf ≡ ok roots)
    × AllRepresent heap (tree ∷ []) roots
flatten_forest-rebuild_tries_example =
    flatten_forest-rebuild_tries formats arrays restores (λ q v. 0) heap (tree ∷ [])
      (
        (
          (λ e. ground arith),
          (refl, omega arith, omega arith),
          (
            (λ e. ground arith),
            (refl, omega arith, omega arith),
            (
              (λ e. ground arith),
              (
                refl,
                omega arith,
                (λ e. ground arith),
                (λ e. ground arith),
                inr (inl refl),
                inl refl,
              ),
              (
                (λ e. ground arith),
                (refl, omega arith, omega arith, (λ e. ground arith), inl refl),
                tt,
              ),
            ),
          ),
        ),
        inl refl,
        tt,
      )
