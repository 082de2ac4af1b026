-- ===== src/Tracker/Catchup.antt =====
-- service/initializer/catchup_blocks.go: the blocks whose execution records are still to be
-- downloaded. `finalized` at the greatest uint64 would make the loop endless; heights stay below it.
use flow_dps.Base.{
  ℕ, zero, suc, ◌+◌, ◌-◌, ◌^◌, ◌≤◌, ◌<◌, leb, ◌≡◌, refl, List, [], ◌∷◌, arith, next_height,
  if◌then◌else◌, true, ◌∙◌, ap, Bool-cases, inl, inr,
}
use flow_dps.Base.Outcome.{not_found, out_of_fuel, Result, ok, err}

abbrev then_cons : Result ℕ → Result (List ℕ) → Result (List ℕ)
then_cons (ok id) (ok ids) = ok (id ∷ ids)
then_cons (ok id) (err e) = err e
then_cons (err e) rest = err e

-- The loop from `height` up to `finalized`, on fuel.
unfoldable collect_blocks : (ℕ → Result ℕ) → ℕ → ℕ → ℕ → Result (List ℕ)
collect_blocks block_at zero height finalized = err out_of_fuel
collect_blocks block_at (suc fuel) height finalized =
    let rest = collect_blocks block_at fuel (next_height height) finalized in
    if leb height finalized then then_cons (block_at height) rest else ok []

-- From the height after the last indexed one; there are at most `finalized + 1` rounds and one more
-- test.
from_indexed : (ℕ → Result ℕ) → Result ℕ → ℕ → Result (List ℕ)
unfolding collect_blocks
from_indexed block_at (ok finalized) indexed =
    collect_blocks block_at (finalized + 2) (next_height indexed) finalized
from_indexed block_at (err not_found) indexed = ok []
from_indexed block_at (err e) indexed = err e

from_root : (ℕ → Result ℕ) → Result ℕ → Result ℕ → Result (List ℕ)
unfolding from_indexed
from_root block_at (ok root) finalized = from_indexed block_at finalized root
from_root block_at (err not_found) finalized = ok []
from_root block_at (err e) finalized = err e

-- CatchupBlocks: the answers of the index reader for the last height and of the protocol state for
-- the root height, the finalized height and the block at a height. A missing key of either
-- database is `not_found`.
unfoldable pub catchup_blocks : Result ℕ → Result ℕ → Result ℕ → (ℕ → Result ℕ) → Result (List ℕ)
unfolding from_root from_indexed
catchup_blocks (ok indexed) root finalized block_at = from_indexed block_at finalized indexed
catchup_blocks (err not_found) root finalized block_at = from_root block_at root finalized
catchup_blocks (err e) root finalized block_at = err e

-- The blocks of `n` heights from `h` on.
abbrev pub blocks_from : (ℕ → ℕ) → ℕ → ℕ → List ℕ
blocks_from block h zero = []
blocks_from block h (suc n) = block h ∷ blocks_from block (h + 1) n

collect_blocks-from :
    (block : ℕ → ℕ) (block_at : ℕ → Result ℕ) (fuel n height finalized : ℕ)
    → ((h : ℕ) → h ≤ finalized → block_at h ≡ ok (block h))
    → height + n ≡ finalized + 1
    → n < fuel
    → finalized + 1 < 2 ^ 64
    → collect_blocks block_at fuel height finalized ≡ ok (blocks_from block height n)
unfolding collect_blocks
collect_blocks-from block block_at zero n height finalized known e f b = ground arith
collect_blocks-from block block_at (suc fuel) zero height finalized known e f b = ground arith
collect_blocks-from block block_at (suc fuel) (suc n) height finalized known e f b = rw (
  at_most,
  known height (omega arith),
  next,
  collect_blocks-from block block_at fuel n (height + 1) finalized known (omega arith) (omega arith)
      b,
)
  where
    at_most : leb height finalized ≡ true
    at_most = ground arith

    next : next_height height ≡ height + 1
    next = omega arith

collect_blocks-past :
    (block_at : ℕ → Result ℕ) (fuel height finalized : ℕ)
    → 0 < fuel
    → finalized < height
    → collect_blocks block_at fuel height finalized ≡ ok []
unfolding collect_blocks
collect_blocks-past block_at zero height finalized p h = ground arith
collect_blocks-past block_at (suc fuel) height finalized p h = ground arith

from_indexed-blocks :
    (block : ℕ → ℕ) (block_at : ℕ → Result ℕ) (indexed finalized : ℕ)
    → ((h : ℕ) → h ≤ finalized → block_at h ≡ ok (block h))
    → indexed + 1 < 2 ^ 64
    → finalized + 1 < 2 ^ 64
    → from_indexed block_at (ok finalized) indexed
      ≡ ok (blocks_from block (indexed + 1) (finalized - indexed))
unfolding from_indexed
from_indexed-blocks block block_at indexed finalized known a b =
    ap (λ n. collect_blocks block_at (finalized + 2) n finalized) next
    ∙ elim (Bool-cases (leb indexed finalized)) [
      | inl le ↦
          collect_blocks-from block block_at (finalized + 2) (finalized - indexed) (indexed + 1)
            finalized known (ground arith) (omega arith) b
      | inr gt ↦
          collect_blocks-past block_at (finalized + 2) (indexed + 1) finalized (omega arith)
            (ground arith)
          ∙ ap (λ n. ok (blocks_from block (indexed + 1) n)) (none_left (ground arith))
    ]
  where
    next : next_height indexed ≡ indexed + 1
    next = omega arith

    none_left : finalized < indexed → 0 ≡ finalized - indexed
    none_left h = omega arith

-- For a protocol state that has a block at every height up to the finalized one, and with the
-- finalized height and the last indexed height (the root height, if there is no index) below the
-- greatest uint64: the loop ends, and the blocks to catch up with are those of the heights after the
-- last indexed one, or after the root height, up to the finalized height, in order; none if that
-- height is not below the finalized one. There are none either without an index and a root height,
-- and without a finalized height, whether there is an index or only a root height.
pub catchup_blocks_lem :
    (block : ℕ → ℕ) (block_at : ℕ → Result ℕ) (indexed finalized : ℕ) (root last : Result ℕ)
    → ((h : ℕ) → h ≤ finalized → block_at h ≡ ok (block h))
    → indexed + 1 < 2 ^ 64
    → finalized + 1 < 2 ^ 64
    → let blocks = blocks_from block (indexed + 1) (finalized - indexed) in
      (catchup_blocks (ok indexed) root (ok finalized) block_at ≡ ok blocks)
      × (catchup_blocks (err not_found) (ok indexed) (ok finalized) block_at ≡ ok blocks)
      × (catchup_blocks (err not_found) (err not_found) last block_at ≡ ok [])
      × (catchup_blocks (ok indexed) root (err not_found) block_at ≡ ok [])
      × (catchup_blocks (err not_found) (ok indexed) (err not_found) block_at ≡ ok [])
unfolding catchup_blocks from_root
catchup_blocks_lem block block_at indexed finalized root last known a b =
    let found = from_indexed-blocks block block_at indexed finalized known a b in
    (found, found, refl, unfold from_indexed in refl, unfold from_indexed in refl)
