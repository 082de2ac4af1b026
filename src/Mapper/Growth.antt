-- ===== src/Mapper/Growth.antt =====
-- How UpdateTree grows the forest, and what an update without effect does to it.
use flow_dps.Base.{
  ℕ, ◌<◌, ◌==◌, ◌≡◌, ◌≢◌, refl, false, none, some, Option, List, [], arith, length, if◌then◌else◌,
}
use flow_dps.Base.Store.{Store, lookup}
use flow_dps.Base.Outcome.{ok}
use flow_dps.Forest
use flow_dps.Forest.Laws.{lookup-add, step_for}
use flow_dps.Mapper.Types.{Deps, update, TrieUpdate, Env, World, register_batch_size}
use flow_dps.Mapper.Pathings.{paths_payloads}
use flow_dps.Mapper.Collect.{collect_loop}
use flow_dps.Mapper.Collect.Walk.{collect_loop_stuck}
use flow_dps.Mapper.Registers.{update_tree, apply_update}

module _ {K : Deps} where
  open K use {Payload, Tree, root_hash, mutate, unsafe_read}

  -- Where an update applies to a tree of the forest, the new tree is added below its own root hash
  -- with the paths of the update and the tree that it was applied to as its parent. Every other
  -- commitment is answered as before.
  pub update_tree_grows :
      (env : Env K) (w : World K) (u : TrieUpdate K) (t t' : Tree) (ps : List ℕ) (vs : List Payload)
      (commit : ℕ)
      → w.state.status ≡ update
      → Forest.has w.state.forest w.state.next ≡ false
      → env.feed_update ≡ ok u
      → Forest.tree_of w.state.forest u.root ≡ some t
      → paths_payloads u.paths u.payloads ≡ ok (ps, vs)
      → mutate t ps vs ≡ ok t'
      → ((update_tree env w).0 ≡ ok tt)
        × (lookup commit (update_tree env w).1.state.forest.steps ≡ (
            if root_hash t' == commit
            then some (step_for t' ps u.root)
            else lookup commit w.state.forest.steps))
  unfolding update_tree apply_update
  update_tree_grows env w u t t' ps vs commit a b c d e g =
      simp (a, b, c, d, e, g) (refl, lookup-add root_hash t' ps u.root commit w.state.forest)

  -- An update that leaves the root hash of its tree as it is makes that tree its own parent. If it
  -- has no paths, the walk of CollectRegisters never gets past this commitment.
  pub idle_update_blocks :
      (env : Env K) (w : World K) (u : TrieUpdate K) (t t' : Tree) (fuel last : ℕ)
      (regs : Store (Option Payload))
      → w.state.status ≡ update
      → Forest.has w.state.forest w.state.next ≡ false
      → env.feed_update ≡ ok u
      → Forest.tree_of w.state.forest u.root ≡ some t
      → paths_payloads u.paths u.payloads ≡ ok ([], [])
      → mutate t [] [] ≡ ok t'
      → root_hash t' ≡ u.root
      → u.root ≢ last
      → length regs < register_batch_size
      → collect_loop unsafe_read K.dummy_commitment fuel
          (update_tree env w).1.state.forest
          last
          u.root
          regs
        ≡ none
  idle_update_blocks env w u t t' fuel last regs a b c d e g h n l =
      let grown = update_tree_grows env w u t t' [] [] u.root a b c d e g in
      collect_loop_stuck unsafe_read K.dummy_commitment fuel (update_tree env w).1.state.forest last
        u.root (step_for t' [] u.root) regs n (ground (arith, grown.1)) refl refl l
