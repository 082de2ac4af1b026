-- ===== src/Mapper/Edges.antt =====
-- The diagram of the statuses, and the guards of the transitions.
use flow_dps.Base.{ℕ, ◌≡◌, ◌≢◌, arith}
use flow_dps.Base.Outcome.{ok, err, invalid_status}
use flow_dps.Mapper.Types.{
  Deps, Status, initialize, bootstrap, resume, index, update, collect, map, forward, Config, Env,
  World, emit,
}
use flow_dps.Mapper.Setup.{initialize_mapper, bootstrap_state, resume_indexing}
use flow_dps.Mapper.Chain.{index_chain, forward_height}
use flow_dps.Mapper.Registers.{
  update_tree, collect_registers, map_registers, after_collect, apply_update,
}
use flow_dps.Mapper.Indexing.{consensus_keeps, execution_done}
use flow_dps.Mapper.Machine.{transition, step}

infix 40 ◌⟶◌
pub data ◌⟶◌ : Status → Status → Type 0 where
  fresh : initialize ⟶ bootstrap
  restart : initialize ⟶ resume
  loaded : bootstrap ⟶ index
  restored : resume ⟶ index
  wait_chain : index ⟶ index
  indexed : index ⟶ update
  grow : update ⟶ update
  matched : update ⟶ collect
  skipped : collect ⟶ forward
  batched : collect ⟶ map
  written : map ⟶ collect
  mapped : map ⟶ forward
  forwarded : forward ⟶ index

ruleset edges = (
  fresh, restart, loaded, restored, wait_chain, indexed, grow, matched, skipped, batched, written,
  mapped, forwarded,
)

module _ {K : Deps} where
  -- A transition called in another status than its own is refused and changes nothing.
  pub transition_refuses :
      (fuel : ℕ) (cfg : Config) (env : Env K) (s : Status) (w : World K)
      → w.state.status ≢ s
      → transition fuel cfg env s w ≡ (err invalid_status, w)
  unfolding transition initialize_mapper bootstrap_state resume_indexing index_chain forward_height
      update_tree collect_registers map_registers
  transition_refuses fuel cfg env initialize w h = ground arith
  transition_refuses fuel cfg env bootstrap w h = ground arith
  transition_refuses fuel cfg env resume w h = ground arith
  transition_refuses fuel cfg env index w h = ground arith
  transition_refuses fuel cfg env update w h = ground arith
  transition_refuses fuel cfg env collect w h = ground arith
  transition_refuses fuel cfg env map w h = ground arith
  transition_refuses fuel cfg env forward w h = ground arith

  initialize-edge :
      (cfg : Config) (w : World K)
      → (initialize_mapper cfg w).0 ≡ ok tt
      → w.state.status ⟶ (initialize_mapper cfg w).1.state.status
  unfolding initialize_mapper
  initialize-edge cfg w h = grind (arith, edges)

  bootstrap-edge :
      (env : Env K) (w : World K)
      → (bootstrap_state env w).0 ≡ ok tt
      → w.state.status ⟶ (bootstrap_state env w).1.state.status
  unfolding bootstrap_state
  bootstrap-edge env w h = grind (arith, edges)

  resume-edge :
      (env : Env K) (w : World K)
      → (resume_indexing env w).0 ≡ ok tt
      → w.state.status ⟶ (resume_indexing env w).1.state.status
  unfolding resume_indexing
  resume-edge env w h = grind (arith, edges)

  index-edge :
      (env : Env K) (w : World K)
      → (index_chain env w).0 ≡ ok tt
      → w.state.status ⟶ (index_chain env w).1.state.status
  unfolding index_chain
  index-edge env w h = grind (arith, edges, consensus_keeps, execution_done)

  forward-edge :
      (env : Env K) (w : World K)
      → (forward_height env w).0 ≡ ok tt
      → w.state.status ⟶ (forward_height env w).1.state.status
  unfolding forward_height
  forward-edge env w h = grind (arith, edges)

  update-edge :
      (env : Env K) (w : World K)
      → (update_tree env w).0 ≡ ok tt
      → w.state.status ⟶ (update_tree env w).1.state.status
  unfolding update_tree apply_update
  update-edge env w h = grind (arith, edges)

  collect-edge :
      (fuel : ℕ) (cfg : Config) (w : World K)
      → (collect_registers fuel cfg w).0 ≡ ok tt
      → w.state.status ⟶ (collect_registers fuel cfg w).1.state.status
  unfolding collect_registers after_collect
  collect-edge fuel cfg w h = grind (arith, edges)

  map-edge :
      (env : Env K) (w : World K)
      → (map_registers env w).0 ≡ ok tt
      → w.state.status ⟶ (map_registers env w).1.state.status
  unfolding map_registers emit
  map-edge env w h = grind (arith, edges)

  transition-edge :
      (fuel : ℕ) (cfg : Config) (env : Env K) (s : Status) (w : World K)
      → (transition fuel cfg env s w).0 ≡ ok tt
      → w.state.status ⟶ (transition fuel cfg env s w).1.state.status
  unfolding transition
  transition-edge fuel cfg env initialize w h = initialize-edge cfg w h
  transition-edge fuel cfg env bootstrap w h = bootstrap-edge env w h
  transition-edge fuel cfg env resume w h = resume-edge env w h
  transition-edge fuel cfg env index w h = index-edge env w h
  transition-edge fuel cfg env update w h = update-edge env w h
  transition-edge fuel cfg env collect w h = collect-edge fuel cfg w h
  transition-edge fuel cfg env map w h = map-edge env w h
  transition-edge fuel cfg env forward w h = forward-edge env w h

  -- A round of the machine that ends without an error follows an edge of the diagram.
  pub step-edge :
      (fuel : ℕ) (cfg : Config) (env : Env K) (w : World K)
      → (step fuel cfg env w).0 ≡ ok tt
      → w.state.status ⟶ (step fuel cfg env w).1.state.status
  unfolding step
  step-edge fuel cfg env w h = transition-edge fuel cfg env w.state.status w h
