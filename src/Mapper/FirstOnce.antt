-- ===== src/Mapper/FirstOnce.antt =====
-- How often the transitions write the first height.
use flow_dps.Base.{ℕ, ◌+◌, ◌≤◌, ◌≡◌, List, [], ◌∷◌, ◌++◌, arith, if◌then◌else◌}
use flow_dps.Mapper.Types.{
  Deps, Status, initialize, bootstrap, resume, index, update, collect, map, forward, Config, Env,
  World, Write, first, emit, first_once,
}
use flow_dps.Mapper.Setup.{initialize_mapper, bootstrap_state, resume_indexing}
use flow_dps.Mapper.Chain.{index_consensus, index_execution, index_chain, forward_height}
use flow_dps.Mapper.Indexing.{consensus_keeps}
use flow_dps.Mapper.Registers.{
  update_tree, collect_registers, map_registers, after_collect, apply_update,
}
use flow_dps.Mapper.Machine.{transition, step, Tick, stop, run, run_invariant}

module _ {K : Deps} where
  abbrev pub is_first : Write K → ℕ
  is_first (first h) = 1
  is_first _ = 0

  -- How many writes of the log set the first height.
  abbrev pub firsts : List (Write K) → ℕ
  firsts [] = 0
  firsts (x ∷ xs) = is_first x + firsts xs

  firsts-append : (xs ys : List (Write K)) → firsts (xs ++ ys) ≡ firsts xs + firsts ys
  firsts-append [] ys = omega arith
  firsts-append (x ∷ xs) ys = omega (arith, firsts-append xs ys)

  -- The first height was written at most once, and not before `once` was used.
  abbrev pub WritesFirstOnce : World K → Type 0
  WritesFirstOnce w = firsts w.log ≤ (if w.once then 1 else 0)

  first_once-WritesFirstOnce :
      (env : Env K) (h : ℕ) (w : World K)
      → WritesFirstOnce w
      → WritesFirstOnce (first_once env h w).1
  unfolding first_once
  first_once-WritesFirstOnce env h w i = ground (arith, firsts-append w.log (first h ∷ []))

  consensus-firsts :
      (env : Env K) (h : ℕ) (head : K.Header) (w : World K)
      → firsts (index_consensus env h head w).1.log ≡ firsts w.log
  unfolding index_consensus
  consensus-firsts env h head w = grind (arith, firsts-append)

  execution-firsts :
      (env : Env K) (h c : ℕ) (w : World K)
      → (firsts (index_execution env h c w).1.log ≡ firsts w.log)
        × ((index_execution env h c w).1.once ≡ w.once)
  unfolding index_execution
  execution-firsts env h c w = grind (arith, firsts-append)

  -- A transition keeps the bound. Each is a lemma, so that the others stay shut in it.
  resume-WritesFirstOnce :
      (env : Env K) (w : World K) → WritesFirstOnce w → WritesFirstOnce (resume_indexing env w).1
  unfolding resume_indexing
  resume-WritesFirstOnce env w i = grind (arith, firsts-append)

  index-WritesFirstOnce :
      (env : Env K) (w : World K) → WritesFirstOnce w → WritesFirstOnce (index_chain env w).1
  unfolding index_chain
  index-WritesFirstOnce env w i = grind (arith, consensus-firsts, consensus_keeps, execution-firsts)

  forward-WritesFirstOnce :
      (env : Env K) (w : World K) → WritesFirstOnce w → WritesFirstOnce (forward_height env w).1
  unfolding forward_height
  forward-WritesFirstOnce env w i = grind (arith, firsts-append)

  map-WritesFirstOnce :
      (env : Env K) (w : World K) → WritesFirstOnce w → WritesFirstOnce (map_registers env w).1
  unfolding map_registers emit
  map-WritesFirstOnce env w i = grind (arith, firsts-append)

  -- the transitions that write nothing
  initialize-log :
      (cfg : Config) (w : World K)
      → ((initialize_mapper cfg w).1.log ≡ w.log) × ((initialize_mapper cfg w).1.once ≡ w.once)
  unfolding initialize_mapper
  initialize-log cfg w = ground arith

  bootstrap-log :
      (env : Env K) (w : World K)
      → ((bootstrap_state env w).1.log ≡ w.log) × ((bootstrap_state env w).1.once ≡ w.once)
  unfolding bootstrap_state
  bootstrap-log env w = ground arith

  update-log :
      (env : Env K) (w : World K)
      → ((update_tree env w).1.log ≡ w.log) × ((update_tree env w).1.once ≡ w.once)
  unfolding update_tree apply_update
  update-log env w = ground arith

  collect-log :
      (fuel : ℕ) (cfg : Config) (w : World K)
      → ((collect_registers fuel cfg w).1.log ≡ w.log)
        × ((collect_registers fuel cfg w).1.once ≡ w.once)
  unfolding collect_registers after_collect
  collect-log fuel cfg w = ground arith

  transition-WritesFirstOnce :
      (fuel : ℕ) (cfg : Config) (env : Env K) (s : Status) (w : World K)
      → WritesFirstOnce w
      → WritesFirstOnce (transition fuel cfg env s w).1
  unfolding transition
  transition-WritesFirstOnce fuel cfg env initialize w i = ground (arith, initialize-log cfg w)
  transition-WritesFirstOnce fuel cfg env bootstrap w i = ground (arith, bootstrap-log env w)
  transition-WritesFirstOnce fuel cfg env resume w i = resume-WritesFirstOnce env w i
  transition-WritesFirstOnce fuel cfg env index w i = index-WritesFirstOnce env w i
  transition-WritesFirstOnce fuel cfg env update w i = ground (arith, update-log env w)
  transition-WritesFirstOnce fuel cfg env collect w i = ground (arith, collect-log fuel cfg w)
  transition-WritesFirstOnce fuel cfg env map w i = map-WritesFirstOnce env w i
  transition-WritesFirstOnce fuel cfg env forward w i = forward-WritesFirstOnce env w i

  step-WritesFirstOnce :
      (fuel : ℕ) (cfg : Config) (env : Env K) (w : World K)
      → WritesFirstOnce w
      → WritesFirstOnce (step fuel cfg env w).1
  unfolding step
  step-WritesFirstOnce fuel cfg env w i = transition-WritesFirstOnce fuel cfg env w.state.status w i

  -- From a world that keeps the bound, every schedule ends in one that does: over a whole run of
  -- the machine the first height is written at most once.
  pub run-WritesFirstOnce :
      (fuel : ℕ) (cfg : Config) (ts : List (Tick K)) (w : World K)
      → WritesFirstOnce w
      → firsts (run fuel cfg ts w).1.log ≤ 1
  unfolding stop
  run-WritesFirstOnce fuel cfg ts w i = ground (
    arith,
    run_invariant fuel cfg WritesFirstOnce (step-WritesFirstOnce fuel cfg) (λ v k. k) ts w i,
  )
