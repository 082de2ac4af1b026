-- ===== src/Mapper/Heights.antt =====
-- The heights that ForwardHeight records as the last indexed ones.
use flow_dps.Base.{
  ℕ, ◌==◌, ◌≡◌, Bool, true, false, Option, none, some, List, [], ◌∷◌, ◌++◌, arith, next_height,
  if◌then◌else◌,
}
use flow_dps.Mapper.Types.{
  Deps, Status, initialize, bootstrap, resume, index, update, collect, map, forward, Config, Env,
  World, Write, last, emit,
}
use flow_dps.Mapper.Setup.{initialize_mapper, bootstrap_state, resume_indexing}
use flow_dps.Mapper.Chain.{index_consensus, index_execution, index_chain, forward_height}
use flow_dps.Mapper.Indexing.{consensus_keeps, execution_keeps, execution_done}
use flow_dps.Mapper.Registers.{
  update_tree, collect_registers, map_registers, after_collect, apply_update,
}
use flow_dps.Mapper.Machine.{transition, step, stop, Tick, run, run_invariant}

-- Takes a newly recorded height, if it is the one after the height recorded before.
abbrev pub take_height : Option (Option ℕ) → ℕ → Option (Option ℕ)
take_height none h = none
take_height (some none) h = some (some h)
take_height (some (some p)) h = if next_height p == h then some (some h) else none

abbrev pub is_setup : Status → Bool
is_setup initialize = true
is_setup bootstrap = true
is_setup resume = true
is_setup _ = false

-- What a scan of the log must be for the status and the height of the state.
abbrev pub Agrees : Option (Option ℕ) → Status → ℕ → Type 0
Agrees none s h = ⊥
Agrees (some none) s h = Unit
Agrees (some (some p)) s h = (next_height p ≡ h) × (is_setup s ≡ false)

module _ {K : Deps} where
  abbrev scan_write : Option (Option ℕ) → Write K → Option (Option ℕ)
  scan_write p (last h) = take_height p h
  scan_write p _ = p

  -- The last recorded height of a log, `none` if a recorded height does not follow the one before.
  abbrev pub scan : Option (Option ℕ) → List (Write K) → Option (Option ℕ)
  scan p [] = p
  scan p (x ∷ xs) = scan (scan_write p x) xs

  scan-append :
      (p : Option (Option ℕ)) (xs ys : List (Write K)) → scan p (xs ++ ys) ≡ scan (scan p xs) ys
  scan-append p [] ys = ground arith
  scan-append p (x ∷ xs) ys = scan-append (scan_write p x) xs ys

  abbrev pub recorded : World K → Option (Option ℕ)
  recorded w = scan (some none) w.log

  abbrev pub HeightsInOrder : World K → Type 0
  HeightsInOrder w = Agrees (recorded w) w.state.status w.state.height

  initialize-HeightsInOrder :
      (cfg : Config) (w : World K) → HeightsInOrder w → HeightsInOrder (initialize_mapper cfg w).1
  unfolding initialize_mapper
  initialize-HeightsInOrder cfg w i = ground arith

  bootstrap-HeightsInOrder :
      (env : Env K) (w : World K) → HeightsInOrder w → HeightsInOrder (bootstrap_state env w).1
  unfolding bootstrap_state
  bootstrap-HeightsInOrder env w i = ground arith

  resume-HeightsInOrder :
      (env : Env K) (w : World K) → HeightsInOrder w → HeightsInOrder (resume_indexing env w).1
  unfolding resume_indexing
  resume-HeightsInOrder env w i = grind (arith, scan-append)

  consensus-recorded :
      (env : Env K) (h : ℕ) (head : K.Header) (w : World K)
      → recorded (index_consensus env h head w).1 ≡ recorded w
  unfolding index_consensus
  consensus-recorded env h head w = grind (arith, scan-append)

  execution-recorded :
      (env : Env K) (h c : ℕ) (w : World K) → recorded (index_execution env h c w).1 ≡ recorded w
  unfolding index_execution
  execution-recorded env h c w = grind (arith, scan-append)

  index-HeightsInOrder :
      (env : Env K) (w : World K) → HeightsInOrder w → HeightsInOrder (index_chain env w).1
  unfolding index_chain
  index-HeightsInOrder env w i = grind (
    arith, consensus_keeps, consensus-recorded, execution-recorded, execution_keeps, execution_done,
  )

  forward-HeightsInOrder :
      (env : Env K) (w : World K) → HeightsInOrder w → HeightsInOrder (forward_height env w).1
  unfolding forward_height
  forward-HeightsInOrder env w i = grind (arith, scan-append)

  map-HeightsInOrder :
      (env : Env K) (w : World K) → HeightsInOrder w → HeightsInOrder (map_registers env w).1
  unfolding map_registers emit
  map-HeightsInOrder env w i = grind (arith, scan-append)

  update-HeightsInOrder :
      (env : Env K) (w : World K) → HeightsInOrder w → HeightsInOrder (update_tree env w).1
  unfolding update_tree apply_update
  update-HeightsInOrder env w i = ground arith

  collect-HeightsInOrder :
      (fuel : ℕ) (cfg : Config) (w : World K)
      → HeightsInOrder w
      → HeightsInOrder (collect_registers fuel cfg w).1
  unfolding collect_registers after_collect
  collect-HeightsInOrder fuel cfg w i = ground arith

  transition-HeightsInOrder :
      (fuel : ℕ) (cfg : Config) (env : Env K) (s : Status) (w : World K)
      → HeightsInOrder w
      → HeightsInOrder (transition fuel cfg env s w).1
  unfolding transition
  transition-HeightsInOrder fuel cfg env initialize w i = initialize-HeightsInOrder cfg w i
  transition-HeightsInOrder fuel cfg env bootstrap w i = bootstrap-HeightsInOrder env w i
  transition-HeightsInOrder fuel cfg env resume w i = resume-HeightsInOrder env w i
  transition-HeightsInOrder fuel cfg env index w i = index-HeightsInOrder env w i
  transition-HeightsInOrder fuel cfg env update w i = update-HeightsInOrder env w i
  transition-HeightsInOrder fuel cfg env collect w i = collect-HeightsInOrder fuel cfg w i
  transition-HeightsInOrder fuel cfg env map w i = map-HeightsInOrder env w i
  transition-HeightsInOrder fuel cfg env forward w i = forward-HeightsInOrder env w i

  step-HeightsInOrder :
      (fuel : ℕ) (cfg : Config) (env : Env K) (w : World K)
      → HeightsInOrder w
      → HeightsInOrder (step fuel cfg env w).1
  unfolding step
  step-HeightsInOrder fuel cfg env w = transition-HeightsInOrder fuel cfg env w.state.status w

  -- Over every schedule the recorded last heights go up by one with no gap, and the machine works
  -- at the height after the one that it recorded last.
  pub run-HeightsInOrder :
      (fuel : ℕ) (cfg : Config) (ts : List (Tick K)) (w : World K)
      → HeightsInOrder w
      → HeightsInOrder (run fuel cfg ts w).1
  unfolding stop
  run-HeightsInOrder fuel cfg =
      run_invariant fuel cfg HeightsInOrder (step-HeightsInOrder fuel cfg) (λ v k. k)
