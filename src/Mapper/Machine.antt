-- ===== src/Mapper/Machine.antt =====
-- fsm.go, with the transitions wired as in cmd/flow-dps-indexer/main.go and cmd/flow-dps-live/main.go.
use flow_dps.Base.{ℕ, Bool, true, List, [], ◌∷◌, if◌then◌else◌, if_intro}
use flow_dps.Base.Outcome.{Err, finished, Result, ok, err}
use flow_dps.Mapper.Types.{
  Deps, Status, initialize, bootstrap, resume, index, update, collect, map, forward, Config, Env,
  World, Action,
}
use flow_dps.Mapper.Setup.{initialize_mapper, bootstrap_state, resume_indexing}
use flow_dps.Mapper.Chain.{index_chain, forward_height}
use flow_dps.Mapper.Registers.{update_tree, collect_registers, map_registers}

pub data Outcome : Type 0 where
  running : Outcome  -- the schedule is over, the loop is not
  returned : Outcome  -- Run returned nil
  failed : Err → Outcome  -- Run returned an error

module _ {K : Deps} where
  -- `f.transitions[f.state.status]`
  unfoldable pub transition : ℕ → Config → Env K → Status → Action K Unit
  transition fuel cfg env initialize = initialize_mapper cfg
  transition fuel cfg env bootstrap = bootstrap_state env
  transition fuel cfg env resume = resume_indexing env
  transition fuel cfg env index = index_chain env
  transition fuel cfg env update = update_tree env
  transition fuel cfg env collect = collect_registers fuel cfg
  transition fuel cfg env map = map_registers env
  transition fuel cfg env forward = forward_height env

  -- One round of the loop after `done` was found open.
  unfoldable pub step : ℕ → Config → Env K → Action K Unit
  unfolding transition
  step fuel cfg env w = transition fuel cfg env w.state.status w

  -- `close(f.state.done)`; a second call, which panics in the code, is not modelled: a run ends in the
  -- round in which it is stopped.
  unfoldable pub stop : World K → World K
  stop w = record w { state = record w.state { done = true } }

-- One round of the schedule: what the interfaces answer in it, and whether Stop was called before it.
pub record Tick (K : Deps) : Type 0 where
  pub env : Env K
  pub stopped : Bool

module _ {K : Deps} where
  -- What the loop does with the result of a transition.
  unfoldable pub judge :
      Result (Unit {0}) × World K → (World K → Outcome × World K) → Outcome × World K
  judge (ok _, w) rest = rest w
  judge (err finished, w) rest = (returned, w)
  judge (err e, w) rest = (failed e, w)

  unfoldable pub run : ℕ → Config → List (Tick K) → World K → Outcome × World K
  unfolding judge stop step
  run fuel cfg [] w = (running, w)
  run fuel cfg (t ∷ ts) w =
      let w' = if t.stopped then stop w else w in
      let rest = judge (step fuel cfg t.env w') (run fuel cfg ts) in
      if w'.state.done then (returned, w') else rest

  judge-invariant :
      (P : World K → Type 0) (r : Result (Unit {0}) × World K) (rest : World K → Outcome × World K)
      → P r.1
      → ((w : World K) → P w → P (rest w).1)
      → P (judge r rest).1
  unfolding judge
  judge-invariant P (ok _, w) rest p k = k w p
  judge-invariant P (err finished, w) rest p k = p
  judge-invariant P (err e, w) rest p k = p

  -- What every step keeps, and does not depend on `done`, holds at the end of every schedule.
  module _ (fuel : ℕ) (cfg : Config) (P : World K → Type 0)
      (keeps : (env : Env K) (w : World K) → P w → P (step fuel cfg env w).1)
      (stops : (w : World K) → P w → P (stop w)) where
    pub run_invariant : (ts : List (Tick K)) (w : World K) → P w → P (run fuel cfg ts w).1
    unfolding run
    run_invariant [] w p = p
    run_invariant (t ∷ ts) w p =
        let w' = if t.stopped then stop w else w in
        let q : P w' = if_intro P t.stopped (stop w) w (stops w p) p in
        let r = step fuel cfg t.env w' in
        if_intro (λ o. P o.1) w'.state.done (returned, w') (judge r (run fuel cfg ts)) q
          (judge-invariant P r (run fuel cfg ts) (keeps t.env w' q) (run_invariant ts))
