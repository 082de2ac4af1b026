-- ===== src/Scenarios/Walks.antt =====
-- The forest of ledger/forest and the register transitions of service/mapper over two trie updates
-- within one block.
use flow_dps.Base.{ℕ, ◌≡◌, ◌+◌, refl, arith, true, false, some, Option, List, [], ◌∷◌, contains}
use flow_dps.Base.Store.{Store, lookup, insert}
use flow_dps.Base.Outcome.{ok, Result}
use flow_dps.Forest.{Forest, Step}
use flow_dps.Mapper.Types.{update, collect, default_config, State, World, Env, empty_state}
use flow_dps.Mapper.Machine.{run, Tick}
use flow_dps.Mapper.Pathings.{paths_payloads}
use flow_dps.Mapper.Pathings.Laws.{paths_payloads_lem, Ascending, payload_at, last_payload}
use flow_dps.Mapper.Collect.{collect_loop, close_round, read_batch}
use flow_dps.Mapper.Collect.Walk.{
  Walk, here, back, read_all, collect_loop_ends, collect_loop-oldest,
}
use flow_dps.Mapper.Cycle.{never_forwards, StaysAt}
use flow_dps.Scenarios.Indexer.{demo, demo_env}

abbrev newer : Step ℕ
newer = record { tree = 29; paths = 3 ∷ 4 ∷ []; parent = 28 }

abbrev older : Step ℕ
older = record { tree = 28; paths = 3 ∷ []; parent = 27 }

abbrev two_updates : Forest ℕ
two_updates = record {
  steps = (27, record { tree = 27; paths = []; parent = 0 }) ∷ (28, older) ∷ (29, newer) ∷ [];
}

abbrev read : ℕ → ℕ → Option ℕ
read t p = some (t + p)

walk : Walk two_updates 27 29 (newer ∷ older ∷ [])
unfolding lookup
walk =
    back {s = newer} (λ e. ground arith) refl
      (back {s = older} (λ e. ground arith) refl (here refl))

collect_loop_ends_example :
    (r : Result (Unit {0}) × Store (Option ℕ)) × (collect_loop
        (read_all read)
        0
        3
        two_updates
        27
        29
        []
      ≡ some r)
collect_loop_ends_example = collect_loop_ends (read_all read) 0 3 [] walk (omega arith)

collect_loop-oldest_example :
    (regs : Store (Option ℕ)) × (collect_loop (read_all read) 0 3 two_updates 27 29 []
      ≡ some (ok tt, regs))
    × (lookup 3 regs ≡ some (some 31))
collect_loop-oldest_example =
    collect_loop-oldest read 0 3 3 (newer ∷ []) older [] walk (omega arith) (omega arith) refl tt

paths_payloads_lem_example :
    (r : List ℕ × List ℕ) × (paths_payloads (5 ∷ 2 ∷ 5 ∷ []) (1 ∷ 2 ∷ 3 ∷ []) ≡ ok r)
    × Ascending r.0
    × ((q : ℕ) → contains q r.0 ≡ contains q (5 ∷ 2 ∷ 5 ∷ []))
    × ((q : ℕ) → payload_at q r.0 r.1 ≡ last_payload q (5 ∷ 2 ∷ 5 ∷ []) (1 ∷ 2 ∷ 3 ∷ []))
paths_payloads_lem_example = paths_payloads_lem (5 ∷ 2 ∷ 5 ∷ []) (1 ∷ 2 ∷ 3 ∷ []) (omega arith)

abbrev collecting : State demo
collecting = record (empty_state demo two_updates) {
  status = collect;
  height = 8;
  last = 27;
  next = 29;
}

abbrev registers_of_block : Store (Option ℕ)
registers_of_block = (3, some 31) ∷ (4, some 33) ∷ []

abbrev quiet_ticks : List (Tick demo)
quiet_ticks =
    record { env = demo_env; stopped = false }
    ∷ record { env = demo_env; stopped = false }
    ∷ record { env = demo_env; stopped = false }
    ∷ []

collected :
    collect_loop demo.unsafe_read 0 3 two_updates 27 29 [] ≡ some (ok tt, registers_of_block)
unfolding collect_loop close_round read_batch lookup insert
collected = refl

never_forwards_example :
    StaysAt 8
      (run 3 default_config quiet_ticks (record { state = collecting; once = true; log = [] }))
never_forwards_example =
    never_forwards 3 default_config collecting true [] registers_of_block quiet_ticks refl refl refl
      refl collected (omega arith) (omega arith)
      ((refl, λ x. refl), ((refl, λ x. refl), ((refl, λ x. refl), tt)))

abbrev updating : World demo
updating = record {
  state =
      record (empty_state demo
        (record { steps = (27, record { tree = 27; paths = []; parent = 0 }) ∷ [] })) {
          status = update;
          height = 8;
          last = 27;
          next = 28;
        };
  once = true;
  log = [];
}

abbrev idle_env : Env demo
idle_env = record demo_env { feed_update = ok (record { root = 27; paths = []; payloads = [] }) }
