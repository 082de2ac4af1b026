-- ===== src/Scenarios/Indexer.antt =====
-- The mapper of service/mapper over a small chain: a trie is its root hash, a payload a number.
use flow_dps.Base.{
  ℕ, ◌+◌, ◌≤◌, ◌≡◌, ◌⊎◌, refl, arith, true, false, some, none, List, [], ◌∷◌, map, length,
}
use flow_dps.Base.Outcome.{ok, err, other}
use flow_dps.Forest
use flow_dps.Mapper.Types.{Deps, initialize, index, default_config, World, Env, empty_state}
use flow_dps.Mapper.Setup.{initialize_mapper}
use flow_dps.Mapper.Chain.{index_chain, index_consensus, index_execution}
use flow_dps.Mapper.Machine.{step, transition, Tick, run}
use flow_dps.Mapper.Edges.{◌⟶◌, step-edge}
use flow_dps.Mapper.FirstOnce.{run-WritesFirstOnce, firsts}
use flow_dps.Mapper.Heights.{run-HeightsInOrder, HeightsInOrder}
use flow_dps.Mapper.Indexing.{index_chain_error, index_chain_progress, advanced}

abbrev pub demo : Deps
demo = record {
  Payload = ℕ;
  Header = ℕ;
  Guarantee = ℕ;
  Seal = ℕ;
  Collection = ℕ;
  Transaction = ℕ;
  TxResult = ℕ;
  Event = ℕ;
  dummy_commitment = 0;
  header_id = λ h. 100 + h;
  Tree = ℕ;
  empty_tree = 1;
  root_hash = λ t. t;
  tree_paths = λ t. [];
  mutate = λ t ps vs. ok (t + length ps);
  unsafe_read = λ t ps. map (λ p. some (t + p)) ps;
}

abbrev pub demo_env : Env demo
demo_env = record {
  chain_root = ok 7;
  chain_header = λ h. ok h;
  chain_guarantees = λ h. ok (1 ∷ []);
  chain_seals = λ h. ok [];
  chain_commit = λ h. ok (20 + h);
  chain_collections = λ h. ok (2 ∷ []);
  chain_transactions = λ h. ok (3 ∷ 4 ∷ []);
  chain_results = λ h. ok [];
  chain_events = λ h. ok (5 ∷ []);
  load_trie = ok 27;
  feed_update = ok (record { root = 27; paths = 3 ∷ []; payloads = 9 ∷ [] });
  read_last = ok 7;
  read_commit = λ h. ok 27;
  write_error = λ x. none;
}

abbrev failing_env : Env demo
failing_env = record demo_env { chain_events = λ h. err (other 3) }

abbrev start : World demo
start = record { state = empty_state demo Forest.new; once = false; log = [] }

abbrev at_index : World demo
at_index = record {
  state = record (empty_state demo Forest.new) { status = index; height = 8; last = 0; next = 27 };
  once = false;
  log = [];
}

abbrev ticks : List (Tick demo)
ticks =
    record { env = demo_env; stopped = false }
    ∷ record { env = demo_env; stopped = false }
    ∷ record { env = demo_env; stopped = false }
    ∷ record { env = demo_env; stopped = true }
    ∷ []

run-HeightsInOrder_example : HeightsInOrder (run 9 default_config ticks start).1
run-HeightsInOrder_example = run-HeightsInOrder 9 default_config ticks start tt

run-WritesFirstOnce_example : firsts (run 9 default_config ticks start).1.log ≤ 1
run-WritesFirstOnce_example = run-WritesFirstOnce 9 default_config ticks start (omega arith)

step-edge_example : initialize ⟶ (step 9 default_config demo_env start).1.state.status
unfolding step transition initialize_mapper
step-edge_example = step-edge 9 default_config demo_env start refl

index_chain_error_example :
    ((index_chain failing_env at_index).1.state ≡ at_index.state)
    × ((index_chain failing_env at_index).1.once ≡ false)
unfolding index_chain index_consensus index_execution
index_chain_error_example = index_chain_error failing_env at_index refl

index_chain_progress_example :
    ((index_chain demo_env at_index).1.state ≡ at_index.state)
    ⊎ ((c : ℕ) × (demo_env.chain_commit 8 ≡ ok c)
        × ((index_chain demo_env at_index).1.state ≡ advanced at_index.state c))
unfolding index_chain index_consensus index_execution
index_chain_progress_example = index_chain_progress demo_env at_index refl
