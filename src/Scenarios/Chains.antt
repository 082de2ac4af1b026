-- ===== src/Scenarios/Chains.antt =====
-- The consensus tracker of service/tracker and the chain of service/chain over a protocol state in
-- which the block at height h has the identifier h + 50.
use flow_dps.Base.{ℕ, ◌+◌, ◌-◌, [], ◌∷◌}
use flow_dps.Base.Outcome.{ok}
use flow_dps.Tracker.Consensus.{Sources, Consensus}
use flow_dps.Chain.{Protocol}

abbrev sources : Sources
sources = record {
  Header = ℕ;
  Guarantee = ℕ;
  Seal = ℕ;
  Complete = ℕ;
  Light = ℕ;
  Transaction = ℕ;
  TxResult = ℕ;
  Event = ℕ;
  Record = ℕ;
  header_height = λ h. h;
  light = λ c. c + 1;
  complete_transactions = λ c. c ∷ (c + 2) ∷ [];
  final_commitment = λ r. r;
  record_collections = λ r. r ∷ [];
  record_results = λ r. [];
  record_events = λ r. r ∷ r ∷ [];
  retrieve_root = ok 3;
  lookup_height = λ h. ok (h + 50);
  retrieve_header = λ id. ok (id - 50);
  payload_guarantees = λ id. ok [];
  retrieve_guarantee = λ id. ok id;
  payload_seals = λ id. ok [];
  retrieve_seal = λ id. ok id;
  hold = λ id. ok 9;
}

abbrev protocol : Protocol
protocol = record {
  Header = ℕ;
  Collection = ℕ;
  Guarantee = ℕ;
  Transaction = ℕ;
  TxResult = ℕ;
  Seal = ℕ;
  Event = ℕ;
  collection_transactions = λ c. c ∷ [];
  retrieve_root = ok 3;
  lookup_height = λ h. ok (h + 50);
  lookup_commit = λ id. ok id;
  retrieve_header = λ id. ok (id - 50);
  payload_guarantees = λ id. ok [];
  retrieve_collection = λ id. ok id;
  retrieve_guarantee = λ id. ok id;
  retrieve_transaction = λ id. ok id;
  block_results = λ id. ok [];
  payload_seals = λ id. ok [];
  retrieve_seal = λ id. ok id;
  block_events = λ id. ok [];
}
