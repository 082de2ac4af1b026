-- ===== src/Mapper/Types.antt =====
-- status.go, state.go, config.go, forest.go and the types of transitions.go. The chain, the trie
-- loader, the update feeder, the index reader and the index writer are interfaces here as they are
-- in the source; what they answer during one transition is an `Env`.
use flow_dps.Base.{
  ℕ, ◌-◌, ◌^◌, Bool, true, false, Option, none, some, List, [], ◌∷◌, ◌++◌, ◌==◌, if◌then◌else◌,
}
use flow_dps.Base.Store.{Store}
use flow_dps.Base.Outcome.{Err, Result, ok, err, Exec, unavailable, invalid_status}
use flow_dps.Forest.{Forest}

-- The types and functions of flow-go that pass through the mapper, and the tries of ledger/trie as
-- the mapper uses them.
pub record Deps : Type 1 where
  pub Payload : Type 0
  pub Header : Type 0
  pub Guarantee : Type 0
  pub Seal : Type 0
  pub Collection : Type 0
  pub Transaction : Type 0
  pub TxResult : Type 0
  pub Event : Type 0
  pub dummy_commitment : ℕ  -- flow.DummyStateCommitment
  pub header_id : Header → ℕ  -- flow.Header.ID
  pub Tree : Type 0
  pub empty_tree : Tree
  pub root_hash : Tree → ℕ
  pub tree_paths : Tree → List ℕ
  pub mutate : Tree → List ℕ → List Payload → Result Tree
  pub unsafe_read : Tree → List ℕ → List (Option Payload)

pub data Status : Type 0 where
  initialize bootstrap resume index update collect map forward : Status

-- `iota + 1`
abbrev pub status_code : Status → ℕ
status_code initialize = 1
status_code bootstrap = 2
status_code resume = 3
status_code index = 4
status_code update = 5
status_code collect = 6
status_code map = 7
status_code forward = 8

pub record Config : Type 0 where
  pub bootstrap_state : Bool
  pub skip_registers : Bool

abbrev pub default_config : Config
default_config = record { bootstrap_state = false; skip_registers = false }

abbrev pub register_batch_size : ℕ
register_batch_size = 10000

module _ (K : Deps) where
  open K use {Payload, Header, Guarantee, Seal, Collection, Transaction, TxResult, Event, Tree}

  -- ledger.TrieUpdate
  pub record TrieUpdate : Type 0 where
    pub root : ℕ
    pub paths : List ℕ
    pub payloads : List Payload

  -- `done` says whether the channel is closed.
  pub record State : Type 0 where
    pub forest : Forest Tree
    pub status : Status
    pub height : ℕ
    pub last : ℕ
    pub next : ℕ
    pub register_idx : ℕ
    pub registers : Store (Option Payload)
    pub done : Bool

  -- A call of the index writer.
  pub data Write : Type 0 where
    first : ℕ → Write
    last : ℕ → Write
    height : ℕ → ℕ → Write
    header : ℕ → Header → Write
    guarantees : ℕ → List Guarantee → Write
    seals : ℕ → List Seal → Write
    commit : ℕ → ℕ → Write
    collections : ℕ → List Collection → Write
    transactions : ℕ → List Transaction → Write
    results : List TxResult → Write
    events : ℕ → List Event → Write
    payloads : ℕ → List ℕ → List (Option Payload) → Write

  -- What the interfaces answer while one transition runs.
  pub record Env : Type 0 where
    pub chain_root : Result ℕ
    pub chain_header : ℕ → Result Header
    pub chain_guarantees : ℕ → Result (List Guarantee)
    pub chain_seals : ℕ → Result (List Seal)
    pub chain_commit : ℕ → Result ℕ
    pub chain_collections : ℕ → Result (List Collection)
    pub chain_transactions : ℕ → Result (List Transaction)
    pub chain_results : ℕ → Result (List TxResult)
    pub chain_events : ℕ → Result (List Event)
    pub load_trie : Result Tree
    pub feed_update : Result TrieUpdate
    pub read_last : Result ℕ
    pub read_commit : ℕ → Result ℕ
    pub write_error : Write → Option Err

  -- The state, the `once` of the transitions and the writes that succeeded, the oldest first.
  pub record World : Type 0 where
    pub state : State
    pub once : Bool
    pub log : List Write

  abbrev pub Action : Type 0 → Type 0
  Action A = Exec World A

  abbrev pub empty_state : Forest Tree → State
  empty_state f = record {
    forest = f;
    status = initialize;
    height = 2 ^ 64 - 1;
    last = K.dummy_commitment;
    next = K.dummy_commitment;
    register_idx = 0;
    registers = [];
    done = false;
  }

module _ {K : Deps} where
  -- Assignments to fields of the state.
  abbrev pub modify : (State K → State K) → Action K Unit
  modify f w = (ok tt, record w { state = f w.state })

  -- A call of the index writer.
  unfoldable pub emit : Env K → Write K → Action K Unit
  emit env write w = elim (env.write_error write) [
    | none ↦ (ok tt, record w { log = w.log ++ write ∷ [] })
    | some e ↦ (err e, w)
  ]

  -- `t.once.Do(func() { err = t.write.First(height) })`: done once, also if the write fails.
  unfoldable pub first_once : Env K → ℕ → Action K Unit
  unfolding emit
  first_once env h w = if w.once then (ok tt, w) else emit env (first h) (record w { once = true })

  -- The guard at the head of each transition.
  abbrev pub guard_status : Status → Action K Unit → Action K Unit
  guard_status s body w =
      if status_code w.state.status == status_code s then body w else (err invalid_status, w)

  -- A call of the chain or the feeder whose unavailability ends the transition without an error.
  abbrev pub unless_unavailable : {A : Type 0} → Result A → (A → Action K Unit) → Action K Unit
  unless_unavailable (ok a) f w = f a w
  unless_unavailable (err unavailable) f w = (ok tt, w)
  unless_unavailable (err e) f w = (err e, w)
