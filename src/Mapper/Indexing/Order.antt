-- ===== src/Mapper/Indexing/Order.antt =====
-- The order of the writes of IndexChain of transitions.go.
use flow_dps.Base.{ℕ, ◌≤◌, ◌≡◌, List, [], ◌∷◌, ◌++◌, map, take, length}
use flow_dps.Base.Outcome.{Result, ok}
use flow_dps.Mapper.Types.{
  Deps, update, Env, World, Write, first, last, height, header, guarantees, seals, commit,
  collections, transactions, results, events, payloads,
}

-- The calls of the writer.
pub data Kind : Type 0 where
  a_first a_last a_height a_header some_guarantees some_seals a_commit : Kind
  some_collections some_transactions some_results some_events some_payloads : Kind

abbrev consensus_kinds : List Kind
consensus_kinds = a_height ∷ a_header ∷ some_guarantees ∷ some_seals ∷ []

abbrev execution_kinds : List Kind
execution_kinds = a_commit ∷ some_collections ∷ some_transactions ∷ some_results ∷ some_events ∷ []

-- The nine writes for a block, in the order in which they are made.
abbrev pub block_kinds : List Kind
block_kinds = consensus_kinds ++ execution_kinds

module _ {K : Deps} where
  abbrev pub kind : Write K → Kind
  kind (first _) = a_first
  kind (last _) = a_last
  kind (height _ _) = a_height
  kind (header _ _) = a_header
  kind (guarantees _ _) = some_guarantees
  kind (seals _ _) = some_seals
  kind (commit _ _) = a_commit
  kind (collections _ _) = some_collections
  kind (transactions _ _) = some_transactions
  kind (results _) = some_results
  kind (events _ _) = some_events
  kind (payloads _ _ _) = some_payloads

  abbrev pub kinds : World K → List Kind
  kinds w = map kind w.log

  -- Of writes of these kinds the first ones were made, and all of them if there was no error.
  abbrev Emitted : World K → List Kind → Result (Unit {0}) × World K → Type 0
  Emitted w ks o =
      (n : ℕ) × (n ≤ length ks) × (kinds o.1 ≡ kinds w ++ take n ks) × (o.0 ≡ ok tt → n ≡ length ks)

  module _ (env : Env K) where
    -- The first of the nine writes were made, and all of them if the machine goes on to the updates.
    abbrev pub WritesInOrder : World K → Result (Unit {0}) × World K → Type 0
    WritesInOrder w o =
        (n : ℕ) × (n ≤ 9)
        × (kinds o.1 ≡ kinds w ++ take n block_kinds)
        × (o.1.state.status ≡ update → n ≡ 9)
