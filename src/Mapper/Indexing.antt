-- ===== src/Mapper/Indexing.antt =====
-- What IndexChain of transitions.go changes, on every branch.
pub mod Order
use flow_dps.Base.{ℕ, ◌≡◌, ◌⊎◌, none, some, List, [], ◌∷◌, ◌++◌, arith}
use mathlib.Core.List.{append_assoc}
use flow_dps.Base.Outcome.{Err, ok, err}
use flow_dps.Mapper.Types.{
  Deps, index, update, State, Env, World, Write, height, header, guarantees, seals, commit,
  collections, transactions, results, events, emit,
}
use flow_dps.Mapper.Chain.{index_consensus, index_execution, index_chain}

module _ {K : Deps} where
  open K use {Header, Guarantee, Seal, Collection, Transaction, TxResult, Event, header_id}

  pub consensus_keeps :
      (env : Env K) (h : ℕ) (head : Header) (w : World K)
      → ((index_consensus env h head w).1.state ≡ w.state)
        × ((index_consensus env h head w).1.once ≡ w.once)
  unfolding index_consensus
  consensus_keeps env h head w = ground arith

  pub execution_keeps :
      (env : Env K) (h c : ℕ) (w : World K) {e : Err}
      → (index_execution env h c w).0 ≡ err e
      → ((index_execution env h c w).1.state ≡ w.state)
        × ((index_execution env h c w).1.once ≡ w.once)
  unfolding index_execution
  execution_keeps env h c w p = ground arith

  -- the state after the height was indexed: the commitments move on
  abbrev pub advanced : State K → ℕ → State K
  advanced s c = record s { last = s.next; next = c; status = update }

  pub execution_done :
      (env : Env K) (h c : ℕ) (w : World K)
      → (index_execution env h c w).0 ≡ ok tt
      → ((index_execution env h c w).1.state ≡ advanced w.state c)
        × ((index_execution env h c w).1.once ≡ w.once)
  unfolding index_execution
  execution_done env h c w p = ground arith

  -- A failing IndexChain leaves the state as it was: only writes may have been added.
  pub index_chain_error :
      (env : Env K) (w : World K) {e : Err}
      → (index_chain env w).0 ≡ err e
      → ((index_chain env w).1.state ≡ w.state) × ((index_chain env w).1.once ≡ w.once)
  unfolding index_chain
  index_chain_error env w p = grind (arith, consensus_keeps, execution_keeps)

  -- A round of IndexChain that ends without an error either waits, in the same state, or has
  -- advanced to the commitment that the chain gives for the height.
  pub index_chain_progress :
      (env : Env K) (w : World K)
      → (index_chain env w).0 ≡ ok tt
      → ((index_chain env w).1.state ≡ w.state)
        ⊎ ((c : ℕ) × (env.chain_commit w.state.height ≡ ok c)
            × ((index_chain env w).1.state ≡ advanced w.state c))
  unfolding index_chain
  index_chain_progress env w p = grind (arith, consensus_keeps, execution_done)

  pub emit-ok :
      (env : Env K) (x : Write K) (w : World K)
      → env.write_error x ≡ none
      → emit env x w ≡ (ok tt, record w { log = w.log ++ x ∷ [] })
  unfolding emit
  emit-ok env x w n = rw (n, emit)

  pub emit-err :
      (env : Env K) (x : Write K) (w : World K) {e : Err}
      → env.write_error x ≡ some e
      → emit env x w ≡ (err e, w)
  unfolding emit
  emit-err env x w n = rw (n, emit)
