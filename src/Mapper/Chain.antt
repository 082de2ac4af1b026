-- ===== src/Mapper/Chain.antt =====
-- IndexChain and ForwardHeight of transitions.go.
use flow_dps.Base.{ℕ, next_height}
use flow_dps.Base.Outcome.{from, ◌>>=◌, ◌>>◌}
use flow_dps.Forest
use flow_dps.Mapper.Types.{
  Deps, index, update, forward, Env, Action, modify, emit, first_once, guard_status, last, height,
  header, guarantees, seals, commit, collections, transactions, results, events, unless_unavailable,
}

module _ {K : Deps} where
  open K use {Header, header_id}

  -- The part of IndexChain after the commit of the block is there.
  unfoldable pub index_execution : Env K → ℕ → ℕ → Action K Unit
  unfolding emit
  index_execution env h c = do
    cs ← from (env.chain_collections h)
    ts ← from (env.chain_transactions h)
    rs ← from (env.chain_results h)
    es ← from (env.chain_events h)
    emit env (commit h c)
    emit env (collections h cs)
    emit env (transactions h ts)
    emit env (results rs)
    emit env (events h es)
    modify λ s. record s { last = s.next; next = c; status = update }

  -- The part before it. The data of the consensus state is indexed even if the block's execution
  -- data is not there yet, and once more when the transition is tried again.
  unfoldable pub index_consensus : Env K → ℕ → Header → Action K Unit
  unfolding emit
  index_consensus env h head = do
    gs ← from (env.chain_guarantees h)
    ss ← from (env.chain_seals h)
    emit env (height (header_id head) h)
    emit env (header h head)
    emit env (guarantees h gs)
    emit env (seals h ss)

  unfoldable pub index_chain : Env K → Action K Unit
  index_chain env = guard_status index λ w.
      let h = w.state.height in
      unless_unavailable (env.chain_header h)
        (λ head. do
          index_consensus env h head
          unless_unavailable (env.chain_commit h) (index_execution env h))
        w

  unfoldable pub forward_height : Env K → Action K Unit
  unfolding emit first_once Forest.reset
  forward_height env = guard_status forward λ w.
      let h = w.state.height in
      (do
        first_once env h
        emit env (last h)
        modify λ s. record s {
          height = next_height s.height;
          forest = Forest.reset s.next s.forest;
          register_idx = 0;
          status = index;
        })
        w
