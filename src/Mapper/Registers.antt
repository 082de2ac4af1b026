-- ===== src/Mapper/Registers.antt =====
-- UpdateTree, CollectRegisters and MapRegisters of transitions.go.
use flow_dps.Base.{
  ℕ, ◌+◌, ◌==◌, Option, none, some, List, [], ◌∷◌, length, take, drop, if◌then◌else◌,
}
use flow_dps.Base.Store.{Store}
use flow_dps.Base.Outcome.{Result, out_of_fuel, from, pure, raise, ◌>>=◌, ◌>>◌}
use flow_dps.Forest
use flow_dps.Mapper.Types.{
  Deps, update, collect, map, forward, Config, TrieUpdate, Env, Action, payloads, modify, emit,
  guard_status, unless_unavailable, register_batch_size,
}
use flow_dps.Mapper.Collect.{collect_loop}
use flow_dps.Mapper.Pathings.{paths_payloads}

module _ {V : Type 0} where
  unfoldable pub keys : Store V → List ℕ
  keys [] = []
  keys ((k, _) ∷ m) = k ∷ keys m

  unfoldable pub values : Store V → List V
  values [] = []
  values ((_, v) ∷ m) = v ∷ values m

module _ {K : Deps} where
  open K use {Payload, Tree, root_hash, mutate, unsafe_read}

  -- An update whose tree is not in the forest is skipped.
  unfoldable pub apply_update : TrieUpdate K → Option Tree → Action K Unit
  apply_update u none = pure tt
  apply_update u (some tree) = do
    (paths, values) ← from (paths_payloads u.paths u.payloads)
    tree' ← from (mutate tree paths values)
    modify λ s. record s { forest = Forest.add root_hash tree' paths u.root s.forest }

  unfoldable pub update_tree : Env K → Action K Unit
  update_tree env = guard_status update λ w.
      if Forest.has w.state.forest w.state.next
      then modify (λ s. record s { status = collect }) w
      else unless_unavailable env.feed_update
          (λ u. apply_update u (Forest.tree_of w.state.forest u.root)) w

  -- What CollectRegisters does once the loop has ended.
  unfoldable pub after_collect : Option (Result (Unit {0}) × Store (Option Payload)) → Action K Unit
  after_collect none = raise out_of_fuel
  after_collect (some (r, regs)) = do
    modify λ s. record s { registers = regs }
    from r
    modify λ s. record s { status = if length regs == 0 then forward else map }

  unfoldable pub collect_registers : ℕ → Config → Action K Unit
  collect_registers fuel cfg = guard_status collect λ w.
      let s = w.state in
      let loop =
        after_collect
          (collect_loop unsafe_read K.dummy_commitment fuel s.forest s.last s.next s.registers) w in
      if cfg.skip_registers then modify (λ t. record t { status = forward }) w else loop

  -- Go's iteration over the map visits it in some order; here it is the order of the list.
  unfoldable pub map_registers : Env K → Action K Unit
  map_registers env = guard_status map λ w.
      let s = w.state in
      let batch = take register_batch_size s.registers in
      let write_batch : Action K Unit = (do
        modify λ t. record t {
          registers = drop register_batch_size t.registers;
          register_idx = t.register_idx + length batch;
        }
        emit env (payloads s.height (keys batch) (values batch))
        modify λ t. record t { status = collect }) in
      if length s.registers == 0
      then modify (λ t. record t { status = forward }) w
      else write_batch w
