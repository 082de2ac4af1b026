-- ===== src/Mapper/Collect.antt =====
-- The loop of CollectRegisters in transitions.go.
pub mod Walk
use flow_dps.Base.{
  ℕ, zero, suc, ◌-◌, ◌==◌, ltb, leb, Option, none, some, List, ◌∷◌, length, take, if◌then◌else◌,
}
use flow_dps.Base.Store.{Store, insert}
use flow_dps.Base.Outcome.{Result, ok, err, panic, missing_tree}
use flow_dps.Forest
use flow_dps.Forest.{Forest}
use flow_dps.Mapper.Types.{register_batch_size}

-- `paths[:end]`: all paths if they fit, and as many as fill the batch otherwise.
batch_of : ℕ → List ℕ → List ℕ
batch_of n paths =
    let end = register_batch_size - n in if leb (length paths) end then paths else take end paths

module _ {P : Type 0} where
  -- `for i := range payloads { s.registers[paths[i]] = payloads[i] }`
  put_all : List ℕ → List (Option P) → Store (Option P) → Store (Option P)
  put_all (p ∷ ps) (v ∷ vs) m = put_all ps vs (insert p v m)
  put_all ps vs m = m

  -- The end of a round: `regs` are the registers before it and `regs'` those after it. A batch that
  -- is already too large gives a negative bound of a slice.
  unfoldable pub close_round :
      Store (Option P)
      → Store (Option P)
      → Option (Result (Unit {0}) × Store (Option P))
      → Option (Result (Unit {0}) × Store (Option P))
  close_round regs regs' rest =
      if ltb register_batch_size (length regs)
      then some (err panic, regs)
      else if leb register_batch_size (length regs')
      then some (ok tt, regs')
      else rest

module _ {T P : Type 0} (unsafe_read : T → List ℕ → List (Option P)) where
  -- The reads of one round.
  unfoldable pub read_batch : T → List ℕ → Store (Option P) → Store (Option P)
  unfolding batch_of put_all
  read_batch tree all regs =
      let paths = batch_of (length regs) all in put_all paths (unsafe_read tree paths) regs

module _ {T P : Type 0} (unsafe_read : T → List ℕ → List (Option P)) (dummy : ℕ) where
  -- The loop from `commit` back to `last`. `none` means that the fuel ran out.
  unfoldable pub collect_loop :
      ℕ → Forest T → ℕ → ℕ → Store (Option P) → Option (Result (Unit {0}) × Store (Option P))
  unfolding Forest.tree_of Forest.paths_of Forest.parent_of
  collect_loop zero f last commit regs = none
  collect_loop (suc fuel) f last commit regs =
      let round : Option (Result (Unit {0}) × Store (Option P)) = elim (Forest.tree_of f commit) [
        | none ↦ some (err missing_tree, regs)
        | some tree ↦
            let regs' = read_batch unsafe_read tree (Forest.paths_of f commit).0 regs in
            let parent = (Forest.parent_of dummy f commit).0 in
            close_round regs regs' (collect_loop fuel f last parent regs')
      ] in
      if commit == last then some (ok tt, regs) else round
