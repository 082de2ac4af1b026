-- ===== src/Mapper/Cycle.antt =====
-- CollectRegisters and MapRegisters of transitions.go by turns.
use flow_dps.Base.{
  ℕ, ◌+◌, ◌≤◌, ◌<◌, ◌==◌, ◌≡◌, ◌⊎◌, inl, inr, refl, sym, subst, Bool, false, Option, none, some,
  List, [], ◌∷◌, ◌++◌, arith, length, take_all, drop_all, All,
}
use flow_dps.Base.Store.{Store}
use flow_dps.Base.Outcome.{ok}
use flow_dps.Forest.{Forest}
use flow_dps.Mapper.Types.{
  Deps, Status, collect, map, Config, State, Env, World, Write, payloads, register_batch_size,
}
use flow_dps.Mapper.Collect.{collect_loop}
use flow_dps.Mapper.Indexing.{emit-ok}
use flow_dps.Mapper.Registers.{collect_registers, map_registers, after_collect, keys, values}
use flow_dps.Mapper.Machine.{step, Tick, Outcome, running, run, judge}

module _ {K : Deps} where
  -- A round in which the machine is not stopped and no write fails.
  abbrev pub Quiet : Tick K → Type 0
  Quiet t = (t.stopped ≡ false) × ((x : Write K) → t.env.write_error x ≡ none)

  -- What a schedule makes of a world: the loop is still running, at the same height, and in one of
  -- the two statuses.
  abbrev pub StaysAt : ℕ → Outcome × World K → Type 0
  StaysAt h r =
      (r.0 ≡ running)
      × (r.1.state.height ≡ h)
      × ((r.1.state.status ≡ collect) ⊎ (r.1.state.status ≡ map))

module _ {K : Deps} (fuel : ℕ) (cfg : Config) (f : Forest K.Tree) (height last next : ℕ)
    (regs : Store (Option K.Payload)) where
  -- The worlds between which the machine moves.
  abbrev world_at : Status → ℕ → Store (Option K.Payload) → Bool → List (Write K) → World K
  world_at st idx rs once log = record {
    state = record {
      forest = f;
      status = st;
      height = height;
      last = last;
      next = next;
      register_idx = idx;
      registers = rs;
      done = false;
    };
    once = once;
    log = log;
  }

  module _ (no_skip : cfg.skip_registers ≡ false)
      (loop : collect_loop K.unsafe_read K.dummy_commitment fuel f last next []
        ≡ some (ok tt, regs))
      (some_register : 0 < length regs) (fits : length regs ≤ register_batch_size) where
    collect_round :
        (env : Env K) (idx : ℕ) (once : Bool) (log : List (Write K))
        → step fuel cfg env (world_at collect idx [] once log)
          ≡ (ok tt, world_at map idx regs once log)
    unfolding step collect_registers after_collect
    collect_round env idx once log =
        let nz : (length regs == 0) ≡ false = ground arith in simp (no_skip, loop, nz)

    map_round :
        (env : Env K) (idx : ℕ) (once : Bool) (log : List (Write K))
        → ((x : Write K) → env.write_error x ≡ none)
        → step fuel cfg env (world_at map idx regs once log) ≡ (
          ok tt,
          world_at collect
              (idx + length regs)
              []
              once
              (log ++ payloads height (keys regs) (values regs) ∷ []),
        )
    unfolding step map_registers
    map_round env idx once log n =
        let nz : (length regs == 0) ≡ false = ground arith in
        simp (
          nz,
          take_all register_batch_size regs fits,
          drop_all register_batch_size regs fits,
          emit-ok env,
          n,
        )

    run_cycle :
        (ts : List (Tick K)) (idx : ℕ) (once : Bool) (log : List (Write K))
        → All Quiet ts
        → StaysAt height (run fuel cfg ts (world_at collect idx [] once log))
          × StaysAt height (run fuel cfg ts (world_at map idx regs once log))
    unfolding run judge
    run_cycle [] idx once log q = ((refl, refl, inl refl), (refl, refl, inr refl))
    run_cycle (t ∷ ts) idx once log q = (
      rw (q.0.0, collect_round t.env idx once log) (run_cycle ts idx once log q.1).1,
      rw (q.0.0, map_round t.env idx once log q.0.1)
          (run_cycle ts (idx + length regs) once
            (log ++ payloads height (keys regs) (values regs) ∷ []) q.1).0,
    )

-- A block that has registers to index is never finished: where the walk collects some, but not more
-- than a batch, the machine goes round between collecting and mapping as long as it is not stopped
-- and no write fails, and stays at the height of the block.
pub never_forwards :
    {K : Deps} (fuel : ℕ) (cfg : Config) (s : State K) (once : Bool) (log : List (Write K))
    (regs : Store (Option K.Payload)) (ts : List (Tick K))
    → s.status ≡ collect
    → s.registers ≡ []
    → s.done ≡ false
    → cfg.skip_registers ≡ false
    → collect_loop K.unsafe_read K.dummy_commitment fuel s.forest s.last s.next []
      ≡ some (ok tt, regs)
    → 0 < length regs
    → length regs ≤ register_batch_size
    → All Quiet ts
    → StaysAt s.height (run fuel cfg ts (record { state = s; once = once; log = log }))
never_forwards fuel cfg s once log regs ts c e d n l p q a =
    let at : record s { status = collect; registers = []; done = false } ≡ s =
      λ i. record s { status = sym c i; registers = sym e i; done = sym d i } in
    subst (λ t. StaysAt s.height (run fuel cfg ts (record { state = t; once = once; log = log })))
      at
      (run_cycle fuel cfg s.forest s.height s.last s.next regs n l p q ts s.register_idx once log
        a).0
