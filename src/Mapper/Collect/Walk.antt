-- ===== src/Mapper/Collect/Walk.antt =====
-- The walk of CollectRegisters from the commitment of a block back to that of the last one.
use flow_dps.Base.{
  ℕ, zero, suc, ◌+◌, ◌-◌, ◌≤◌, ◌<◌, ltb, leb, ◌≡◌, ◌≢◌, refl, ap, ◌∙◌, true, false, Option, none,
  some, List, [], ◌∷◌, ◌++◌, map, arith, length, All, contains, if_intro, if◌then◌else◌,
}
use flow_dps.Base.Store.{Store, lookup, insert, lookup-insert, length-insert}
use flow_dps.Base.Outcome.{Result, ok, err, panic}
use flow_dps.Forest.{Forest, Step}
use flow_dps.Mapper.Types.{register_batch_size}
use flow_dps.Mapper.Collect.{collect_loop, put_all, batch_of, close_round, read_batch}

-- The steps of the forest from a commitment, the newest first, until `last` is reached.
pub data Walk {T : Type 0} (f : Forest T) (last : ℕ) : ℕ → List (Step T) → Type 0 where
  here : {c : ℕ} → c ≡ last → Walk f last c []
  back :
      {c : ℕ} {s : Step T} {ss : List (Step T)}
      → c ≢ last
      → lookup c f.steps ≡ some s
      → Walk f last s.parent ss
      → Walk f last c (s ∷ ss)

-- How many paths the steps name.
abbrev pub path_count : {T : Type 0} → List (Step T) → ℕ
path_count [] = 0
path_count (s ∷ ss) = length s.paths + path_count ss

module _ {P : Type 0} where
  length-put_all :
      (ps : List ℕ) (vs : List (Option P)) (m : Store (Option P))
      → length (put_all ps vs m) ≤ length m + length ps
  unfolding put_all
  length-put_all [] vs m = omega arith
  length-put_all (p ∷ ps) [] m = omega arith
  length-put_all (p ∷ ps) (v ∷ vs) m =
      omega (arith, length-put_all ps vs (insert p v m), length-insert p v m)

  close_round_ends :
      (regs regs' : Store (Option P)) (r : Result (Unit {0}) × Store (Option P))
      → (q : Result (Unit {0}) × Store (Option P)) × (close_round regs regs' (some r) ≡ some q)
  unfolding close_round
  close_round_ends regs regs' r =
      let Ends = λ (o : Option (Result (Unit {0}) × Store (Option P))).
        (q : Result (Unit {0}) × Store (Option P)) × (o ≡ some q) in
      if_intro Ends (ltb register_batch_size (length regs)) (some (err panic, regs))
        (if leb register_batch_size (length regs') then some (ok tt, regs') else some r)
        ((err panic, regs), refl)
        (if_intro Ends (leb register_batch_size (length regs')) (some (ok tt, regs')) (some r)
          ((ok tt, regs'), refl) (r, refl))

  close_round-none :
      (regs : Store (Option P))
      → length regs < register_batch_size
      → close_round regs regs none ≡ none
  unfolding close_round
  close_round-none regs h = ground arith

  close_round_open :
      (regs regs' : Store (Option P)) (rest : Option (Result (Unit {0}) × Store (Option P)))
      → length regs < register_batch_size
      → length regs' < register_batch_size
      → close_round regs regs' rest ≡ rest
  unfolding close_round
  close_round_open regs regs' rest h k = ground arith

module _ {T P : Type 0} (unsafe_read : T → List ℕ → List (Option P)) where
  -- What the rounds over some steps make of the registers while they all fit into the batch.
  pub replay : List (Step T) → Store (Option P) → Store (Option P)
  replay [] regs = regs
  replay (s ∷ ss) regs = replay ss (put_all s.paths (unsafe_read s.tree s.paths) regs)

  read_batch-nil :
      (t : T) (paths : List ℕ) (regs : Store (Option P))
      → paths ≡ []
      → read_batch unsafe_read t paths regs ≡ regs
  unfolding read_batch put_all batch_of
  read_batch-nil t [] regs e = ground arith
  read_batch-nil t (p ∷ ps) regs e = cc

  read_batch_fits :
      (t : T) (ps : List ℕ) (regs : Store (Option P))
      → length regs + length ps ≤ register_batch_size
      → read_batch unsafe_read t ps regs ≡ put_all ps (unsafe_read t ps) regs
  unfolding read_batch batch_of
  read_batch_fits t ps regs h =
      let fits : leb (length ps) (register_batch_size - length regs) ≡ true = ground arith in
      rw fits

module _ {T P : Type 0} (unsafe_read : T → List ℕ → List (Option P)) (dummy : ℕ) where
  -- One round at a commitment of the forest.
  collect_round :
      (fuel : ℕ) (f : Forest T) (last c : ℕ) (s : Step T) (regs : Store (Option P))
      → c ≢ last
      → lookup c f.steps ≡ some s
      → collect_loop unsafe_read dummy (suc fuel) f last c regs
        ≡ close_round regs (read_batch unsafe_read s.tree s.paths regs) (
            collect_loop unsafe_read dummy fuel f last s.parent
              (read_batch unsafe_read s.tree s.paths regs))
  unfolding collect_loop
  collect_round fuel f last c s regs n e = ground arith

  -- With more fuel than there are steps between the two commitments, the loop ends.
  pub collect_loop_ends :
      (fuel : ℕ) {f : Forest T} {last c : ℕ} {ss : List (Step T)} (regs : Store (Option P))
      → Walk f last c ss
      → length ss < fuel
      → (r : Result (Unit {0}) × Store (Option P)) × (collect_loop unsafe_read dummy fuel f last c
            regs
          ≡ some r)
  collect_loop_ends zero regs w h = absurd (omega arith)
  collect_loop_ends (suc fuel) regs (here e) h =
      ((ok tt, regs), unfold collect_loop in ground arith)
  collect_loop_ends (suc fuel) {f} {last} regs (back {c = c} {s = s} n e w) h =
      let regs' = read_batch unsafe_read s.tree s.paths regs in
      let (r, p) = collect_loop_ends fuel {c = s.parent} regs' w (omega arith) in
      let (q, t) = close_round_ends regs regs' r in
      (q, collect_round fuel f last c s regs n e ∙ ap (close_round regs regs') p ∙ t)

  -- A commitment that is its own parent, and has no paths, holds the loop for ever.
  pub collect_loop_stuck :
      (fuel : ℕ) (f : Forest T) (last c : ℕ) (s : Step T) (regs : Store (Option P))
      → c ≢ last
      → lookup c f.steps ≡ some s
      → s.parent ≡ c
      → s.paths ≡ []
      → length regs < register_batch_size
      → collect_loop unsafe_read dummy fuel f last c regs ≡ none
  collect_loop_stuck zero f last c s regs n e p q h = unfold collect_loop in refl
  collect_loop_stuck (suc fuel) f last c s regs n e p q h =
      collect_round fuel f last c s regs n e
      ∙ rw (read_batch-nil unsafe_read s.tree s.paths regs q, p)
          (rw (collect_loop_stuck fuel f last c s regs n e p q h) (close_round-none regs h))

  pub collect_loop-replay :
      (fuel : ℕ) {f : Forest T} {last c : ℕ} (ss : List (Step T)) (regs : Store (Option P))
      → Walk f last c ss
      → length ss < fuel
      → length regs + path_count ss < register_batch_size
      → collect_loop unsafe_read dummy fuel f last c regs ≡ some (ok tt, replay unsafe_read ss regs)
  unfolding replay
  collect_loop-replay zero ss regs w h k = absurd (omega arith)
  collect_loop-replay (suc fuel) ss regs (here e) h k = unfold collect_loop in ground arith
  collect_loop-replay (suc fuel) {f} {last} ss regs (back {c = c} {s = s} {ss = rest} n e w) h k =
      let regs' = put_all s.paths (unsafe_read s.tree s.paths) regs in
      let grows : length regs' ≤ length regs + length s.paths =
        length-put_all s.paths (unsafe_read s.tree s.paths) regs in
      collect_round fuel f last c s regs n e
      ∙ rw (read_batch_fits unsafe_read s.tree s.paths regs (omega arith)) (
          close_round_open regs regs' (collect_loop unsafe_read dummy fuel f last s.parent regs')
            (omega arith) (omega arith)
          ∙ collect_loop-replay fuel {c = s.parent} rest regs' w (omega arith) (omega arith))

module _ {P : Type 0} where
  -- Reading paths one by one, as `UnsafeRead` does, puts what is read under each path.
  lookup-put_all :
      (read : ℕ → Option P) (q : ℕ) (ps : List ℕ) (m : Store (Option P))
      → lookup q (put_all ps (map read ps) m)
        ≡ (if contains q ps then some (read q) else lookup q m)
  unfolding put_all
  lookup-put_all read q [] m = refl
  lookup-put_all read q (p ∷ ps) m =
      ground (arith, lookup-put_all read q ps (insert p (read p) m), lookup-insert p q (read p) m)

module _ {T P : Type 0} (read : T → ℕ → Option P) where
  abbrev pub read_all : T → List ℕ → List (Option P)
  read_all t = map (read t)

  replay_other :
      (q : ℕ) (ss : List (Step T)) (regs : Store (Option P))
      → All (λ s. contains q s.paths ≡ false) ss
      → lookup q (replay read_all ss regs) ≡ lookup q regs
  unfolding replay
  replay_other q [] regs h = refl
  replay_other q (s ∷ ss) regs h =
      replay_other q ss (put_all s.paths (read_all s.tree s.paths) regs) h.1
      ∙ lookup-put_all (read s.tree) q s.paths regs
      ∙ rw h.0

  replay_oldest :
      (q : ℕ) (newer : List (Step T)) (s : Step T) (older : List (Step T)) (regs : Store (Option P))
      → contains q s.paths ≡ true
      → All (λ t. contains q t.paths ≡ false) older
      → lookup q (replay read_all (newer ++ s ∷ older) regs) ≡ some (read s.tree q)
  unfolding replay
  replay_oldest q [] s older regs i h =
      replay_other q older (put_all s.paths (read_all s.tree s.paths) regs) h
      ∙ lookup-put_all (read s.tree) q s.paths regs
      ∙ rw i
  replay_oldest q (n ∷ newer) s older regs i h =
      replay_oldest q newer s older (put_all n.paths (read_all n.tree n.paths) regs) i h

  -- Of several updates of a path within one block, the loop keeps the payload of the oldest one:
  -- a batch that is not full holds for each path what was read at the step nearest to `last`.
  pub collect_loop-oldest :
      (dummy fuel : ℕ) {f : Forest T} {last c : ℕ} (q : ℕ) (newer : List (Step T)) (s : Step T)
      (older : List (Step T))
      → Walk f last c (newer ++ s ∷ older)
      → length (newer ++ s ∷ older) < fuel
      → path_count (newer ++ s ∷ older) < register_batch_size
      → contains q s.paths ≡ true
      → All (λ t. contains q t.paths ≡ false) older
      → (regs : Store (Option P)) × (collect_loop read_all dummy fuel f last c []
          ≡ some (ok tt, regs))
        × (lookup q regs ≡ some (read s.tree q))
  collect_loop-oldest dummy fuel q newer s older w h k i a = (
    replay read_all (newer ++ s ∷ older) [],
    collect_loop-replay read_all dummy fuel (newer ++ s ∷ older) [] w h (omega arith),
    replay_oldest q newer s older [] i a,
  )
