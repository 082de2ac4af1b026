-- ===== src/Tracker/Execution/Cache.antt =====
-- Record of service/tracker/execution.go and the cache of block records.
use flow_dps.Base.{
  subst, ℕ, ◌≤◌, ◌==◌, ltb, not, ◌≡◌, refl, sym, ◌∙◌, ap, Option, none, some, List, [], ◌∷◌, arith,
  if◌then◌else◌,
}
use flow_dps.Base.Outcome.{ok-injective, Result, ok, err, unavailable}
use flow_dps.Base.Store.{Store, lookup, insert, keep, lookup-insert}
use flow_dps.Tracker.Execution.{
  BlockData, Execution, push_updates, store_record, process_answer, when_processed, purge,
  cached_or, record_from, record_of,
}

module _ {U : Type 0} where
  -- Each record is cached under the identifier of its block.
  abbrev pub WellKeyed : Store (BlockData U) → Type 0
  WellKeyed m = (k : ℕ) (r : BlockData U) → lookup k m ≡ some r → r.block_id ≡ k

  WellKeyed-insert :
      (r : BlockData U) (m : Store (BlockData U)) → WellKeyed m → WellKeyed (insert r.block_id r m)
  WellKeyed-insert r m h k x e = stored (sym (lookup-insert r.block_id k r m) ∙ e)
    where
      stored : (if r.block_id == k then some r else lookup k m) ≡ some x → x.block_id ≡ k
      stored q = ground (arith, h k x)

  WellKeyed-store_record :
      (o : Option (BlockData U)) (r : BlockData U) (e : Execution U)
      → WellKeyed e.records
      → WellKeyed (store_record o r e).1.records
  unfolding store_record
  WellKeyed-store_record none r e h = WellKeyed-insert r e.records h
  WellKeyed-store_record (some x) r e h = h

  WellKeyed-process_answer :
      (a : Result (BlockData U)) (e : Execution U)
      → WellKeyed e.records
      → WellKeyed (process_answer a e).1.records
  unfolding process_answer
  WellKeyed-process_answer (err x) e h = h
  WellKeyed-process_answer (ok r) e h = WellKeyed-store_record (lookup r.block_id e.records) r e h

  lookup-purged :
      (t k : ℕ) (r : BlockData U) (m : Store (BlockData U))
      → lookup k (keep (λ _ r. not (ltb r.height t)) m) ≡ some r
      → t ≤ r.height
  unfolding lookup keep
  lookup-purged t k r [] e = ground arith
  lookup-purged t k r ((j, v) ∷ m) e = ground (arith, lookup-purged t k r m)

  -- A record that is returned is the one asked for, and no cached one is below its height.
  abbrev Returned : ℕ → Result (BlockData U) × Execution U → Type 0
  Returned id (ok r, e') =
      (r.block_id ≡ id)
      × ((k : ℕ) (s : BlockData U) → lookup k e'.records ≡ some s → r.height ≤ s.height)
  Returned id (err x, e') = Unit

  cached_or-Returned :
      (id : ℕ) (o : Option (BlockData U)) (e : Execution U)
      (later : Result (BlockData U) × Execution U)
      → lookup id e.records ≡ o
      → WellKeyed e.records
      → Returned id later
      → Returned id (cached_or o e later)
  unfolding cached_or purge
  cached_or-Returned id (some r) e later q h l =
      (h id r q, λ k s. lookup-purged r.height k s e.records)
  cached_or-Returned id none e later q h l = l

  processed-Returned :
      (id : ℕ) (p : Result (Unit {0}) × Execution U)
      (next : Execution U → Result (BlockData U) × Execution U)
      → WellKeyed p.1.records
      → ((d : Execution U) → WellKeyed d.records → Returned id (next d))
      → Returned id (when_processed p next)
  processed-Returned id (ok u, d) next h k = k d h
  processed-Returned id (err x, d) next h k = tt

  record_from-Returned :
      (id : ℕ) (answers : List (Result (BlockData U))) (e : Execution U)
      → WellKeyed e.records
      → Returned id (record_from id answers e)
  unfolding record_from
  record_from-Returned id [] e h =
      cached_or-Returned id (lookup id e.records) (record e { stream = [] })
        (err unavailable, record e { stream = [] }) refl h tt
  record_from-Returned id (a ∷ answers) e h =
      cached_or-Returned id (lookup id e.records) (record e { stream = a ∷ answers })
        (when_processed (process_answer a (record e { stream = answers })) (record_from id answers))
        refl h
        (processed-Returned id (process_answer a (record e { stream = answers }))
          (record_from id answers) (WellKeyed-process_answer a (record e { stream = answers }) h)
          (λ d. record_from-Returned id answers d))

  returned :
      (id : ℕ) (o : Result (BlockData U)) (e : Execution U) {r : BlockData U}
      → Returned id (o, e)
      → o ≡ ok r
      → (r.block_id ≡ id)
        × ((k : ℕ) (s : BlockData U) → lookup k e.records ≡ some s → r.height ≤ s.height)
  returned id (ok v) e h q =
      subst
        (λ x.
          (x.block_id ≡ id)
          × ((k : ℕ) (s : BlockData U) → lookup k e.records ≡ some s → x.height ≤ s.height))
        (ok-injective q) h
  returned id (err x) e h q = ground arith

  -- With each record cached under its block's identifier, `Record` returns the record of the block
  -- asked for, if it returns one, and then the cache holds no record below that height.
  pub record_of-Returned :
      (id : ℕ) (e : Execution U) {r : BlockData U}
      → WellKeyed e.records
      → (record_of id e).0 ≡ ok r
      → (r.block_id ≡ id)
        × ((k : ℕ) (s : BlockData U)
            → lookup k (record_of id e).1.records ≡ some s
            → r.height ≤ s.height)
  unfolding record_of
  record_of-Returned id e h q =
      let o = record_from id e.stream e in
      returned id o.0 o.1 (record_from-Returned id e.stream e h) q

  -- None of the records ahead has been seen before, nor is the block `id` among them.
  abbrev pub AllNew : ℕ → List (BlockData U) → Store (BlockData U) → Type 0
  AllNew id [] m = lookup id m ≡ none
  AllNew id (x ∷ xs) m =
      (lookup id m ≡ none) × (lookup x.block_id m ≡ none) × AllNew id xs (insert x.block_id x m)

  abbrev pub then_answers :
      List (BlockData U) → List (Result (BlockData U)) → List (Result (BlockData U))
  then_answers [] rest = rest
  then_answers (x ∷ xs) rest = ok x ∷ then_answers xs rest

  record_from-cached :
      (id : ℕ) (r : BlockData U) (answers : List (Result (BlockData U))) (e : Execution U)
      → lookup id e.records ≡ some r
      → (record_from id answers e).0 ≡ ok r
  unfolding record_from cached_or
  record_from-cached id r [] e h = rw h
  record_from-cached id r (a ∷ answers) e h = rw h

  record_from-arrives :
      (ahead : List (BlockData U)) (r : BlockData U) (rest : List (Result (BlockData U)))
      (e : Execution U)
      → AllNew r.block_id ahead e.records
      → (record_from r.block_id (then_answers ahead (ok r ∷ rest)) e).0 ≡ ok r
  unfolding record_from cached_or process_answer store_record
  record_from-arrives [] r rest e h = rw h (
      record_from-cached r.block_id r rest
        (record e {
          stream = rest;
          records = insert r.block_id r e.records;
          queue = push_updates r.updates e.queue;
        })
        (lookup-insert r.block_id r.block_id r e.records ∙ ground arith))
  record_from-arrives (x ∷ ahead) r rest e h =
      rw (h.0, h.1)
        (record_from-arrives ahead r rest
          (record e {
            stream = then_answers ahead (ok r ∷ rest);
            records = insert x.block_id x e.records;
            queue = push_updates x.updates e.queue;
          })
          h.2)

  -- A block whose record is in the stream is found: `Record` reads past the records ahead of it.
  pub record_of-arrives :
      (ahead : List (BlockData U)) (r : BlockData U) (rest : List (Result (BlockData U)))
      (e : Execution U)
      → e.stream ≡ then_answers ahead (ok r ∷ rest)
      → AllNew r.block_id ahead e.records
      → (record_of r.block_id e).0 ≡ ok r
  unfolding record_of
  record_of-arrives ahead r rest e s h =
      ap (λ l. (record_from r.block_id l e).0) s ∙ record_from-arrives ahead r rest e h
