-- ===== src/Tracker/Execution.antt =====
-- service/tracker/execution.go. The stream is the list of the answers that Next will give; at its end
-- it has no more records. The deque is the list of Queue.
pub mod Order
pub mod Cache
use flow_dps.Base.{ℕ, ltb, not, Option, none, some, List, [], ◌∷◌}
use flow_dps.Base.Outcome.{unavailable, duplicate_record, Result, ok, err}
use flow_dps.Base.Store.{Store, lookup, insert, keep}
use flow_dps.Queue.{push_front, pop_back}

module _ (U : Type 0) where
  -- uploader.BlockData as far as the tracker reads it; a trie update may be nil.
  pub record BlockData : Type 0 where
    pub block_id : ℕ
    pub height : ℕ
    pub updates : List (Option U)

  pub record Execution : Type 0 where
    pub queue : List U
    pub stream : List (Result BlockData)
    pub records : Store BlockData

module _ {U : Type 0} where
  -- The tail of NewExecution, with the record that it builds of the root block.
  unfoldable pub new_execution : List (Result (BlockData U)) → ℕ → ℕ → Execution U
  unfolding insert
  new_execution stream root_id root_height = record {
    queue = [];
    stream = stream;
    records = insert root_id (record { block_id = root_id; height = root_height; updates = [] }) [];
  }

  -- The loop over the updates of a record.
  unfoldable pub push_updates : List (Option U) → List U → List U
  unfolding push_front
  push_updates [] queue = queue
  push_updates (none ∷ us) queue = push_updates us queue
  push_updates (some u ∷ us) queue = push_updates us (push_front u queue)

  store_record : Option (BlockData U) → BlockData U → Execution U → Result (Unit {0}) × Execution U
  unfolding push_updates insert
  store_record (some _) r e = (err duplicate_record, e)
  store_record none r e = (
    ok tt,
    record e { records = insert r.block_id r e.records; queue = push_updates r.updates e.queue },
  )

  -- `processNext`, by the answer of the stream.
  unfoldable pub process_answer :
      Result (BlockData U) → Execution U → Result (Unit {0}) × Execution U
  unfolding store_record lookup
  process_answer (err x) e = (err x, e)
  process_answer (ok r) e = store_record (lookup r.block_id e.records) r e

  unfoldable pub purge : ℕ → Execution U → Execution U
  unfolding keep
  purge threshold e = record e { records = keep (λ _ r. not (ltb r.height threshold)) e.records }

  pop_or : Option (U × List U) → Execution U → Result U × Execution U → Result U × Execution U
  pop_or (some (u, queue)) e later = (ok u, record e { queue = queue })
  pop_or none e later = later

  abbrev pub when_processed :
      {A : Type 0}
      → Result (Unit {0}) × Execution U
      → (Execution U → Result A × Execution U)
      → Result A × Execution U
  when_processed (ok u, e) k = k e
  when_processed (err x, e) k = (err x, e)

  -- Update, by recursion on the stream `answers`, which the argument's field is set to.
  update_from : List (Result (BlockData U)) → Execution U → Result U × Execution U
  unfolding pop_or process_answer
  update_from [] e =
      pop_or (pop_back e.queue) (record e { stream = [] })
        (err unavailable, record e { stream = [] })
  update_from (a ∷ answers) e =
      pop_or (pop_back e.queue) (record e { stream = a ∷ answers })
        (when_processed (process_answer a (record e { stream = answers })) (update_from answers))

  unfoldable pub update : Execution U → Result U × Execution U
  unfolding update_from
  update e = update_from e.stream e

  cached_or :
      Option (BlockData U)
      → Execution U
      → Result (BlockData U) × Execution U
      → Result (BlockData U) × Execution U
  unfolding purge
  cached_or (some r) e later = (ok r, purge r.height e)
  cached_or none e later = later

  -- Record, by recursion on the stream as well.
  record_from : ℕ → List (Result (BlockData U)) → Execution U → Result (BlockData U) × Execution U
  unfolding cached_or process_answer
  record_from id [] e =
      cached_or (lookup id e.records) (record e { stream = [] })
        (err unavailable, record e { stream = [] })
  record_from id (a ∷ answers) e =
      cached_or (lookup id e.records) (record e { stream = a ∷ answers })
        (when_processed (process_answer a (record e { stream = answers })) (record_from id answers))

  unfoldable pub record_of : ℕ → Execution U → Result (BlockData U) × Execution U
  unfolding record_from
  record_of id e = record_from id e.stream e
