-- ===== src/Tracker/Execution/Order.antt =====
-- Update of service/tracker/execution.go: the order of the trie updates.
use mathlib.Core.List.{append_assoc, append-nil}
use flow_dps.Base.{
  arith, ◌≡◌, ◌≢◌, subst, refl, sym, ◌∙◌, ap, Option, none, some, List, [], ◌∷◌, ◌++◌,
}
use flow_dps.Base.Outcome.{Err, ok-injective, Result, ok, err, unavailable, duplicate_record}
use flow_dps.Base.Store.{lookup, insert}
use flow_dps.Queue.{push_front, pop_back, waiting, waiting-push_front, waiting-pop_back}
use flow_dps.Tracker.Execution.{
  BlockData, Execution, push_updates, store_record, process_answer, pop_or, when_processed,
  update_from, update,
}

module _ {U : Type 0} where
  -- The updates of a record that are not nil.
  abbrev pub present : List (Option U) → List U
  present [] = []
  present (none ∷ us) = present us
  present (some u ∷ us) = u ∷ present us

  -- The updates of the records in a stream.
  abbrev pub updates_in : List (Result (BlockData U)) → List U
  updates_in [] = []
  updates_in (ok r ∷ more) = present r.updates ++ updates_in more
  updates_in (err x ∷ more) = updates_in more

  -- The updates still to come: those in the queue, then those of the records not yet read.
  abbrev pub to_come : Execution U → List U
  to_come e = waiting e.queue ++ updates_in e.stream

  waiting-push_updates :
      (us : List (Option U)) (queue : List U)
      → waiting (push_updates us queue) ≡ waiting queue ++ present us
  unfolding push_updates
  waiting-push_updates [] queue = sym (append-nil (waiting queue))
  waiting-push_updates (none ∷ us) queue = waiting-push_updates us queue
  waiting-push_updates (some u ∷ us) queue =
      waiting-push_updates us (push_front u queue)
      ∙ ap (λ l. l ++ present us) (waiting-push_front u queue)
      ∙ append_assoc (waiting queue) (u ∷ []) (present us)

  -- What a call leaves of the updates to come `us`: a successful Update takes the first one; an error
  -- takes none, unless it is about a record that came twice.
  abbrev Took : List U → Result U × Execution U → Type 0
  Took us (ok u, e') = us ≡ u ∷ to_come e'
  Took us (err x, e') = x ≢ duplicate_record → us ≡ to_come e'

  pop_or-Took :
      (o : Option (U × List U)) (e : Execution U) (later : Result U × Execution U)
      → pop_back e.queue ≡ o
      → Took (to_come e) later
      → Took (to_come e) (pop_or o e later)
  unfolding pop_or
  pop_or-Took (some (u, queue)) e later q h =
      ap (λ l. l ++ updates_in e.stream) (waiting-pop_back e.queue q)
  pop_or-Took none e later q h = h

  store_record-Took :
      (o : Option (BlockData U)) (r : BlockData U) (e : Execution U)
      (next : Execution U → Result U × Execution U)
      → ((d : Execution U) → Took (waiting d.queue ++ updates_in e.stream) (next d))
      → Took
          (waiting e.queue ++ (present r.updates ++ updates_in e.stream))
          (when_processed (store_record o r e) next)
  unfolding store_record
  store_record-Took none r e next h =
      subst
        (λ us. Took us (
          next (record e {
            records = insert r.block_id r e.records;
            queue = push_updates r.updates e.queue;
          })))
        (ap (λ l. l ++ updates_in e.stream) (waiting-push_updates r.updates e.queue)
          ∙ append_assoc (waiting e.queue) (present r.updates) (updates_in e.stream))
        (h _)
  store_record-Took (some x) r e next h = λ n. absurd (n refl)

  process_answer-Took :
      (a : Result (BlockData U)) (e : Execution U) (next : Execution U → Result U × Execution U)
      → ((d : Execution U) → Took (waiting d.queue ++ updates_in e.stream) (next d))
      → Took
          (waiting e.queue ++ updates_in (a ∷ e.stream))
          (when_processed (process_answer a e) next)
  unfolding process_answer
  process_answer-Took (err x) e next h = λ _. refl
  process_answer-Took (ok r) e next h = store_record-Took (lookup r.block_id e.records) r e next h

  update_from-Took :
      (answers : List (Result (BlockData U))) (e : Execution U)
      → Took (waiting e.queue ++ updates_in answers) (update_from answers e)
  unfolding update_from
  update_from-Took [] e =
      pop_or-Took (pop_back e.queue) (record e { stream = [] })
        (err unavailable, record e { stream = [] }) refl (λ _. refl)
  update_from-Took (a ∷ answers) e =
      pop_or-Took (pop_back e.queue) (record e { stream = a ∷ answers })
        (when_processed (process_answer a (record e { stream = answers })) (update_from answers))
        refl
        (process_answer-Took a (record e { stream = answers }) (update_from answers)
          (λ d. update_from-Took answers d))

  took :
      (us : List U) (r : Result U) (e : Execution U)
      → Took us (r, e)
      → ((u : U) → r ≡ ok u → us ≡ u ∷ to_come e)
        × ((x : Err) → r ≡ err x → x ≢ duplicate_record → us ≡ to_come e)
  took us (ok v) e h = (λ u q. h ∙ ap (λ y. y ∷ to_come e) (ok-injective q), λ x q. ground arith)
  took us (err y) e h = (λ u q. ground arith, λ x q n. h (λ d. n (ground arith)))

  -- Trie updates are handed out in the order of the stream and of the records, each once and without
  -- the nil ones, regardless of the blocks: a successful call takes the first of the updates to come,
  -- and a call that fails for another reason than a duplicate record takes none.
  pub update_order :
      (e : Execution U)
      → ((u : U) → (update e).0 ≡ ok u → to_come e ≡ u ∷ to_come (update e).1)
        × ((x : Err)
            → (update e).0 ≡ err x
            → x ≢ duplicate_record
            → to_come e ≡ to_come (update e).1)
  unfolding update
  update_order e =
      let o = update_from e.stream e in took (to_come e) o.0 o.1 (update_from-Took e.stream e)
