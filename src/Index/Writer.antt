-- ===== src/Index/Writer.antt =====
-- service/index/writer.go. `outcome n` is what Badger reports to the callback of the commit number
-- `n`. A callback runs as an event of its own (`committed`), or, where `apply` waits for a slot,
-- while it waits. A callback that finds the error channel full is taken to hold up a call that waits
-- for a slot, even if another callback could still free one. The ticker of `flush` is an event too.
pub mod Written
pub mod Progress
pub mod Closing
pub mod Calls
pub mod Buckets
use flow_dps.Base.{
  ℕ, zero, suc, ◌+◌, ◌-◌, ◌==◌, leb, Option, none, some, List, [], ◌∷◌, ◌++◌, length, if◌then◌else◌,
}
use flow_dps.Base.Outcome.{Err, too_big, blocked, Result, ok, err, Exec, ◌>>◌}

abbrev pub Op : Type 0 → Type 0
Op Txn = Exec Txn (Unit {0})

-- `handed` are the transactions given to CommitWith, the oldest first, `calls` the number of
-- callbacks that ran, `free` the free slots of the semaphore, `limit` the number of all slots and the
-- capacity of the error channel, `errors` what that channel holds.
pub record Writer (Txn : Type 0) : Type 0 where
  pub tx : Txn
  pub handed : List Txn
  pub calls : ℕ
  pub free : ℕ
  pub limit : ℕ
  pub errors : List Err

module _ {Txn : Type 0} (new_transaction : Txn) (outcome : ℕ → Option Err) where
  unfoldable pub new_writer : ℕ → Writer Txn
  new_writer limit = record {
    tx = new_transaction;
    handed = [];
    calls = 0;
    free = limit;
    limit = limit;
    errors = [];
  }

  -- The callback: a send on a full channel waits for ever, as nothing reads it meanwhile.
  report : Option Err → Op (Writer Txn)
  report none w = (ok tt, record w { calls = w.calls + 1; free = w.free + 1 })
  report (some e) w =
      if leb w.limit (length w.errors)
      then (err blocked, w)
      else (ok tt, record w { calls = w.calls + 1; free = w.free + 1; errors = w.errors ++ e ∷ [] })

  unfoldable pub committed : Op (Writer Txn)
  unfolding report
  committed w = report (outcome w.calls) w

  -- sema.Acquire, tx.CommitWith and db.NewTransaction.
  hand_over : Op (Writer Txn)
  hand_over w =
      (ok tt, record w { free = w.free - 1; handed = w.handed ++ w.tx ∷ []; tx = new_transaction })

  -- Without a free slot it waits for a callback; if no commit is under way, as with a writer that has
  -- no slots at all, none comes and it waits for ever.
  unfoldable pub commit_current : Op (Writer Txn)
  unfolding committed hand_over
  commit_current w =
      if w.free == 0
      then (if leb (length w.handed) w.calls then (err blocked, w) else (committed >> hand_over) w)
      else hand_over w

  run_op : Op Txn → Op (Writer Txn)
  run_op op w = let (r, t) = op w.tx in (r, record w { tx = t })

  retry : Op Txn → Result (Unit {0}) → Op (Writer Txn)
  unfolding commit_current run_op
  retry op (err too_big) w = (commit_current >> run_op op) w
  retry op r w = (r, w)

  -- One round of the loop of `apply`.
  unfoldable pub apply_op : Op Txn → Op (Writer Txn)
  unfolding run_op retry
  apply_op op w = let (r, w') = run_op op w in retry op r w'

  apply_ops : List (Op Txn) → Op (Writer Txn)
  unfolding apply_op
  apply_ops [] w = (ok tt, w)
  apply_ops (op ∷ ops) w = (apply_op op >> apply_ops ops) w

  apply_unless : List Err → List (Op Txn) → Op (Writer Txn)
  unfolding apply_ops
  apply_unless [] ops w = apply_ops ops w
  apply_unless (e ∷ es) ops w = (err e, record w { errors = es })

  unfoldable pub apply : List (Op Txn) → Op (Writer Txn)
  unfolding apply_unless
  apply ops w = apply_unless w.errors ops w

  -- The ticker of `flush`.
  unfoldable pub flush : Op (Writer Txn)
  unfolding commit_current
  flush w = commit_current w

  -- sema.Acquire of all slots: the callbacks that have not run run now.
  unfoldable pub wait_all : ℕ → Op (Writer Txn)
  unfolding committed
  wait_all zero w = (ok tt, w)
  wait_all (suc n) w = (committed >> wait_all n) w

  -- The errors that are left in the closed channel; no error is returned for an empty list.
  abbrev pub drained : Result (Unit {0}) → Writer Txn → Result (List Err) × Writer Txn
  drained (ok u) w = (ok w.errors, record w { errors = [] })
  drained (err e) w = (err e, w)

  abbrev pub close_after :
      Result (Unit {0})
      → (Writer Txn → Result (Unit {0}) × Writer Txn)
      → Writer Txn
      → Result (List Err) × Writer Txn
  close_after (ok u) wait w = let (r, w') = wait w in drained r w'
  close_after (err e) wait w = (err e, w)

  -- Close once the ticker has ended, where `commit` is what tx.Commit does with the pending transaction.
  unfoldable pub close : (Txn → Result (Unit {0})) → Writer Txn → Result (List Err) × Writer Txn
  unfolding wait_all
  close commit w = close_after (commit w.tx) (wait_all (w.limit - w.free)) w
