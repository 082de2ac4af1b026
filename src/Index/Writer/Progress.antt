-- ===== src/Index/Writer/Progress.antt =====
-- The waiting of `apply` in service/index/writer.go for a free slot.
use flow_dps.Base.{
  ◌≡◌, ◌≢◌, arith, refl, ℕ, ◌+◌, ◌<◌, length, length-append, Option, none, List, [], ◌∷◌,
}
use flow_dps.Base.Outcome.{Err, too_big, blocked, Result, ok, err, after}
use flow_dps.Index.Writer.{
  Op, Writer, committed, report, commit_current, hand_over, run_op, retry, apply_op, apply_ops,
  apply_unless, apply, new_writer,
}

module _ {Txn : Type 0} (new_transaction : Txn) (outcome : ℕ → Option Err) where
  -- An operation of Badger returns.
  abbrev pub Returns : Op Txn → Type 0
  Returns op = (t : Txn) → (op t).0 ≢ err blocked

  abbrev pub AllReturn : List (Op Txn) → Type 0
  AllReturn [] = Unit
  AllReturn (op ∷ ops) = Returns op × AllReturn ops

  -- The writer has a slot, its free slots are those that no commit under way holds, and no error is
  -- left from before.
  abbrev pub IsReady : Writer Txn → Type 0
  IsReady w = (0 < w.limit) × (w.free + length w.handed ≡ w.limit + w.calls) × (w.errors ≡ [])

  pub new_writer-IsReady :
      (limit : ℕ) → 0 < limit → IsReady (new_writer new_transaction outcome limit)
  unfolding new_writer
  new_writer-IsReady limit h = (h, refl, refl)

  -- A call ends, and leaves a writer that is ready.
  abbrev pub Ends : Result (Unit {0}) × Writer Txn → Type 0
  Ends o = (o.0 ≢ err blocked) × IsReady o.1

  module _ (succeeds : (n : ℕ) → outcome n ≡ none) where
    commit_current-ok :
        (w : Writer Txn)
        → IsReady w
        → ((commit_current new_transaction outcome w).0 ≡ ok tt)
          × IsReady (commit_current new_transaction outcome w).1
    unfolding commit_current committed report hand_over
    commit_current-ok w b = ground (arith, succeeds w.calls, length-append w.handed (w.tx ∷ []))

    again-Ends :
        (op : Op Txn) (r : Result (Unit {0})) (w : Writer Txn)
        → Returns op
        → r ≡ ok tt
        → IsReady w
        → Ends (after r (λ _. run_op new_transaction outcome op) w)
    unfolding run_op
    again-Ends op (ok u) w h e b = (h w.tx, b)
    again-Ends op (err x) w h e b = ground arith

    retry-Ends :
        (op : Op Txn) (r : Result (Unit {0})) (w : Writer Txn)
        → Returns op
        → Ends (r, w)
        → Ends (retry new_transaction outcome op r w)
    unfolding retry
    retry-Ends op (err too_big) w h n =
        let (done, b) = commit_current-ok w n.1 in
        again-Ends op (commit_current new_transaction outcome w).0
          (commit_current new_transaction outcome w).1 h done b
    retry-Ends op _ w h n = n

    apply_op-Ends :
        (op : Op Txn) (w : Writer Txn)
        → Returns op
        → IsReady w
        → Ends (apply_op new_transaction outcome op w)
    unfolding apply_op run_op
    apply_op-Ends op w h b =
        retry-Ends op (op w.tx).0 (run_op new_transaction outcome op w).1 h (h w.tx, b)

    then_ops-Ends :
        (ops : List (Op Txn)) (r : Result (Unit {0})) (w : Writer Txn)
        → Ends (r, w)
        → Ends (apply_ops new_transaction outcome ops w)
        → Ends (after r (λ _. apply_ops new_transaction outcome ops) w)
    then_ops-Ends ops (ok u) w n h = h
    then_ops-Ends ops (err x) w n h = n

    apply_ops-Ends :
        (ops : List (Op Txn)) (w : Writer Txn)
        → AllReturn ops
        → IsReady w
        → Ends (apply_ops new_transaction outcome ops w)
    unfolding apply_ops
    apply_ops-Ends [] w h b = (λ e. ground arith, b)
    apply_ops-Ends (op ∷ ops) w h b =
        let one = apply_op-Ends op w h.0 b in
        then_ops-Ends ops (apply_op new_transaction outcome op w).0
          (apply_op new_transaction outcome op w).1 one
          (apply_ops-Ends ops (apply_op new_transaction outcome op w).1 h.1 one.1)

    unless-Ends :
        (es : List Err) (ops : List (Op Txn)) (w : Writer Txn)
        → AllReturn ops
        → IsReady w
        → es ≡ []
        → Ends (apply_unless new_transaction outcome es ops w)
    unfolding apply_unless
    unless-Ends [] ops w h b e = apply_ops-Ends ops w h b
    unless-Ends (x ∷ es) ops w h b e = ground arith

    -- A writer with at least one slot, whose free slots are those that no commit under way holds and
    -- that has no error left from before: while the operations return and no commit fails, `apply`
    -- does not wait for ever, and it leaves such a writer, so that the next call does not either.
    pub apply-Returns :
        (ops : List (Op Txn)) (w : Writer Txn)
        → IsReady w
        → AllReturn ops
        → Ends (apply new_transaction outcome ops w)
    unfolding apply
    apply-Returns ops w b h = unless-Ends w.errors ops w h b b.2
