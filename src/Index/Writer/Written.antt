-- ===== src/Index/Writer/Written.antt =====
-- What `apply` of service/index/writer.go puts into its transactions.
use mathlib.Core.List.{append_assoc, append-nil, map-append}
use flow_dps.Base.{
  ℕ, suc, ◌==◌, ◌≡◌, refl, sym, ◌∙◌, ap, Option, none, some, List, [], ◌∷◌, ◌++◌, map, arith,
  if_intro, if◌then◌else◌, leb, length, take, ◌⊎◌, inl, inr,
}
use flow_dps.Base.Outcome.{Err, too_big, blocked, Result, ok, err, ◌>>◌, after}
use flow_dps.Index.Writer.{
  Op, Writer, committed, report, commit_current, hand_over, run_op, retry, apply_op, apply_ops,
  apply_unless, apply, flush,
}

module _ {W : Type 0} where
  abbrev pub concat : List (List W) → List W
  concat [] = []
  concat (l ∷ ls) = l ++ concat ls

  concat-snoc : (ls : List (List W)) (l : List W) → concat (ls ++ l ∷ []) ≡ concat ls ++ l
  concat-snoc [] l = append-nil l
  concat-snoc (x ∷ ls) l = ap (λ y. x ++ y) (concat-snoc ls l) ∙ sym (append_assoc x (concat ls) l)

module _ {Txn W : Type 0} (log : Txn → List W) where
  -- What is in the transactions handed over and in the current one, the oldest first.
  abbrev pub written : Writer Txn → List W
  written w = concat (map log w.handed) ++ log w.tx

  -- The operation writes `xs` at the end of a transaction, or fails and leaves it as it was.
  abbrev pub Writes : Op Txn → List W → Type 0
  Writes op xs =
      (t : Txn)
      → ((op t).0 ≡ ok tt → log (op t).1 ≡ log t ++ xs)
        × ((e : Err) → (op t).0 ≡ err e → log (op t).1 ≡ log t)

  abbrev pub AllWrite : List (Op Txn) → List (List W) → Type 0
  AllWrite [] [] = Unit
  AllWrite (op ∷ ops) (xs ∷ xss) = Writes op xs × AllWrite ops xss
  AllWrite _ _ = ⊥

  module _ (new_transaction : Txn) (empty : log new_transaction ≡ [])
      (outcome : ℕ → Option Err) where
    written-report :
        (o : Option Err) (w : Writer Txn)
        → written (report new_transaction outcome o w).1 ≡ written w
    unfolding report
    written-report none w = refl
    written-report (some e) w = ground arith

    written-hand_over :
        (w : Writer Txn) → written (hand_over new_transaction outcome w).1 ≡ written w
    unfolding hand_over
    written-hand_over w =
        simp (map-append, concat-snoc (map log w.handed) (log w.tx), empty, append-nil)

    written-then_hand_over :
        (r : Result (Unit {0})) (w v : Writer Txn)
        → written v ≡ written w
        → written (after r (λ _. hand_over new_transaction outcome) v).1 ≡ written w
    written-then_hand_over (ok u) w v h = written-hand_over v ∙ h
    written-then_hand_over (err e) w v h = h

    written-commit_current :
        (w : Writer Txn) → written (commit_current new_transaction outcome w).1 ≡ written w
    unfolding commit_current committed
    written-commit_current w =
        if_intro (λ (r : Result (Unit {0}) × Writer Txn). written r.1 ≡ written w) (w.free == 0)
          (if leb (length w.handed) w.calls
            then (err blocked, w)
            else (committed new_transaction outcome >> hand_over new_transaction outcome) w)
          (hand_over new_transaction outcome w)
          (if_intro (λ (r : Result (Unit {0}) × Writer Txn). written r.1 ≡ written w)
            (leb (length w.handed) w.calls) (err blocked, w)
            ((committed new_transaction outcome >> hand_over new_transaction outcome) w) refl
            (written-then_hand_over (report new_transaction outcome (outcome w.calls) w).0 w
              (report new_transaction outcome (outcome w.calls) w).1
              (written-report (outcome w.calls) w)))
          (written-hand_over w)

    -- What a call that should write `xs` leaves behind `v`.
    abbrev Wrote : Writer Txn → List W → Result (Unit {0}) × Writer Txn → Type 0
    Wrote v xs (r, w) =
        ((r ≡ ok tt) × (written w ≡ written v ++ xs))
        ⊎ ((e : Err) × (r ≡ err e) × (written w ≡ written v))

    run_op-Wrote :
        (op : Op Txn) (xs : List W) (w : Writer Txn) (r : Result (Unit {0}))
        → Writes op xs
        → (op w.tx).0 ≡ r
        → Wrote w xs (run_op new_transaction outcome op w)
    unfolding run_op
    run_op-Wrote op xs w (ok u) h e = inl (
      e,
      ap (λ l. concat (map log w.handed) ++ l) ((h w.tx).0 e)
          ∙ sym (append_assoc (concat (map log w.handed)) (log w.tx) xs),
    )
    run_op-Wrote op xs w (err x) h e =
        inr (x, e, ap (λ l. concat (map log w.handed) ++ l) ((h w.tx).1 x e))

    Wrote-from :
        (v w : Writer Txn) (xs : List W) (o : Result (Unit {0}) × Writer Txn)
        → written v ≡ written w
        → Wrote v xs o
        → Wrote w xs o
    Wrote-from v w xs (r, u) e (inl (a, b)) = inl (a, b ∙ ap (λ l. l ++ xs) e)
    Wrote-from v w xs (r, u) e (inr (x, a, b)) = inr (x, a, b ∙ e)

    again-Wrote :
        (op : Op Txn) (xs : List W) (w v : Writer Txn) (r : Result (Unit {0}))
        → Writes op xs
        → written v ≡ written w
        → Wrote w xs (after r (λ _. run_op new_transaction outcome op) v)
    again-Wrote op xs w v (ok u) h e =
        Wrote-from v w xs (run_op new_transaction outcome op v) e
          (run_op-Wrote op xs v (op v.tx).0 h refl)
    again-Wrote op xs w v (err x) h e = inr (x, refl, e)

    retry-Wrote :
        (op : Op Txn) (xs : List W) (w v : Writer Txn) (r : Result (Unit {0}))
        → Writes op xs
        → Wrote w xs (r, v)
        → Wrote w xs (retry new_transaction outcome op r v)
    unfolding retry
    retry-Wrote op xs w v (err too_big) h (inr (x, a, b)) =
        again-Wrote op xs w (commit_current new_transaction outcome v).1
          (commit_current new_transaction outcome v).0 h (written-commit_current v ∙ b)
    retry-Wrote op xs w v (err too_big) h (inl (a, b)) = ground arith
    retry-Wrote op xs w v _ h o = o

    apply_op-Wrote :
        (op : Op Txn) (xs : List W) (w : Writer Txn)
        → Writes op xs
        → Wrote w xs (apply_op new_transaction outcome op w)
    unfolding apply_op
    apply_op-Wrote op xs w h =
        retry-Wrote op xs w (run_op new_transaction outcome op w).1
          (run_op new_transaction outcome op w).0 h (run_op-Wrote op xs w (op w.tx).0 h refl)

    -- A call of several operations: the first `n` of them were written, all if it succeeded.
    abbrev pub WrotePrefix : Writer Txn → List (List W) → Result (Unit {0}) × Writer Txn → Type 0
    WrotePrefix v xss o =
        (n : ℕ) × (written o.1 ≡ written v ++ concat (take n xss))
        × (o.0 ≡ ok tt → take n xss ≡ xss)

    then_ops-WrotePrefix :
        (ops : List (Op Txn)) (xs : List W) (xss : List (List W)) (w v : Writer Txn)
        (r : Result (Unit {0}))
        → WrotePrefix v xss (apply_ops new_transaction outcome ops v)
        → Wrote w xs (r, v)
        → WrotePrefix w (xs ∷ xss) (after r (λ _. apply_ops new_transaction outcome ops) v)
    then_ops-WrotePrefix ops xs xss w v (ok u) (n, a, b) (inl (e, c)) = (
      suc n,
      a ∙ ap (λ l. l ++ concat (take n xss)) c ∙ append_assoc (written w) xs (concat (take n xss)),
      λ q. ap (λ l. xs ∷ l) (b q),
    )
    then_ops-WrotePrefix ops xs xss w v (ok u) rest (inr (x, e, c)) = ground arith
    then_ops-WrotePrefix ops xs xss w v (err e) rest (inl (q, c)) = ground arith
    then_ops-WrotePrefix ops xs xss w v (err e) rest (inr (x, q, c)) =
        (0, c ∙ sym (append-nil (written w)), λ q. ground arith)

    apply_ops-WrotePrefix :
        (ops : List (Op Txn)) (xss : List (List W)) (w : Writer Txn)
        → AllWrite ops xss
        → WrotePrefix w xss (apply_ops new_transaction outcome ops w)
    unfolding apply_ops
    apply_ops-WrotePrefix [] [] w h = (0, sym (append-nil (written w)), λ _. refl)
    apply_ops-WrotePrefix (op ∷ ops) [] w h = absurd h
    apply_ops-WrotePrefix [] (x ∷ xss) w h = absurd h
    apply_ops-WrotePrefix (op ∷ ops) (xs ∷ xss) w h =
        then_ops-WrotePrefix ops xs xss w (apply_op new_transaction outcome op w).1
          (apply_op new_transaction outcome op w).0
          (apply_ops-WrotePrefix ops xss (apply_op new_transaction outcome op w).1 h.1)
          (apply_op-Wrote op xs w h.0)

    unless-WrotePrefix :
        (es : List Err) (ops : List (Op Txn)) (xss : List (List W)) (w : Writer Txn)
        → AllWrite ops xss
        → WrotePrefix w xss (apply_unless new_transaction outcome es ops w)
    unfolding apply_unless
    unless-WrotePrefix [] ops xss w h = apply_ops-WrotePrefix ops xss w h
    unless-WrotePrefix (e ∷ es) ops xss w h = (0, sym (append-nil (written w)), λ q. ground arith)

    -- However the operations are spread over transactions: after `apply`, the transactions hold what
    -- they held before and then what the first operations write, in order and each once; these are all
    -- operations if `apply` reports no error.
    pub apply-written :
        (ops : List (Op Txn)) (xss : List (List W)) (w : Writer Txn)
        → AllWrite ops xss
        → WrotePrefix w xss (apply new_transaction outcome ops w)
    unfolding apply
    apply-written ops xss w h = unless-WrotePrefix w.errors ops xss w h

    -- The ticker commits and loses nothing.
    flush-written : (w : Writer Txn) → written (flush new_transaction outcome w).1 ≡ written w
    unfolding flush
    flush-written w = written-commit_current w
