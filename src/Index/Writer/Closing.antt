-- ===== src/Index/Writer/Closing.antt =====
-- Close in service/index/writer.go.
use flow_dps.Base.{
  ℕ, zero, suc, ◌+◌, ◌-◌, ◌≤◌, ◌≡◌, refl, sym, ap, ◌∙◌, subst, Option, some, none, List, [], ◌∷◌,
  ◌++◌, length, length-append, leb, false, if◌then◌else◌, arith,
}
use mathlib.Core.List.{append-nil, append_assoc}
use flow_dps.Base.Outcome.{Err, blocked, Result, ok, err, after}
use flow_dps.Index.Writer.{Writer, committed, report, wait_all, close, close_after, drained}

-- The errors that the next callbacks report, the first `n` of them from a number on.
abbrev pub with_error : Option Err → List Err → List Err
with_error none es = es
with_error (some e) es = e ∷ es

unfoldable pub failures : (ℕ → Option Err) → ℕ → ℕ → List Err
failures outcome c zero = []
failures outcome c (suc n) = with_error (outcome c) (failures outcome (c + 1) n)

module _ {Txn : Type 0} (new_transaction : Txn) (outcome : ℕ → Option Err) where
  abbrev settled : ℕ → Writer Txn → Writer Txn
  settled n w = record w {
    calls = w.calls + n;
    free = w.free + n;
    errors = w.errors ++ failures outcome w.calls n;
  }

  at_state : Writer Txn → ℕ → ℕ → List Err → Result (Unit {0}) × Writer Txn
  at_state w c f es = (ok tt, record w { calls = c; free = f; errors = es })

  abbrev Waits : ℕ → Type 0
  Waits n =
      (w : Writer Txn)
      → length (w.errors ++ failures outcome w.calls n) ≤ w.limit
      → wait_all new_transaction outcome n w ≡ (ok tt, settled n w)

  -- One callback, and then the others.
  reported :
      (n : ℕ) (w : Writer Txn) (o : Option Err)
      → Waits n
      → length (w.errors ++ with_error o (failures outcome (w.calls + 1) n)) ≤ w.limit
      → after
          (report new_transaction outcome o w).0
          (λ u. wait_all new_transaction outcome n)
          (report new_transaction outcome o w).1
        ≡ at_state w
            (w.calls + suc n)
            (w.free + suc n)
            (w.errors ++ with_error o (failures outcome (w.calls + 1) n))
  unfolding report at_state
  reported n w none waits le =
      let w' = record w { calls = w.calls + 1; free = w.free + 1 } in
      let c : w.calls + 1 + n ≡ w.calls + suc n = omega arith in
      let f : w.free + 1 + n ≡ w.free + suc n = omega arith in
      waits w' le ∙ (λ i. at_state w (c i) (f i) (w.errors ++ failures outcome (w.calls + 1) n))
  reported n w (some e) waits le =
      let es = failures outcome (w.calls + 1) n in
      let w' = record w { calls = w.calls + 1; free = w.free + 1; errors = w.errors ++ e ∷ [] } in
      let c : w.calls + 1 + n ≡ w.calls + suc n = omega arith in
      let f : w.free + 1 + n ≡ w.free + suc n = omega arith in
      let assoc : (w.errors ++ e ∷ []) ++ es ≡ w.errors ++ e ∷ es =
        append_assoc w.errors (e ∷ []) es in
      let room : leb w.limit (length w.errors) ≡ false =
        ground (arith, le, length-append w.errors (e ∷ es)) in
      ap
        (λ (x : Result (Unit {0}) × Writer Txn).
          after x.0 (λ u. wait_all new_transaction outcome n) x.1)
        (ap (λ b. if b then (err blocked, w) else (ok tt, w')) room)
      ∙ waits w' (subst (λ xs. length xs ≤ w.limit) (sym assoc) le)
      ∙ (λ i. at_state w (c i) (f i) (assoc i))

  wait_all_lem : (n : ℕ) → Waits n
  unfolding wait_all failures committed at_state
  wait_all_lem zero w le =
      let c : w.calls ≡ w.calls + 0 = omega arith in
      let f : w.free ≡ w.free + 0 = omega arith in
      λ i. at_state w (c i) (f i) (sym (append-nil w.errors) i)
  wait_all_lem (suc n) w le = reported n w (outcome w.calls) (wait_all_lem n) le

  -- Close, where the pending transaction is committed without an error and the error channel has room
  -- for the errors of all commits that are under way: it does not wait for ever, it lets every callback
  -- run, and it returns the errors that were waiting and then those of these commits, in their order.
  pub close_lem :
      (commit : Txn → Result (Unit {0})) (w : Writer Txn)
      → commit w.tx ≡ ok tt
      → w.free ≤ w.limit
      → length (w.errors ++ failures outcome w.calls (w.limit - w.free)) ≤ w.limit
      → (u : Writer Txn) × (close new_transaction outcome commit w
          ≡ (ok (w.errors ++ failures outcome w.calls (w.limit - w.free)), u))
        × (u.free ≡ w.limit)
        × (u.calls ≡ w.calls + (w.limit - w.free))
        × (u.errors ≡ [])
  unfolding close
  close_lem commit w e free room =
      let n = w.limit - w.free in
      (
        record (settled n w) { errors = [] },
        ap (λ r. close_after new_transaction outcome r (wait_all new_transaction outcome n) w) e
            ∙ ap (λ (x : Result (Unit {0}) × Writer Txn). drained new_transaction outcome x.0 x.1)
                (wait_all_lem n w room),
        omega arith,
        refl,
        refl,
      )
