-- ===== src/Streamer/Order/Bounds.antt =====
-- The buffer of the streamer (service/cloud/gcp_streamer.go) and its limit.
use flow_dps.Base.{
  ℕ, ◌+◌, ◌≤◌, leb, ◌≡◌, refl, sym, subst, true, false, ◌&&◌, Option, none, some, List, [], ◌∷◌,
  arith, length, if_intro, if_split,
}
use flow_dps.Base.Outcome.{Result, ok, err}
use flow_dps.Queue.{push_front, pop_back, length-pop_back}
use flow_dps.Streamer.{
  BlockRecord, Streamer, new_streamer, on_block_finalized, next, take_buffered, poll, take,
  take_queued, pull_record, finish_round, settle_id, settle,
}
use flow_dps.Streamer.Order.{
  Event, finalized, asked, polled, round_head, round_tail, handle, handle_all, idle, flying,
}

-- The records held and the one on its way.
abbrev held : Streamer → ℕ
held g = length g.buffer + length (flying g.in_flight)

-- `g'` is within the limit of `g`.
abbrev Within : Streamer → Streamer → Type 0
Within g g' = (held g' ≤ g.limit) × (g'.limit ≡ g.limit)

asked-Within :
    (o : Option (BlockRecord × List BlockRecord)) (g : Streamer)
    → o ≡ pop_back g.buffer
    → held g ≤ g.limit
    → Within g (take_buffered o g).1
unfolding take_buffered
asked-Within none g e h = (h, refl)
asked-Within (some (r, b)) g e h = (omega (arith, length-pop_back g.buffer (sym e)), refl)

take_queued-Within :
    (o : Option (ℕ × List ℕ)) (g : Streamer)
    → length g.buffer + 1 ≤ g.limit
    → g.in_flight ≡ none
    → Within g (take_queued o g)
unfolding take_queued
take_queued-Within none g h n =
    (subst (λ o. length g.buffer + length (flying o) ≤ g.limit) (sym n) (omega arith), refl)
take_queued-Within (some (id, q)) g h n = (h, refl)

round_fits :
    (id : ℕ) (g : Streamer)
    → g.in_flight ≡ some id
    → held g ≤ g.limit
    → length g.buffer + 1 ≤ g.limit
round_fits id g f h = subst (λ o. length g.buffer + length (flying o) ≤ g.limit) f h

finish_round-Within :
    (id : ℕ) (a : Result BlockRecord) (g : Streamer)
    → g.in_flight ≡ some id
    → held g ≤ g.limit
    → Within g (finish_round id a g)
unfolding finish_round push_front
finish_round-Within id (ok r) g f h = (omega (arith, round_fits id g f h), refl)
finish_round-Within id (err e) g f h = (omega (arith, round_fits id g f h), refl)

settle-Within :
    (dummy : ℕ) (fetch : ℕ → Result BlockRecord) (o : Option ℕ) (g : Streamer)
    → g.in_flight ≡ o
    → held g ≤ g.limit
    → Within g (settle_id dummy fetch o g)
unfolding settle_id
settle-Within dummy fetch none g f h = (h, refl)
settle-Within dummy fetch (some id) g f h =
    finish_round-Within id (pull_record dummy (fetch id)) g f h

take-Within : (g : Streamer) → g.in_flight ≡ none → held g ≤ g.limit → Within g (take g)
unfolding take
take-Within g n h =
    if_split (Within g) (leb g.limit (length g.buffer)) (record g { busy = false })
      (take_queued (pop_back g.queue) g) (λ _. (h, refl))
      (λ below. take_queued-Within (pop_back g.queue) g (ground arith) n)

handle-Within :
    (dummy : ℕ) (e : Event) (g : Streamer) (out : List BlockRecord)
    → held g ≤ g.limit
    → Within g (handle dummy e (g, out)).0
unfolding handle
handle-Within dummy (finalized id) g out h = unfold on_block_finalized in (h, refl)
handle-Within dummy asked g out h = unfold next in asked-Within (pop_back g.buffer) g refl h
handle-Within dummy polled g out h =
    unfold poll in if_intro (Within g) g.busy g (record g { busy = true }) (h, refl) (h, refl)
handle-Within dummy round_head g out h =
    if_split (Within g) (g.busy && idle g.in_flight) (take g) g
      (λ i. take-Within g (ground arith) h) (λ _. (h, refl))
handle-Within dummy (round_tail fetch) g out h =
    unfold settle in settle-Within dummy fetch g.in_flight g refl h

handle_all-Within :
    (dummy : ℕ) (es : List Event) (g : Streamer) (out : List BlockRecord)
    → held g ≤ g.limit
    → held (handle_all dummy es (g, out)).0 ≤ g.limit
unfolding handle_all
handle_all-Within dummy [] g out h = h
handle_all-Within dummy (e ∷ es) g out h =
    let (g', out') = handle dummy e (g, out) in
    let w = handle-Within dummy e g out h in
    subst (λ n. held (handle_all dummy es (g', out')).0 ≤ n) w.1
      (handle_all-Within dummy es g' out' (subst (λ n. held g' ≤ n) (sym w.1) w.0))

-- Whatever the order of the calls: a streamer that starts with the buffer limit `limit` never holds
-- more than `limit` downloaded records.
pub buffer_bounded :
    (dummy limit : ℕ) (catchup : List ℕ) (es : List Event)
    → length (handle_all dummy es (new_streamer limit catchup, [])).0.buffer ≤ limit
buffer_bounded dummy limit catchup es =
    unfold new_streamer in
    omega (arith, handle_all-Within dummy es (new_streamer limit catchup) [] (omega arith))
