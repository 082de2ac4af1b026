-- ===== src/Streamer/Order.antt =====
-- The interleavings of the streamer's calls, and the order in which records are handed out.
pub mod Bounds
use mathlib.Core.List.{append_assoc, append-nil, map-append}
use flow_dps.Base.{
  ℕ, ◌+◌, leb, ◌≡◌, refl, sym, ◌∙◌, ap, subst, Bool, true, false, ◌&&◌, Option, none, some, List,
  [], ◌∷◌, ◌++◌, map, arith, length, if◌then◌else◌, if_intro, if_split, All,
}
use flow_dps.Base.Outcome.{Result, ok, err}
use flow_dps.Queue.{
  push_front, push_back, pop_back, waiting, waiting-push_front, waiting-push_back, waiting-pop_back,
}
use flow_dps.Streamer.{
  BlockRecord, Streamer, push_all, new_streamer, on_block_finalized, next, take_buffered, poll,
  take, take_queued, check_record, pull_record, finish_round, settle_id, settle,
}

-- A call of the streamer, or a part of the download that runs beside it.
pub data Event : Type 0 where
  finalized : ℕ → Event
  asked polled round_head : Event
  round_tail : (ℕ → Result BlockRecord) → Event

abbrev idle : Option ℕ → Bool
idle none = true
idle (some id) = false

-- Adds what Next returned to the records handed out.
abbrev handed : List BlockRecord → Result BlockRecord → List BlockRecord
handed out (ok r) = out ++ r ∷ []
handed out (err e) = out

pub handle : ℕ → Event → Streamer × List BlockRecord → Streamer × List BlockRecord
handle dummy (finalized id) (g, out) = (on_block_finalized id g, out)
handle dummy asked (g, out) = let (r, g') = next g in (g', handed out r)
handle dummy polled (g, out) = (poll g, out)
handle dummy round_head (g, out) = (if g.busy && idle g.in_flight then take g else g, out)
handle dummy (round_tail fetch) (g, out) = (settle dummy fetch g, out)

pub handle_all : ℕ → List Event → Streamer × List BlockRecord → Streamer × List BlockRecord
handle_all dummy [] s = s
handle_all dummy (e ∷ es) s = handle_all dummy es (handle dummy e s)

-- The identifiers that were finalized in a run of events.
abbrev pub finalized_in : List Event → List ℕ
finalized_in [] = []
finalized_in (finalized id ∷ es) = id ∷ finalized_in es
finalized_in (_ ∷ es) = finalized_in es

-- The object of a block's name holds the record of that block.
abbrev pub IsHonest : Event → Type 0
IsHonest (round_tail fetch) = (id : ℕ) (r : BlockRecord) → fetch id ≡ ok r → r.block_id ≡ id
IsHonest _ = Unit

abbrev ids : List BlockRecord → List ℕ
ids = map (λ r. r.block_id)

abbrev flying : Option ℕ → List ℕ
flying none = []
flying (some id) = id ∷ []

-- The identifiers still to come, the next one first.
pub pending : Streamer → List ℕ
pending g = ids (waiting g.buffer) ++ (flying g.in_flight ++ waiting g.queue)

-- All identifiers: those of the records handed out, and those to come.
abbrev all_ids : Streamer × List BlockRecord → List ℕ
all_ids (g, out) = ids out ++ pending g

check_record-ok :
    (dummy : ℕ) (r : BlockRecord) {r' : BlockRecord} → check_record dummy r ≡ ok r' → r ≡ r'
unfolding check_record
check_record-ok dummy r e = ground arith

pull_record-id :
    (dummy id : ℕ) (a : Result BlockRecord) {r : BlockRecord}
    → ((r : BlockRecord) → a ≡ ok r → r.block_id ≡ id)
    → pull_record dummy a ≡ ok r
    → r.block_id ≡ id
unfolding pull_record
pull_record-id dummy id (ok a) h e =
    subst (λ (x : BlockRecord). x.block_id ≡ id) (check_record-ok dummy a e) (h a refl)
pull_record-id dummy id (err x) h e = cc

pending-finalized :
    (id : ℕ) (g : Streamer) → pending (on_block_finalized id g) ≡ pending g ++ id ∷ []
unfolding pending on_block_finalized
pending-finalized id g = simp (waiting-push_front, append_assoc)

pending-poll : (g : Streamer) → pending (poll g) ≡ pending g
unfolding pending poll
pending-poll g =
    if_intro (λ g'. pending g' ≡ pending g) g.busy g (record g { busy = true }) refl refl

pending-take_queued :
    (o : Option (ℕ × List ℕ)) (g : Streamer)
    → o ≡ pop_back g.queue
    → g.in_flight ≡ none
    → pending (take_queued o g) ≡ pending g
unfolding pending take_queued
pending-take_queued none g e n = refl
pending-take_queued (some (id, q)) g e n =
    ap (λ l. ids (waiting g.buffer) ++ l) (sym (waiting-pop_back g.queue (sym e)))
    ∙ ap (λ l. ids (waiting g.buffer) ++ (flying l ++ waiting g.queue)) (sym n)

pending-take : (g : Streamer) → g.in_flight ≡ none → pending (take g) ≡ pending g
unfolding take
pending-take g n =
    if_intro (λ g'. pending g' ≡ pending g) (leb g.limit (length g.buffer))
      (record g { busy = false }) (take_queued (pop_back g.queue) g) (unfold pending in refl)
      (pending-take_queued (pop_back g.queue) g refl n)

pending-finish_round :
    (id : ℕ) (a : Result BlockRecord) (g : Streamer)
    → ((r : BlockRecord) → a ≡ ok r → r.block_id ≡ id)
    → g.in_flight ≡ some id
    → pending (finish_round id a g) ≡ pending g
unfolding pending finish_round
pending-finish_round id (ok r) g h f =
    simp (f, waiting-push_front, map-append, append_assoc, h r refl)
pending-finish_round id (err e) g h f = simp (f, waiting-push_back)

pending-settle_id :
    (dummy : ℕ) (fetch : ℕ → Result BlockRecord) (o : Option ℕ) (g : Streamer)
    → IsHonest (round_tail fetch)
    → g.in_flight ≡ o
    → pending (settle_id dummy fetch o g) ≡ pending g
unfolding settle_id
pending-settle_id dummy fetch none g h f = refl
pending-settle_id dummy fetch (some id) g h f =
    pending-finish_round id (pull_record dummy (fetch id)) g
      (λ r e. pull_record-id dummy id (fetch id) (h id) e) f

pending-settle :
    (dummy : ℕ) (fetch : ℕ → Result BlockRecord) (g : Streamer)
    → IsHonest (round_tail fetch)
    → pending (settle dummy fetch g) ≡ pending g
unfolding settle
pending-settle dummy fetch g h = pending-settle_id dummy fetch g.in_flight g h refl

all_ids-asked :
    (o : Option (BlockRecord × List BlockRecord)) (g : Streamer) (out : List BlockRecord)
    → o ≡ pop_back g.buffer
    → all_ids ((take_buffered o g).1, handed out (take_buffered o g).0) ≡ all_ids (g, out)
unfolding pending take_buffered
all_ids-asked none g out e = refl
all_ids-asked (some (r, b)) g out e =
    simp (map-append, append_assoc, waiting-pop_back g.buffer (sym e))

-- One event adds the identifier that it finalizes, if any, at the end, and nothing else.
all_ids-handle :
    (dummy : ℕ) (e : Event) (g : Streamer) (out : List BlockRecord)
    → IsHonest e
    → all_ids (handle dummy e (g, out)) ≡ all_ids (g, out) ++ finalized_in (e ∷ [])
unfolding handle
all_ids-handle dummy (finalized id) g out h =
    ap (λ l. ids out ++ l) (pending-finalized id g)
    ∙ sym (append_assoc (ids out) (pending g) (id ∷ []))
all_ids-handle dummy asked g out h =
    unfold next in
    all_ids-asked (pop_back g.buffer) g out refl ∙ sym (append-nil (all_ids (g, out)))
all_ids-handle dummy polled g out h =
    ap (λ l. ids out ++ l) (pending-poll g) ∙ sym (append-nil (all_ids (g, out)))
all_ids-handle dummy round_head g out h =
    if_split (λ g'. ids out ++ pending g' ≡ all_ids (g, out) ++ []) (g.busy && idle g.in_flight)
      (take g) g
      (λ i.
        ap (λ l. ids out ++ l) (pending-take g (ground arith))
        ∙ sym (append-nil (all_ids (g, out))))
      (λ _. sym (append-nil (all_ids (g, out))))
all_ids-handle dummy (round_tail fetch) g out h =
    ap (λ l. ids out ++ l) (pending-settle dummy fetch g h) ∙ sym (append-nil (all_ids (g, out)))

finalized_in-cons :
    (e : Event) (es : List Event) → finalized_in (e ∷ es) ≡ finalized_in (e ∷ []) ++ finalized_in es
finalized_in-cons (finalized id) es = refl
finalized_in-cons _ es = refl

all_ids-handle_all :
    (dummy : ℕ) (es : List Event) (g : Streamer) (out : List BlockRecord)
    → All IsHonest es
    → all_ids (handle_all dummy es (g, out)) ≡ all_ids (g, out) ++ finalized_in es
unfolding handle_all
all_ids-handle_all dummy [] g out h = sym (append-nil (all_ids (g, out)))
all_ids-handle_all dummy (e ∷ es) g out h =
    let (g', out') = handle dummy e (g, out) in
    all_ids-handle_all dummy es g' out' h.1
    ∙ ap (λ l. l ++ finalized_in es) (all_ids-handle dummy e g out h.0)
    ∙ append_assoc (all_ids (g, out)) (finalized_in (e ∷ [])) (finalized_in es)
    ∙ ap (λ l. all_ids (g, out) ++ l) (sym (finalized_in-cons e es))

waiting-push_all :
    (catchup queue : List ℕ) → waiting (push_all catchup queue) ≡ waiting queue ++ catchup
unfolding push_all
waiting-push_all [] queue = sym (append-nil (waiting queue))
waiting-push_all (id ∷ catchup) queue =
    waiting-push_all catchup (push_front id queue)
    ∙ ap (λ l. l ++ catchup) (waiting-push_front id queue)
    ∙ append_assoc (waiting queue) (id ∷ []) catchup

pending-new_streamer :
    (limit : ℕ) (catchup : List ℕ) → pending (new_streamer limit catchup) ≡ catchup
unfolding pending new_streamer waiting
pending-new_streamer limit catchup = waiting-push_all catchup []

-- Whatever the order in which blocks are finalized, records asked for and downloads made, whether
-- they fail or not: the records handed out so far, followed by those still to come, are those of
-- the blocks to catch up with and of the finalized blocks, in this order and each once.
pub delivered_in_order :
    (dummy limit : ℕ) (catchup : List ℕ) (es : List Event)
    → All IsHonest es
    → let (g, out) = handle_all dummy es (new_streamer limit catchup, []) in
      map (λ r. r.block_id) out ++ pending g ≡ catchup ++ finalized_in es
delivered_in_order dummy limit catchup es h =
    all_ids-handle_all dummy es (new_streamer limit catchup) [] h
    ∙ ap (λ l. l ++ finalized_in es) (pending-new_streamer limit catchup)
