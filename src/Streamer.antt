-- ===== src/Streamer.antt =====
-- service/cloud/gcp_streamer.go: the download of execution records, in the order in which their
-- blocks were finalized. Next starts the download in the background, so one call of `download` is
-- split here where other calls can come between: `take` is the head of a round up to the pop of the
-- block identifier, `settle` is the rest of the round with the answer of the bucket.
pub mod Order
use flow_dps.Base.{
  ℕ, ◌==◌, leb, Bool, true, false, Option, none, some, List, [], ◌∷◌, length, if◌then◌else◌,
}
use flow_dps.Base.Outcome.{unavailable, other, Result, ok, err}
use flow_dps.Queue
use flow_dps.Queue.{push_front, push_back, pop_back}

-- What the code reads of an uploader.BlockData.
pub record BlockRecord : Type 0 where
  pub block_id : ℕ
  pub height : ℕ
  pub final_commit : ℕ

pub record Streamer : Type 0 where
  pub queue : List ℕ
  pub buffer : List BlockRecord
  pub limit : ℕ
  pub busy : Bool
  pub in_flight : Option ℕ  -- the identifier that `download` has popped and not yet dealt with

-- NewGCPStreamer: the blocks to catch up with are pushed one after another.
unfoldable pub push_all : List ℕ → List ℕ → List ℕ
unfolding push_front
push_all [] queue = queue
push_all (id ∷ ids) queue = push_all ids (push_front id queue)

unfoldable pub new_streamer : ℕ → List ℕ → Streamer
new_streamer limit catchup = record {
  queue = push_all catchup [];
  buffer = [];
  limit = limit;
  busy = false;
  in_flight = none;
}

unfoldable pub on_block_finalized : ℕ → Streamer → Streamer
on_block_finalized id g = record g { queue = push_front id g.queue }

-- Next, less the `go g.poll()` at its head.
take_buffered : Option (BlockRecord × List BlockRecord) → Streamer → Result BlockRecord × Streamer
take_buffered none g = (err unavailable, g)
take_buffered (some (r, buffer)) g = (ok r, record g { buffer = buffer })

unfoldable pub next : Streamer → Result BlockRecord × Streamer
unfolding take_buffered
next g = take_buffered (pop_back g.buffer) g

-- The head of `poll`: a poll that finds another one at work does nothing.
unfoldable pub poll : Streamer → Streamer
poll g = if g.busy then g else record g { busy = true }

take_queued : Option (ℕ × List ℕ) → Streamer → Streamer
take_queued none g = record g { busy = false }
take_queued (some (id, queue)) g = record g { queue = queue; in_flight = some id }

unfoldable pub take : Streamer → Streamer
unfolding take_queued
take g =
    if leb g.limit (length g.buffer)
    then record g { busy = false }
    else take_queued (pop_back g.queue) g

-- The checks of `pullRecord` on what was read and decoded.
unfoldable pub check_record : ℕ → BlockRecord → Result BlockRecord
check_record dummy r =
    if r.final_commit == dummy then err (other 0) else if r.height == 0 then err (other 1) else ok r

unfoldable pub pull_record : ℕ → Result BlockRecord → Result BlockRecord
unfolding check_record
pull_record dummy (ok r) = check_record dummy r
pull_record dummy (err e) = err e

-- The rest of the round: the record goes into the buffer, or the identifier back into the queue.
finish_round : ℕ → Result BlockRecord → Streamer → Streamer
finish_round id (ok r) g = record g { buffer = push_front r g.buffer; in_flight = none }
finish_round id (err e) g = record g {
  queue = push_back id g.queue;
  in_flight = none;
  busy = false;
}

settle_id : ℕ → (ℕ → Result BlockRecord) → Option ℕ → Streamer → Streamer
unfolding finish_round
settle_id dummy fetch none g = g
settle_id dummy fetch (some id) g = finish_round id (pull_record dummy (fetch id)) g

unfoldable pub settle : ℕ → (ℕ → Result BlockRecord) → Streamer → Streamer
unfolding pull_record settle_id
settle dummy fetch g = settle_id dummy fetch g.in_flight g
