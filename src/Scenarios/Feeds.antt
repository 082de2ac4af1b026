-- ===== src/Scenarios/Feeds.antt =====
-- The streamer of service/cloud, the tracker of service/tracker and the catching up of
-- service/initializer on short runs.
use flow_dps.Base.{◌≢◌, ℕ, ◌+◌, ◌≤◌, ◌≡◌, refl, arith, some, none, List, [], ◌∷◌, ◌++◌, map, length}
use flow_dps.Base.Store.{lookup, insert}
use flow_dps.Base.Outcome.{Err, duplicate_record, ok, err, not_found, unavailable, Result}
use flow_dps.Queue.{waiting}
use flow_dps.Streamer.{BlockRecord, new_streamer}
use flow_dps.Streamer.Order.{
  Event, finalized, asked, polled, round_head, round_tail, handle_all, pending, delivered_in_order,
  IsHonest,
}
use flow_dps.Streamer.Order.Bounds.{buffer_bounded}
use flow_dps.Tracker.Execution.{BlockData, Execution, update, record_of}
use flow_dps.Tracker.Execution.Order.{to_come, update_order}
use flow_dps.Tracker.Execution.Cache.{record_of-Returned, record_of-arrives}
use flow_dps.Tracker.Catchup.{catchup_blocks, catchup_blocks_lem}

-- A bucket that has the record of every block.
abbrev bucket : ℕ → Result BlockRecord
bucket id = ok (record { block_id = id; height = id + 1; final_commit = 7 })

abbrev calls : List Event
calls =
    asked
    ∷ polled
    ∷ round_head
    ∷ finalized 12
    ∷ round_tail bucket
    ∷ asked
    ∷ round_head
    ∷ round_tail (λ id. err unavailable)
    ∷ []

delivered_in_order_example :
    let (g, out) = handle_all 0 calls (new_streamer 2 (10 ∷ 11 ∷ []), []) in
    map (λ r. r.block_id) out ++ pending g ≡ 10 ∷ 11 ∷ 12 ∷ []
delivered_in_order_example =
    delivered_in_order 0 2 (10 ∷ 11 ∷ []) calls
      (tt, (tt, (tt, (tt, (honest, (tt, (tt, (refused, tt))))))))
  where
    honest : IsHonest (round_tail bucket)
    honest id r e = ground arith

    refused : IsHonest (round_tail (λ id. err unavailable))
    refused id r e = ground arith

buffer_bounded_example :
    length (handle_all 0 calls (new_streamer 1 (10 ∷ 11 ∷ []), [])).0.buffer ≤ 1
buffer_bounded_example = buffer_bounded 0 1 (10 ∷ 11 ∷ []) calls

abbrev block_ten : BlockData ℕ
block_ten = record { block_id = 10; height = 5; updates = none ∷ [] }

abbrev block_eleven : BlockData ℕ
block_eleven = record { block_id = 11; height = 6; updates = some 71 ∷ none ∷ some 72 ∷ [] }

abbrev tracker : Execution ℕ
tracker = record { queue = []; stream = ok block_ten ∷ ok block_eleven ∷ []; records = [] }

update_order_example :
    ((u : ℕ) → (update tracker).0 ≡ ok u → 71 ∷ 72 ∷ [] ≡ u ∷ to_come (update tracker).1)
    × ((x : Err)
        → (update tracker).0 ≡ err x
        → x ≢ duplicate_record
        → 71 ∷ 72 ∷ [] ≡ to_come (update tracker).1)
unfolding waiting
update_order_example = update_order tracker

record_of-Returned_example :
    (block_eleven.block_id ≡ 11)
    × ((k : ℕ) (s : BlockData ℕ)
        → lookup k (record_of 11 tracker).1.records ≡ some s
        → block_eleven.height ≤ s.height)
unfolding lookup insert
record_of-Returned_example =
    record_of-Returned 11 tracker (λ k r e. ground arith)
      (record_of-arrives (block_ten ∷ []) block_eleven [] tracker refl (refl, refl, refl))

record_of-arrives_example : (record_of 11 tracker).0 ≡ ok block_eleven
unfolding lookup insert
record_of-arrives_example =
    record_of-arrives (block_ten ∷ []) block_eleven [] tracker refl (refl, refl, refl)

catchup_blocks_lem_example :
    (catchup_blocks (ok 5) (ok 5) (ok 7) (λ h. ok (h + 100)) ≡ ok (106 ∷ 107 ∷ []))
    × (catchup_blocks (err not_found) (ok 5) (ok 7) (λ h. ok (h + 100)) ≡ ok (106 ∷ 107 ∷ []))
    × (catchup_blocks (err not_found) (err not_found) (ok 7) (λ h. ok (h + 100)) ≡ ok [])
    × (catchup_blocks (ok 5) (ok 5) (err not_found) (λ h. ok (h + 100)) ≡ ok [])
    × (catchup_blocks (err not_found) (ok 5) (err not_found) (λ h. ok (h + 100)) ≡ ok [])
catchup_blocks_lem_example =
    catchup_blocks_lem (λ h. h + 100) (λ h. ok (h + 100)) 5 7 (ok 5) (ok 7) (λ h _. refl)
      (omega arith) (omega arith)
