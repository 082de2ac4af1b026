-- ===== src/Storage/Retrieving.antt =====
-- The operations of service/storage/operations.go that read, less IterateLedger.
pub mod History
use flow_dps.Base.{
  ℕ, Bool, true, not, Option, none, some, List, [], ◌∷◌, ◌++◌, map, contains, drop, take,
  if◌then◌else◌,
}
use flow_dps.Base.Outcome.{not_found, Result, ok, err}
use flow_dps.Storage.Encoding.{
  encode_key, uint64, identifier, path, prefix_first, prefix_last, prefix_height_for_block,
  prefix_height_for_transaction, prefix_commit, prefix_header, prefix_events, prefix_payload,
  prefix_transaction, prefix_collection, prefix_guarantee, prefix_transactions_for_height,
  prefix_transactions_for_collection, prefix_collections_for_height, prefix_results, prefix_seal,
  prefix_seals_for_height,
}
use flow_dps.Storage.Encoding.Order.{read_number, has_prefix}
use flow_dps.Storage.Library.{Badger, Values, Key, retrieve}

module _ (B : Badger) (V : Values) where
  open V use {Header, Payload, Collection, Transaction, Guarantee, Seal, TxResult, Event}

  unfoldable pub retrieve_first : B.Txn → Result ℕ
  unfolding retrieve encode_key
  retrieve_first = retrieve B V.number (encode_key prefix_first [])

  unfoldable pub retrieve_last : B.Txn → Result ℕ
  unfolding retrieve encode_key
  retrieve_last = retrieve B V.number (encode_key prefix_last [])

  unfoldable pub lookup_height_for_block : ℕ → B.Txn → Result ℕ
  unfolding retrieve encode_key
  lookup_height_for_block block_id =
      retrieve B V.number (encode_key prefix_height_for_block (identifier block_id ∷ []))

  unfoldable pub retrieve_header : ℕ → B.Txn → Result Header
  unfolding retrieve encode_key
  retrieve_header height = retrieve B V.header (encode_key prefix_header (uint64 height ∷ []))

  unfoldable pub retrieve_commit : ℕ → B.Txn → Result ℕ
  unfolding retrieve encode_key
  retrieve_commit height = retrieve B V.number (encode_key prefix_commit (uint64 height ∷ []))

  unfoldable pub retrieve_collection : ℕ → B.Txn → Result Collection
  unfolding retrieve encode_key
  retrieve_collection collection_id =
      retrieve B V.collection (encode_key prefix_collection (identifier collection_id ∷ []))

  unfoldable pub retrieve_guarantee : ℕ → B.Txn → Result Guarantee
  unfolding retrieve encode_key
  retrieve_guarantee collection_id =
      retrieve B V.guarantee (encode_key prefix_guarantee (identifier collection_id ∷ []))

  unfoldable pub retrieve_transaction : ℕ → B.Txn → Result Transaction
  unfolding retrieve encode_key
  retrieve_transaction transaction_id =
      retrieve B V.transaction (encode_key prefix_transaction (identifier transaction_id ∷ []))

  unfoldable pub lookup_height_for_transaction : ℕ → B.Txn → Result ℕ
  unfolding retrieve encode_key
  lookup_height_for_transaction tx_id =
      retrieve B V.number (encode_key prefix_height_for_transaction (identifier tx_id ∷ []))

  unfoldable pub retrieve_seal : ℕ → B.Txn → Result Seal
  unfolding retrieve encode_key
  retrieve_seal seal_id = retrieve B V.seal (encode_key prefix_seal (identifier seal_id ∷ []))

  unfoldable pub lookup_collections_for_height : ℕ → B.Txn → Result (List ℕ)
  unfolding retrieve encode_key
  lookup_collections_for_height height =
      retrieve B V.ids (encode_key prefix_collections_for_height (uint64 height ∷ []))

  unfoldable pub lookup_transactions_for_height : ℕ → B.Txn → Result (List ℕ)
  unfolding retrieve encode_key
  lookup_transactions_for_height height =
      retrieve B V.ids (encode_key prefix_transactions_for_height (uint64 height ∷ []))

  unfoldable pub lookup_transactions_for_collection : ℕ → B.Txn → Result (List ℕ)
  unfolding retrieve encode_key
  lookup_transactions_for_collection coll_id =
      retrieve B V.ids (encode_key prefix_transactions_for_collection (identifier coll_id ∷ []))

  unfoldable pub lookup_seals_for_height : ℕ → B.Txn → Result (List ℕ)
  unfolding retrieve encode_key
  lookup_seals_for_height height =
      retrieve B V.ids (encode_key prefix_seals_for_height (uint64 height ∷ []))

  unfoldable pub retrieve_result : ℕ → B.Txn → Result TxResult
  unfolding retrieve encode_key
  retrieve_result tx_id = retrieve B V.result (encode_key prefix_results (identifier tx_id ∷ []))

  -- Whether the event batch at a key passes the filter: no type given, or its hash among theirs.
  abbrev batch_wanted : List ℕ → Key → Bool
  batch_wanted [] key = true
  batch_wanted (h ∷ hs) key = contains (read_number 0 (take 8 (drop 9 key))) (h ∷ hs)

  abbrev then_append : Result (List Event) → Result (List Event) → Result (List Event)
  then_append (ok evts) (ok rest) = ok (evts ++ rest)
  then_append (ok evts) (err e) = err e
  then_append (err e) rest = err e

  -- The loop over the batches.
  collect_events : List ℕ → List (Key × List ℕ) → Result (List Event)
  unfolding read_number
  collect_events hashes [] = ok []
  collect_events hashes ((key, val) ∷ items) =
      let rest = collect_events hashes items in
      if batch_wanted hashes key then then_append (V.events.unmarshal val) rest else rest

  unfoldable pub retrieve_events : ℕ → List ℕ → B.Txn → Result (List Event)
  unfolding collect_events encode_key
  retrieve_events height types tx =
      collect_events (map V.type_hash types)
        (B.scan (encode_key prefix_events (uint64 height ∷ [])) tx)

  -- What the iterator stands on, if that has the prefix.
  payload_at : Key → Option (Key × List ℕ) → Result Payload
  payload_at prefix none = err not_found
  payload_at prefix (some (key, val)) =
      if has_prefix prefix key then V.payload.unmarshal val else err not_found

  unfoldable pub retrieve_payload : ℕ → ℕ → B.Txn → Result Payload
  unfolding payload_at encode_key
  retrieve_payload height p tx =
      let key = encode_key prefix_payload (path p ∷ uint64 height ∷ []) in
      payload_at (take 33 key) (B.seek_reverse key tx)
