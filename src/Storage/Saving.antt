-- ===== src/Storage/Saving.antt =====
-- The operations of service/storage/operations.go that write.
use flow_dps.Base.{ℕ, List, [], ◌∷◌}
use flow_dps.Base.Outcome.{Exec}
use flow_dps.Storage.Encoding.{
  encode_key, uint64, identifier, path, prefix_first, prefix_last, prefix_height_for_block,
  prefix_height_for_transaction, prefix_commit, prefix_header, prefix_events, prefix_payload,
  prefix_transaction, prefix_collection, prefix_guarantee, prefix_transactions_for_height,
  prefix_transactions_for_collection, prefix_collections_for_height, prefix_results, prefix_seal,
  prefix_seals_for_height,
}
use flow_dps.Storage.Library.{Badger, Values, save}

module _ (B : Badger) (V : Values) where
  open V use {Header, Payload, Collection, Transaction, Guarantee, Seal, TxResult, Event}

  unfoldable pub save_first : ℕ → Exec B.Txn (Unit {0})
  unfolding save encode_key
  save_first height = save B V.number (encode_key prefix_first []) height

  unfoldable pub save_last : ℕ → Exec B.Txn (Unit {0})
  unfolding save encode_key
  save_last height = save B V.number (encode_key prefix_last []) height

  unfoldable pub index_height_for_block : ℕ → ℕ → Exec B.Txn (Unit {0})
  unfolding save encode_key
  index_height_for_block block_id height =
      save B V.number (encode_key prefix_height_for_block (identifier block_id ∷ [])) height

  unfoldable pub save_commit : ℕ → ℕ → Exec B.Txn (Unit {0})
  unfolding save encode_key
  save_commit height commit = save B V.number (encode_key prefix_commit (uint64 height ∷ [])) commit

  unfoldable pub save_header : ℕ → Header → Exec B.Txn (Unit {0})
  unfolding save encode_key
  save_header height header = save B V.header (encode_key prefix_header (uint64 height ∷ [])) header

  unfoldable pub save_events : ℕ → ℕ → List Event → Exec B.Txn (Unit {0})
  unfolding save encode_key
  save_events height typ events =
      save B V.events (encode_key prefix_events (uint64 height ∷ uint64 (V.type_hash typ) ∷ []))
        events

  unfoldable pub save_payload : ℕ → ℕ → Payload → Exec B.Txn (Unit {0})
  unfolding save encode_key
  save_payload height p payload =
      save B V.payload (encode_key prefix_payload (path p ∷ uint64 height ∷ [])) payload

  unfoldable pub save_transaction : Transaction → Exec B.Txn (Unit {0})
  unfolding save encode_key
  save_transaction t =
      save B V.transaction (encode_key prefix_transaction (identifier (V.transaction_id t) ∷ [])) t

  unfoldable pub index_height_for_transaction : ℕ → ℕ → Exec B.Txn (Unit {0})
  unfolding save encode_key
  index_height_for_transaction tx_id height =
      save B V.number (encode_key prefix_height_for_transaction (identifier tx_id ∷ [])) height

  unfoldable pub save_collection : Collection → Exec B.Txn (Unit {0})
  unfolding save encode_key
  save_collection c =
      save B V.collection (encode_key prefix_collection (identifier (V.collection_id c) ∷ [])) c

  unfoldable pub save_guarantee : Guarantee → Exec B.Txn (Unit {0})
  unfolding save encode_key
  save_guarantee g =
      save B V.guarantee (encode_key prefix_guarantee (identifier (V.guarantee_collection g) ∷ []))
        g

  unfoldable pub save_seal : Seal → Exec B.Txn (Unit {0})
  unfolding save encode_key
  save_seal s = save B V.seal (encode_key prefix_seal (identifier (V.seal_id s) ∷ [])) s

  unfoldable pub index_transactions_for_height : ℕ → List ℕ → Exec B.Txn (Unit {0})
  unfolding save encode_key
  index_transactions_for_height height tx_ids =
      save B V.ids (encode_key prefix_transactions_for_height (uint64 height ∷ [])) tx_ids

  unfoldable pub index_transactions_for_collection : ℕ → List ℕ → Exec B.Txn (Unit {0})
  unfolding save encode_key
  index_transactions_for_collection coll_id tx_ids =
      save B V.ids (encode_key prefix_transactions_for_collection (identifier coll_id ∷ [])) tx_ids

  unfoldable pub index_collections_for_height : ℕ → List ℕ → Exec B.Txn (Unit {0})
  unfolding save encode_key
  index_collections_for_height height coll_ids =
      save B V.ids (encode_key prefix_collections_for_height (uint64 height ∷ [])) coll_ids

  unfoldable pub index_seals_for_height : ℕ → List ℕ → Exec B.Txn (Unit {0})
  unfolding save encode_key
  index_seals_for_height height seal_ids =
      save B V.ids (encode_key prefix_seals_for_height (uint64 height ∷ [])) seal_ids

  unfoldable pub save_result : TxResult → Exec B.Txn (Unit {0})
  unfolding save encode_key
  save_result r =
      save B V.result (encode_key prefix_results (identifier (V.result_transaction r) ∷ [])) r
