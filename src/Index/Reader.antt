-- ===== src/Index/Reader.antt =====
-- service/index/reader.go. A call reads one state of the database, `tx`; the reader is meant for a
-- database that is opened read-only.
pub mod AtHeight
use flow_dps.Base.{ℕ, ltb, ◌||◌, Option, none, some, List, [], ◌∷◌, if◌then◌else◌}
use flow_dps.Base.Outcome.{invalid_height, not_found, Result, ok, err}
use flow_dps.Storage.Library.{Badger, Values}
use flow_dps.Storage.Retrieving.{
  retrieve_first, retrieve_last, lookup_height_for_block, retrieve_commit, retrieve_header,
  retrieve_payload, retrieve_collection, lookup_collections_for_height, retrieve_guarantee,
  retrieve_transaction, lookup_height_for_transaction, lookup_transactions_for_height,
  retrieve_result, retrieve_events, retrieve_seal, lookup_seals_for_height,
}

module _ (B : Badger) (V : Values) where
  open V use {Header, Payload, Collection, Transaction, Guarantee, Seal, TxResult, Event, Value}

  unfoldable pub first : B.Txn → Result ℕ
  first tx = retrieve_first B V tx

  unfoldable pub last : B.Txn → Result ℕ
  last tx = retrieve_last B V tx

  unfoldable pub height_for_block : ℕ → B.Txn → Result ℕ
  height_for_block block_id tx = lookup_height_for_block B V block_id tx

  unfoldable pub commit : ℕ → B.Txn → Result ℕ
  commit height tx = retrieve_commit B V height tx

  unfoldable pub header : ℕ → B.Txn → Result Header
  header height tx = retrieve_header B V height tx

  -- The check of the height that `values` and `events` start with.
  abbrev check_last : ℕ → ℕ → Result ℕ → Result (Unit {0})
  check_last height f (err e) = err e
  check_last height f (ok l) = if ltb height f || ltb l height then err invalid_height else ok tt

  abbrev check_first : ℕ → Result ℕ → Result ℕ → Result (Unit {0})
  check_first height (err e) l = err e
  check_first height (ok f) l = check_last height f l

  abbrev when_ok : {A : Type 0} → Result (Unit {0}) → Result A → Result A
  when_ok (ok u) r = r
  when_ok (err e) r = err e

  -- One round of the loop over the paths: a path that is not found has the value nil.
  abbrev add_value : Result Payload → Result (List (Option Value)) → Result (List (Option Value))
  add_value (ok p) (ok vs) = ok (some (V.payload_value p) ∷ vs)
  add_value (err not_found) (ok vs) = ok (none ∷ vs)
  add_value (ok p) (err e) = err e
  add_value (err not_found) (err e) = err e
  add_value (err e) rest = err e

  read_values : ℕ → List ℕ → B.Txn → Result (List (Option Value))
  read_values height [] tx = ok []
  read_values height (p ∷ paths) tx =
      add_value (retrieve_payload B V height p tx) (read_values height paths tx)

  unfoldable pub values : ℕ → List ℕ → B.Txn → Result (List (Option Value))
  unfolding first last read_values
  values height paths tx =
      when_ok (check_first height (first tx) (last tx)) (read_values height paths tx)

  unfoldable pub collection : ℕ → B.Txn → Result Collection
  collection coll_id tx = retrieve_collection B V coll_id tx

  unfoldable pub collections_by_height : ℕ → B.Txn → Result (List ℕ)
  collections_by_height height tx = lookup_collections_for_height B V height tx

  unfoldable pub guarantee : ℕ → B.Txn → Result Guarantee
  guarantee coll_id tx = retrieve_guarantee B V coll_id tx

  unfoldable pub transaction : ℕ → B.Txn → Result Transaction
  transaction tx_id tx = retrieve_transaction B V tx_id tx

  unfoldable pub height_for_transaction : ℕ → B.Txn → Result ℕ
  height_for_transaction tx_id tx = lookup_height_for_transaction B V tx_id tx

  unfoldable pub transactions_by_height : ℕ → B.Txn → Result (List ℕ)
  transactions_by_height height tx = lookup_transactions_for_height B V height tx

  unfoldable pub result : ℕ → B.Txn → Result TxResult
  result tx_id tx = retrieve_result B V tx_id tx

  unfoldable pub events : ℕ → List ℕ → B.Txn → Result (List Event)
  unfolding first last
  events height types tx =
      when_ok (check_first height (first tx) (last tx)) (retrieve_events B V height types tx)

  unfoldable pub seal : ℕ → B.Txn → Result Seal
  seal seal_id tx = retrieve_seal B V seal_id tx

  unfoldable pub seals_by_height : ℕ → B.Txn → Result (List ℕ)
  seals_by_height height tx = lookup_seals_for_height B V height tx
