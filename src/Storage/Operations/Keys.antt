-- ===== src/Storage/Operations/Keys.antt =====
-- The keys that the operations of service/storage/operations.go write and read.
use flow_dps.Base.{◌≡◌, ◌≢◌, refl}
use flow_dps.Storage.Library.{Badger, Values, Codec, save}
use flow_dps.Storage.Library.RoundTrip.{
  IsStore, IsCodec, Holds, retrieve-save_other, retrieve-Holds, retrieve_payload-Holds,
}
use flow_dps.Storage.Retrieving.History.{IsReverse, OnlyEntries}
use flow_dps.Storage.Entries.{
  Entry, key_of, InRange, first, last, height_for_block, commit, header, transaction,
  height_for_transaction, collection, guarantee, seal, transactions_for_height,
  transactions_for_collection, collections_for_height, seals_for_height, results,
}
use flow_dps.Storage.Saving.{
  save_first, save_last, index_height_for_block, save_commit, save_header, save_events,
  save_payload, save_transaction, index_height_for_transaction, save_collection, save_guarantee,
  save_seal, index_transactions_for_height, index_transactions_for_collection,
  index_collections_for_height, index_seals_for_height, save_result,
}
use flow_dps.Storage.Retrieving.{
  retrieve_first, retrieve_last, lookup_height_for_block, retrieve_commit, retrieve_header,
  retrieve_transaction, lookup_height_for_transaction, retrieve_collection, retrieve_guarantee,
  retrieve_seal, lookup_transactions_for_height, lookup_transactions_for_collection,
  lookup_collections_for_height, lookup_seals_for_height, retrieve_result,
}
use flow_dps.Storage.Operations.{
  Saving, set_first, set_last, set_height_for_block, set_commit, set_header, set_events,
  set_payload, set_transaction, set_height_for_transaction, set_collection, set_guarantee, set_seal,
  set_transactions_for_height, set_transactions_for_collection, set_collections_for_height,
  set_seals_for_height, set_result, Query, ask_first, ask_last, ask_height_for_block, ask_commit,
  ask_header, ask_transaction, ask_height_for_transaction, ask_collection, ask_guarantee, ask_seal,
  ask_transactions_for_height, ask_transactions_for_collection, ask_collections_for_height,
  ask_seals_for_height, ask_result, write_of, entry_of, asked, perform, ask, Retrieved,
}

module _ (B : Badger) (V : Values) where
  -- Every operation that writes saves its value under the key of its entry.
  pub perform-save :
      (s : Saving V) (tx : B.Txn)
      → perform B V s tx
        ≡ save B (write_of V s).codec (key_of (entry_of V s)) (write_of V s).content tx
  unfolding perform key_of save_first save_last index_height_for_block save_commit save_header
      save_events save_payload save_transaction index_height_for_transaction save_collection
      save_guarantee save_seal index_transactions_for_height index_transactions_for_collection
      index_collections_for_height index_seals_for_height save_result
  perform-save (set_first height) tx = refl
  perform-save (set_last height) tx = refl
  perform-save (set_height_for_block id height) tx = refl
  perform-save (set_commit height c) tx = refl
  perform-save (set_header height x) tx = refl
  perform-save (set_events height typ es) tx = refl
  perform-save (set_payload height p x) tx = refl
  perform-save (set_transaction t) tx = refl
  perform-save (set_height_for_transaction id height) tx = refl
  perform-save (set_collection c) tx = refl
  perform-save (set_guarantee g) tx = refl
  perform-save (set_seal s) tx = refl
  perform-save (set_transactions_for_height height ids) tx = refl
  perform-save (set_transactions_for_collection id ids) tx = refl
  perform-save (set_collections_for_height height ids) tx = refl
  perform-save (set_seals_for_height height ids) tx = refl
  perform-save (set_result r) tx = refl

  -- Every operation that reads one entry looks for the key of that entry.
  pub ask-save_other :
      (store : IsStore B) (q : Query) {A : Type 0} (c : Codec A) (e : Entry) (a : A) (tx : B.Txn)
      → key_of e ≢ key_of (asked q)
      → ask B V q (save B c (key_of e) a tx).1 ≡ ask B V q tx
  unfolding ask key_of retrieve_first retrieve_last lookup_height_for_block retrieve_commit
      retrieve_header retrieve_transaction lookup_height_for_transaction retrieve_collection
      retrieve_guarantee retrieve_seal lookup_transactions_for_height
      lookup_transactions_for_collection lookup_collections_for_height lookup_seals_for_height
      retrieve_result
  ask-save_other store ask_first c e a tx n =
      retrieve-save_other B store c (key_of e) a tx V.number (key_of (first)) n
  ask-save_other store ask_last c e a tx n =
      retrieve-save_other B store c (key_of e) a tx V.number (key_of (last)) n
  ask-save_other store (ask_height_for_block id) c e a tx n =
      retrieve-save_other B store c (key_of e) a tx V.number (key_of (height_for_block id)) n
  ask-save_other store (ask_commit id) c e a tx n =
      retrieve-save_other B store c (key_of e) a tx V.number (key_of (commit id)) n
  ask-save_other store (ask_header id) c e a tx n =
      retrieve-save_other B store c (key_of e) a tx V.header (key_of (header id)) n
  ask-save_other store (ask_transaction id) c e a tx n =
      retrieve-save_other B store c (key_of e) a tx V.transaction (key_of (transaction id)) n
  ask-save_other store (ask_height_for_transaction id) c e a tx n =
      retrieve-save_other B store c (key_of e) a tx V.number (key_of (height_for_transaction id)) n
  ask-save_other store (ask_collection id) c e a tx n =
      retrieve-save_other B store c (key_of e) a tx V.collection (key_of (collection id)) n
  ask-save_other store (ask_guarantee id) c e a tx n =
      retrieve-save_other B store c (key_of e) a tx V.guarantee (key_of (guarantee id)) n
  ask-save_other store (ask_seal id) c e a tx n =
      retrieve-save_other B store c (key_of e) a tx V.seal (key_of (seal id)) n
  ask-save_other store (ask_transactions_for_height id) c e a tx n =
      retrieve-save_other B store c (key_of e) a tx V.ids (key_of (transactions_for_height id)) n
  ask-save_other store (ask_transactions_for_collection id) c e a tx n =
      retrieve-save_other B store c (key_of e) a tx V.ids (key_of (transactions_for_collection id))
        n
  ask-save_other store (ask_collections_for_height id) c e a tx n =
      retrieve-save_other B store c (key_of e) a tx V.ids (key_of (collections_for_height id)) n
  ask-save_other store (ask_seals_for_height id) c e a tx n =
      retrieve-save_other B store c (key_of e) a tx V.ids (key_of (seals_for_height id)) n
  ask-save_other store (ask_result id) c e a tx n =
      retrieve-save_other B store c (key_of e) a tx V.result (key_of (results id)) n

  pub Retrieved-Stored :
      (s : Saving V) (tx : B.Txn)
      → IsReverse B
      → IsCodec (write_of V s).codec
      → OnlyEntries B tx
      → InRange (entry_of V s)
      → Holds B (write_of V s).codec (key_of (entry_of V s)) (write_of V s).content tx
      → Retrieved B V s tx
  unfolding key_of retrieve_first retrieve_last lookup_height_for_block retrieve_commit
      retrieve_header retrieve_transaction lookup_height_for_transaction retrieve_collection
      retrieve_guarantee retrieve_seal lookup_transactions_for_height
      lookup_transactions_for_collection lookup_collections_for_height lookup_seals_for_height
      retrieve_result
  Retrieved-Stored (set_first height) tx rev law only range h =
      retrieve-Holds B V.number law (key_of (first)) height tx h
  Retrieved-Stored (set_last height) tx rev law only range h =
      retrieve-Holds B V.number law (key_of (last)) height tx h
  Retrieved-Stored (set_height_for_block id height) tx rev law only range h =
      retrieve-Holds B V.number law (key_of (height_for_block id)) height tx h
  Retrieved-Stored (set_commit height c) tx rev law only range h =
      retrieve-Holds B V.number law (key_of (commit height)) c tx h
  Retrieved-Stored (set_header height x) tx rev law only range h =
      retrieve-Holds B V.header law (key_of (header height)) x tx h
  Retrieved-Stored (set_events height typ es) tx rev law only range h = h
  Retrieved-Stored (set_payload height p x) tx rev law only range h =
      retrieve_payload-Holds B V tx height p x law rev only range.0 range.1 h
  Retrieved-Stored (set_transaction t) tx rev law only range h =
      retrieve-Holds B V.transaction law (key_of (transaction (V.transaction_id t))) t tx h
  Retrieved-Stored (set_height_for_transaction id height) tx rev law only range h =
      retrieve-Holds B V.number law (key_of (height_for_transaction id)) height tx h
  Retrieved-Stored (set_collection c) tx rev law only range h =
      retrieve-Holds B V.collection law (key_of (collection (V.collection_id c))) c tx h
  Retrieved-Stored (set_guarantee g) tx rev law only range h =
      retrieve-Holds B V.guarantee law (key_of (guarantee (V.guarantee_collection g))) g tx h
  Retrieved-Stored (set_seal s) tx rev law only range h =
      retrieve-Holds B V.seal law (key_of (seal (V.seal_id s))) s tx h
  Retrieved-Stored (set_transactions_for_height height ids) tx rev law only range h =
      retrieve-Holds B V.ids law (key_of (transactions_for_height height)) ids tx h
  Retrieved-Stored (set_transactions_for_collection id ids) tx rev law only range h =
      retrieve-Holds B V.ids law (key_of (transactions_for_collection id)) ids tx h
  Retrieved-Stored (set_collections_for_height height ids) tx rev law only range h =
      retrieve-Holds B V.ids law (key_of (collections_for_height height)) ids tx h
  Retrieved-Stored (set_seals_for_height height ids) tx rev law only range h =
      retrieve-Holds B V.ids law (key_of (seals_for_height height)) ids tx h
  Retrieved-Stored (set_result r) tx rev law only range h =
      retrieve-Holds B V.result law (key_of (results (V.result_transaction r))) r tx h
