-- ===== src/Storage/Operations.antt =====
-- The operations of service/storage/operations.go as data: what can be saved, and what is read of one
-- entry. `perform` and `ask` run the operation of that name.
pub mod Keys
pub mod Kept
use flow_dps.Base.{ℕ, ◌≡◌, List, [], ◌∷◌, map}
use flow_dps.Base.Outcome.{Result, ok, Exec}
use flow_dps.Storage.Library.{Badger, Values, Codec, combine}
use flow_dps.Storage.Entries.{
  Entry, key_of, InRange, first, last, height_for_block, commit, header, events, payload,
  transaction, height_for_transaction, collection, guarantee, seal, transactions_for_height,
  transactions_for_collection, collections_for_height, seals_for_height, results,
}
use flow_dps.Storage.Saving.{
  save_first, save_last, index_height_for_block, save_commit, save_header, save_events,
  save_payload, save_transaction, index_height_for_transaction, save_collection, save_guarantee,
  save_seal, index_transactions_for_height, index_transactions_for_collection,
  index_collections_for_height, index_seals_for_height, save_result,
}
use flow_dps.Storage.Retrieving.{
  retrieve_first, retrieve_last, lookup_height_for_block, retrieve_commit, retrieve_header,
  retrieve_payload, retrieve_transaction, lookup_height_for_transaction, retrieve_collection,
  retrieve_guarantee, retrieve_seal, lookup_transactions_for_height,
  lookup_transactions_for_collection, lookup_collections_for_height, lookup_seals_for_height,
  retrieve_result,
}

-- A call of one of the operations that write.
pub data Saving (V : Values) : Type 0 where
  set_first : ℕ → Saving V
  set_last : ℕ → Saving V
  set_height_for_block : ℕ → ℕ → Saving V
  set_commit : ℕ → ℕ → Saving V
  set_header : ℕ → V.Header → Saving V
  set_events : ℕ → ℕ → List V.Event → Saving V
  set_payload : ℕ → ℕ → V.Payload → Saving V
  set_transaction : V.Transaction → Saving V
  set_height_for_transaction : ℕ → ℕ → Saving V
  set_collection : V.Collection → Saving V
  set_guarantee : V.Guarantee → Saving V
  set_seal : V.Seal → Saving V
  set_transactions_for_height : ℕ → List ℕ → Saving V
  set_transactions_for_collection : ℕ → List ℕ → Saving V
  set_collections_for_height : ℕ → List ℕ → Saving V
  set_seals_for_height : ℕ → List ℕ → Saving V
  set_result : V.TxResult → Saving V

-- What a call is to write: a value, for an entry, with the codec at its type.
pub record Write : Type 1 where
  pub Content : Type 0
  pub codec : Codec Content
  pub entry : Entry
  pub content : Content

abbrev pub write_of : (V : Values) → Saving V → Write
write_of V (set_first height) = record {
  Content = ℕ;
  codec = V.number;
  entry = first;
  content = height;
}
write_of V (set_last height) = record {
  Content = ℕ;
  codec = V.number;
  entry = last;
  content = height;
}
write_of V (set_height_for_block id height) = record {
  Content = ℕ;
  codec = V.number;
  entry = height_for_block id;
  content = height;
}
write_of V (set_commit height c) = record {
  Content = ℕ;
  codec = V.number;
  entry = commit height;
  content = c;
}
write_of V (set_header height x) = record {
  Content = V.Header;
  codec = V.header;
  entry = header height;
  content = x;
}
write_of V (set_events height typ es) = record {
  Content = List V.Event;
  codec = V.events;
  entry = events height (V.type_hash typ);
  content = es;
}
write_of V (set_payload height p x) = record {
  Content = V.Payload;
  codec = V.payload;
  entry = payload p height;
  content = x;
}
write_of V (set_transaction t) = record {
  Content = V.Transaction;
  codec = V.transaction;
  entry = transaction (V.transaction_id t);
  content = t;
}
write_of V (set_height_for_transaction id height) = record {
  Content = ℕ;
  codec = V.number;
  entry = height_for_transaction id;
  content = height;
}
write_of V (set_collection c) = record {
  Content = V.Collection;
  codec = V.collection;
  entry = collection (V.collection_id c);
  content = c;
}
write_of V (set_guarantee g) = record {
  Content = V.Guarantee;
  codec = V.guarantee;
  entry = guarantee (V.guarantee_collection g);
  content = g;
}
write_of V (set_seal s) = record {
  Content = V.Seal;
  codec = V.seal;
  entry = seal (V.seal_id s);
  content = s;
}
write_of V (set_transactions_for_height height ids) = record {
  Content = List ℕ;
  codec = V.ids;
  entry = transactions_for_height height;
  content = ids;
}
write_of V (set_transactions_for_collection id ids) = record {
  Content = List ℕ;
  codec = V.ids;
  entry = transactions_for_collection id;
  content = ids;
}
write_of V (set_collections_for_height height ids) = record {
  Content = List ℕ;
  codec = V.ids;
  entry = collections_for_height height;
  content = ids;
}
write_of V (set_seals_for_height height ids) = record {
  Content = List ℕ;
  codec = V.ids;
  entry = seals_for_height height;
  content = ids;
}
write_of V (set_result r) = record {
  Content = V.TxResult;
  codec = V.result;
  entry = results (V.result_transaction r);
  content = r;
}

abbrev pub entry_of : (V : Values) → Saving V → Entry
entry_of V s = (write_of V s).entry

-- A call of one of the operations that read one entry; of the others, RetrievePayload and
-- RetrieveEvents, the first is in `Retrieved`.
pub data Query : Type 0 where
  ask_first : Query
  ask_last : Query
  ask_height_for_block : ℕ → Query
  ask_commit : ℕ → Query
  ask_header : ℕ → Query
  ask_transaction : ℕ → Query
  ask_height_for_transaction : ℕ → Query
  ask_collection : ℕ → Query
  ask_guarantee : ℕ → Query
  ask_seal : ℕ → Query
  ask_transactions_for_height : ℕ → Query
  ask_transactions_for_collection : ℕ → Query
  ask_collections_for_height : ℕ → Query
  ask_seals_for_height : ℕ → Query
  ask_result : ℕ → Query

abbrev pub Answer : Values → Query → Type 0
Answer V ask_first = ℕ
Answer V ask_last = ℕ
Answer V (ask_height_for_block id) = ℕ
Answer V (ask_commit id) = ℕ
Answer V (ask_header id) = V.Header
Answer V (ask_transaction id) = V.Transaction
Answer V (ask_height_for_transaction id) = ℕ
Answer V (ask_collection id) = V.Collection
Answer V (ask_guarantee id) = V.Guarantee
Answer V (ask_seal id) = V.Seal
Answer V (ask_transactions_for_height id) = List ℕ
Answer V (ask_transactions_for_collection id) = List ℕ
Answer V (ask_collections_for_height id) = List ℕ
Answer V (ask_seals_for_height id) = List ℕ
Answer V (ask_result id) = V.TxResult

-- The entry that a call is to read.
abbrev pub asked : Query → Entry
asked ask_first = first
asked ask_last = last
asked (ask_height_for_block id) = height_for_block id
asked (ask_commit id) = commit id
asked (ask_header id) = header id
asked (ask_transaction id) = transaction id
asked (ask_height_for_transaction id) = height_for_transaction id
asked (ask_collection id) = collection id
asked (ask_guarantee id) = guarantee id
asked (ask_seal id) = seal id
asked (ask_transactions_for_height id) = transactions_for_height id
asked (ask_transactions_for_collection id) = transactions_for_collection id
asked (ask_collections_for_height id) = collections_for_height id
asked (ask_seals_for_height id) = seals_for_height id
asked (ask_result id) = results id

module _ (B : Badger) (V : Values) where
  unfoldable pub perform : Saving V → Exec B.Txn (Unit {0})
  unfolding save_first save_last index_height_for_block save_commit save_header save_events
      save_payload save_transaction index_height_for_transaction save_collection save_guarantee
      save_seal index_transactions_for_height index_transactions_for_collection
      index_collections_for_height index_seals_for_height save_result
  perform (set_first height) = save_first B V height
  perform (set_last height) = save_last B V height
  perform (set_height_for_block id height) = index_height_for_block B V id height
  perform (set_commit height c) = save_commit B V height c
  perform (set_header height x) = save_header B V height x
  perform (set_events height typ es) = save_events B V height typ es
  perform (set_payload height p x) = save_payload B V height p x
  perform (set_transaction t) = save_transaction B V t
  perform (set_height_for_transaction id height) = index_height_for_transaction B V id height
  perform (set_collection c) = save_collection B V c
  perform (set_guarantee g) = save_guarantee B V g
  perform (set_seal s) = save_seal B V s
  perform (set_transactions_for_height height ids) = index_transactions_for_height B V height ids
  perform (set_transactions_for_collection id ids) = index_transactions_for_collection B V id ids
  perform (set_collections_for_height height ids) = index_collections_for_height B V height ids
  perform (set_seals_for_height height ids) = index_seals_for_height B V height ids
  perform (set_result r) = save_result B V r

  unfoldable pub ask : (q : Query) → B.Txn → Result (Answer V q)
  unfolding retrieve_first retrieve_last lookup_height_for_block retrieve_commit retrieve_header
      retrieve_transaction lookup_height_for_transaction retrieve_collection retrieve_guarantee
      retrieve_seal lookup_transactions_for_height lookup_transactions_for_collection
      lookup_collections_for_height lookup_seals_for_height retrieve_result
  ask ask_first = retrieve_first B V
  ask ask_last = retrieve_last B V
  ask (ask_height_for_block id) = lookup_height_for_block B V id
  ask (ask_commit id) = retrieve_commit B V id
  ask (ask_header id) = retrieve_header B V id
  ask (ask_transaction id) = retrieve_transaction B V id
  ask (ask_height_for_transaction id) = lookup_height_for_transaction B V id
  ask (ask_collection id) = retrieve_collection B V id
  ask (ask_guarantee id) = retrieve_guarantee B V id
  ask (ask_seal id) = retrieve_seal B V id
  ask (ask_transactions_for_height id) = lookup_transactions_for_height B V id
  ask (ask_transactions_for_collection id) = lookup_transactions_for_collection B V id
  ask (ask_collections_for_height id) = lookup_collections_for_height B V id
  ask (ask_seals_for_height id) = lookup_seals_for_height B V id
  ask (ask_result id) = retrieve_result B V id

  -- The operation that reads what a call has written returns it. A batch of events is read by an
  -- iterator over its key: for it, the key holds the encoded batch.
  abbrev pub Retrieved : Saving V → B.Txn → Type 0
  Retrieved (set_first height) tx = retrieve_first B V tx ≡ ok height
  Retrieved (set_last height) tx = retrieve_last B V tx ≡ ok height
  Retrieved (set_height_for_block id height) tx = lookup_height_for_block B V id tx ≡ ok height
  Retrieved (set_commit height c) tx = retrieve_commit B V height tx ≡ ok c
  Retrieved (set_header height x) tx = retrieve_header B V height tx ≡ ok x
  Retrieved (set_events height typ es) tx =
      (v : List ℕ) × (V.events.marshal es ≡ ok v)
      × (B.get (key_of (events height (V.type_hash typ))) tx ≡ ok v)
  Retrieved (set_payload height p x) tx = retrieve_payload B V height p tx ≡ ok x
  Retrieved (set_transaction t) tx = retrieve_transaction B V (V.transaction_id t) tx ≡ ok t
  Retrieved (set_height_for_transaction id height) tx =
      lookup_height_for_transaction B V id tx ≡ ok height
  Retrieved (set_collection c) tx = retrieve_collection B V (V.collection_id c) tx ≡ ok c
  Retrieved (set_guarantee g) tx = retrieve_guarantee B V (V.guarantee_collection g) tx ≡ ok g
  Retrieved (set_seal s) tx = retrieve_seal B V (V.seal_id s) tx ≡ ok s
  Retrieved (set_transactions_for_height height ids) tx =
      lookup_transactions_for_height B V height tx ≡ ok ids
  Retrieved (set_transactions_for_collection id ids) tx =
      lookup_transactions_for_collection B V id tx ≡ ok ids
  Retrieved (set_collections_for_height height ids) tx =
      lookup_collections_for_height B V height tx ≡ ok ids
  Retrieved (set_seals_for_height height ids) tx = lookup_seals_for_height B V height tx ≡ ok ids
  Retrieved (set_result r) tx = retrieve_result B V (V.result_transaction r) tx ≡ ok r
