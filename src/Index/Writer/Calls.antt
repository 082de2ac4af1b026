-- ===== src/Index/Writer/Calls.antt =====
-- The calls of service/index/writer.go: each one applies its operations to the current transaction.
use flow_dps.Base.{ℕ, ◌==◌, Option, none, some, List, [], ◌∷◌, ◌++◌, map, length, if◌then◌else◌}
use flow_dps.Base.Store.{Store, lookup, insert}
use flow_dps.Base.Outcome.{Err, size_mismatch, err}
use flow_dps.Storage.Library.{Badger, Values}
use flow_dps.Storage.Saving.{
  save_first, save_last, index_height_for_block, save_commit, save_header, save_events,
  save_payload, save_transaction, index_height_for_transaction, save_collection, save_guarantee,
  save_seal, index_transactions_for_height, index_transactions_for_collection,
  index_collections_for_height, index_seals_for_height, save_result,
}
use flow_dps.Index.Writer.{Op, Writer, apply}

module _ (B : Badger) (V : Values) where
  open V use {Header, Payload, Collection, Transaction, Guarantee, Seal, TxResult, Event}

  -- The lists of operations that the calls build.
  unfoldable pub payload_ops : ℕ → List (ℕ × Payload) → List (Op B.Txn)
  payload_ops height [] = []
  payload_ops height ((p, x) ∷ rest) = save_payload B V height p x ∷ payload_ops height rest

  unfoldable pub collection_ops : ℕ → List Collection → List (Op B.Txn)
  collection_ops height [] = []
  collection_ops height (c ∷ cs) =
      save_collection B V c
      ∷ index_transactions_for_collection B V (V.collection_id c) (V.collection_transactions c)
      ∷ collection_ops height cs

  unfoldable pub transaction_ops : ℕ → List Transaction → List (Op B.Txn)
  transaction_ops height [] = []
  transaction_ops height (t ∷ ts) =
      save_transaction B V t
      ∷ index_height_for_transaction B V (V.transaction_id t) height
      ∷ transaction_ops height ts

  abbrev pub or_empty : Option (List Event) → List Event
  or_empty none = []
  or_empty (some es) = es

  -- The events by their type, in the order of the list within a type.
  unfoldable pub buckets : List Event → Store (List Event) → Store (List Event)
  unfolding lookup insert
  buckets [] m = m
  buckets (e ∷ es) m =
      let t = V.event_type e in buckets es (insert t (or_empty (lookup t m) ++ e ∷ []) m)

  event_ops : ℕ → Store (List Event) → List (Op B.Txn)
  event_ops height [] = []
  event_ops height ((t, set) ∷ rest) = save_events B V height t set ∷ event_ops height rest

  abbrev pub zip : List ℕ → List Payload → List (ℕ × Payload)
  zip (p ∷ ps) (x ∷ xs) = (p, x) ∷ zip ps xs
  zip _ _ = []

  module _ (new_transaction : B.Txn) (outcome : ℕ → Option Err) where
    abbrev run : List (Op B.Txn) → Op (Writer B.Txn)
    run ops = apply new_transaction outcome ops

    unfoldable pub first : ℕ → Op (Writer B.Txn)
    first height = run (save_first B V height ∷ [])

    unfoldable pub last : ℕ → Op (Writer B.Txn)
    last height = run (save_last B V height ∷ [])

    unfoldable pub height : ℕ → ℕ → Op (Writer B.Txn)
    height block_id h = run (index_height_for_block B V block_id h ∷ [])

    unfoldable pub commit : ℕ → ℕ → Op (Writer B.Txn)
    commit h c = run (save_commit B V h c ∷ [])

    unfoldable pub header : ℕ → Header → Op (Writer B.Txn)
    header h x = run (save_header B V h x ∷ [])

    unfoldable pub payloads : ℕ → List ℕ → List Payload → Op (Writer B.Txn)
    unfolding payload_ops
    payloads h ps xs w =
        if length ps == length xs then run (payload_ops h (zip ps xs)) w else (err size_mismatch, w)

    unfoldable pub collections : ℕ → List Collection → Op (Writer B.Txn)
    unfolding collection_ops
    collections h cs =
        run
          (collection_ops h cs ++ index_collections_for_height B V h (map V.collection_id cs) ∷ [])

    unfoldable pub guarantees : ℕ → List Guarantee → Op (Writer B.Txn)
    guarantees h gs = run (map (save_guarantee B V) gs)

    unfoldable pub transactions : ℕ → List Transaction → Op (Writer B.Txn)
    unfolding transaction_ops
    transactions h ts =
        run (
          transaction_ops h ts
          ++ index_transactions_for_height B V h (map V.transaction_id ts) ∷ [])

    unfoldable pub results : List TxResult → Op (Writer B.Txn)
    results rs = run (map (save_result B V) rs)

    -- `range` is the order in which Go ranges over the map of the buckets.
    unfoldable pub events :
        (Store (List Event) → Store (List Event)) → ℕ → List Event → Op (Writer B.Txn)
    unfolding event_ops buckets
    events range h es = run (event_ops h (range (buckets es [])))

    unfoldable pub seals : ℕ → List Seal → Op (Writer B.Txn)
    seals h ss =
        run (map (save_seal B V) ss ++ index_seals_for_height B V h (map V.seal_id ss) ∷ [])
