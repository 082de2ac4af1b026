-- ===== src/Storage/Library.antt =====
-- service/storage/library.go and auxiliary.go, and what operations.go stands on. Badger, the codec
-- and the types of flow-go are parameters; a Badger operation is a function of the transaction.
pub mod RoundTrip
use flow_dps.Base.{ℕ, Option, List, [], ◌∷◌, ◌++◌}
use flow_dps.Base.Outcome.{Err, Result, ok, err, Exec, ◌>>◌}

abbrev pub Key : Type 0
Key = List ℕ

-- dps.Codec at one type.
pub record Codec (A : Type 0) : Type 0 where
  pub marshal : A → Result (List ℕ)
  pub unmarshal : List ℕ → Result A

-- The transactions of Badger. `seek_reverse` is where an iterator in reverse stands after a Seek;
-- `scan` lists what an iterator passes from Seek(prefix) on while ValidForPrefix holds.
pub record Badger : Type 1 where
  pub Txn : Type 0
  pub get : Key → Txn → Result (List ℕ)
  pub set : Key → List ℕ → Exec Txn Unit
  pub seek_reverse : Key → Txn → Option (Key × List ℕ)
  pub scan : Key → Txn → List (Key × List ℕ)

-- The types of flow-go that are indexed, what the code reads of them, and the codec at each.
pub record Values : Type 1 where
  pub Header : Type 0
  pub Payload : Type 0
  pub Collection : Type 0
  pub Transaction : Type 0
  pub Guarantee : Type 0
  pub Seal : Type 0
  pub TxResult : Type 0
  pub Event : Type 0
  pub Value : Type 0
  pub payload_value : Payload → Value
  pub collection_id : Collection → ℕ
  pub collection_transactions : Collection → List ℕ
  pub transaction_id : Transaction → ℕ
  pub guarantee_collection : Guarantee → ℕ
  pub seal_id : Seal → ℕ
  pub result_transaction : TxResult → ℕ
  pub event_type : Event → ℕ
  pub type_hash : ℕ → ℕ  -- xxhash.ChecksumString64 of an event type
  pub number : Codec ℕ
  pub ids : Codec (List ℕ)
  pub header : Codec Header
  pub payload : Codec Payload
  pub collection : Codec Collection
  pub transaction : Codec Transaction
  pub guarantee : Codec Guarantee
  pub seal : Codec Seal
  pub result : Codec TxResult
  pub events : Codec (List Event)

abbrev pub then_unmarshal : {A : Type 0} → Codec A → Result (List ℕ) → Result A
then_unmarshal c (ok val) = c.unmarshal val
then_unmarshal c (err e) = err e

module _ (B : Badger) where
  unfoldable pub retrieve : {A : Type 0} → Codec A → Key → B.Txn → Result A
  retrieve c key tx = then_unmarshal c (B.get key tx)

  set_marshalled : Key → Result (List ℕ) → Exec B.Txn (Unit {0})
  set_marshalled key (ok val) tx = B.set key val tx
  set_marshalled key (err e) tx = (err e, tx)

  unfoldable pub save : {A : Type 0} → Codec A → Key → A → Exec B.Txn (Unit {0})
  unfolding set_marshalled
  save c key value tx = set_marshalled key (c.marshal value) tx

-- Combine: the operations one after another until one fails.
unfoldable pub combine : {T : Type 0} → List (Exec T (Unit {0})) → Exec T (Unit {0})
combine [] tx = (ok tt, tx)
combine (op ∷ ops) tx = (op >> combine ops) tx

-- Fallback: the operations one after another until one succeeds, with the errors met so far. The
-- multi-error at the end is the list of the errors, and no error if there was none.
abbrev fallback_step :
    {T : Type 0} → List Err → Result (Unit {0}) → (List Err → T → List Err × T) → T → List Err × T
fallback_step errs (ok u) rest tx = ([], tx)
fallback_step errs (err e) rest tx = rest (errs ++ e ∷ []) tx

fallback_from : {T : Type 0} → List (Exec T (Unit {0})) → List Err → T → List Err × T
fallback_from [] errs tx = (errs, tx)
fallback_from (op ∷ ops) errs tx =
    let (r, tx') = op tx in fallback_step errs r (fallback_from ops) tx'

unfoldable pub fallback : {T : Type 0} → List (Exec T (Unit {0})) → T → List Err × T
unfolding fallback_from
fallback ops tx = fallback_from ops [] tx
