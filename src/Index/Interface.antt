-- ===== src/Index/Interface.antt =====
-- The interface dps.Reader of models/dps/reader.go, and the database's reader as one.
use flow_dps.Base.{ℕ, Option, List}
use flow_dps.Base.Outcome.{Result}
use flow_dps.Storage.Library.{Badger, Values}
use flow_dps.Index.Reader as OnDisk

pub record Reader (V : Values) : Type 0 where
  pub first : Result ℕ
  pub last : Result ℕ
  pub height_for_block : ℕ → Result ℕ
  pub height_for_transaction : ℕ → Result ℕ
  pub commit : ℕ → Result ℕ
  pub header : ℕ → Result V.Header
  pub events : ℕ → List ℕ → Result (List V.Event)
  pub values : ℕ → List ℕ → Result (List (Option V.Value))
  pub collection : ℕ → Result V.Collection
  pub guarantee : ℕ → Result V.Guarantee
  pub transaction : ℕ → Result V.Transaction
  pub seal : ℕ → Result V.Seal
  pub result : ℕ → Result V.TxResult
  pub collections_by_height : ℕ → Result (List ℕ)
  pub transactions_by_height : ℕ → Result (List ℕ)
  pub seals_by_height : ℕ → Result (List ℕ)

-- The reader of service/index on one state of the database.
unfoldable pub index_reader : (B : Badger) (V : Values) → B.Txn → Reader V
index_reader B V tx = record {
  first = OnDisk.first B V tx;
  last = OnDisk.last B V tx;
  height_for_block = λ id. OnDisk.height_for_block B V id tx;
  height_for_transaction = λ id. OnDisk.height_for_transaction B V id tx;
  commit = λ h. OnDisk.commit B V h tx;
  header = λ h. OnDisk.header B V h tx;
  events = λ h types. OnDisk.events B V h types tx;
  values = λ h paths. OnDisk.values B V h paths tx;
  collection = λ id. OnDisk.collection B V id tx;
  guarantee = λ id. OnDisk.guarantee B V id tx;
  transaction = λ id. OnDisk.transaction B V id tx;
  seal = λ id. OnDisk.seal B V id tx;
  result = λ id. OnDisk.result B V id tx;
  collections_by_height = λ h. OnDisk.collections_by_height B V h tx;
  transactions_by_height = λ h. OnDisk.transactions_by_height B V h tx;
  seals_by_height = λ h. OnDisk.seals_by_height B V h tx;
}
