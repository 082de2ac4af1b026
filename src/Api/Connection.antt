-- ===== src/Api/Connection.antt =====
-- What the API stands on: codecs that lose nothing, a reader whose arrays have their range, and a
-- connection that brings the answers of the server to the client.
use flow_dps.Base.{ℕ, ◌≡◌, List, All}
use flow_dps.Base.Outcome.{ok}
use flow_dps.Storage.Library.{Values, Codec}
use flow_dps.Storage.Entries.{IsArray}
use flow_dps.Index.Interface.{Reader}
use flow_dps.Api.Messages.{
  GetFirstRequest, GetLastRequest, GetHeightForBlockRequest, GetCommitRequest, GetHeaderRequest,
  GetEventsRequest, GetRegisterValuesRequest, GetCollectionRequest, ListCollectionsForHeightRequest,
  GetGuaranteeRequest, GetTransactionRequest, GetHeightForTransactionRequest,
  ListTransactionsForHeightRequest, GetResultRequest, GetSealRequest, ListSealsForHeightRequest,
}
use flow_dps.Api.Validation.{Validator}
use flow_dps.Api.Convert.{Conversions}
use flow_dps.Api.Server
use flow_dps.Api.Client.{ApiClient}
use flow_dps.Api.Queries.{SameAnswer}

-- The codec encodes every value, and decodes it again.
abbrev pub IsTotal : {A : Type 0} → Codec A → Type 0
IsTotal {A} c = (a : A) → (b : List ℕ) × (c.marshal a ≡ ok b) × (c.unmarshal b ≡ ok a)

pub record AreTotal (V : Values) : Type 0 where
  pub header : IsTotal V.header
  pub collection : IsTotal V.collection
  pub guarantee : IsTotal V.guarantee
  pub transaction : IsTotal V.transaction
  pub result : IsTotal V.result
  pub seal : IsTotal V.seal
  pub events : IsTotal V.events

-- The arrays that the reader returns have their range.
pub record GivesArrays {V : Values} (index : Reader V) : Type 0 where
  pub commit : (h c : ℕ) → index.commit h ≡ ok c → IsArray c
  pub collections :
      (h : ℕ) (ids : List ℕ) → index.collections_by_height h ≡ ok ids → All IsArray ids
  pub transactions :
      (h : ℕ) (ids : List ℕ) → index.transactions_by_height h ≡ ok ids → All IsArray ids
  pub seals : (h : ℕ) (ids : List ℕ) → index.seals_by_height h ≡ ok ids → All IsArray ids

-- A call of the client returns what the handler of the server does, or an error where that fails.
pub record IsConnection {V : Values} (C : Conversions V) (validator : Validator) (index : Reader V)
    (client : ApiClient) : Type 0 where
  pub get_first :
      (req : GetFirstRequest)
      → SameAnswer (client.get_first req) (Server.get_first C validator index req)
  pub get_last :
      (req : GetLastRequest)
      → SameAnswer (client.get_last req) (Server.get_last C validator index req)
  pub get_height_for_block :
      (req : GetHeightForBlockRequest)
      → SameAnswer
          (client.get_height_for_block req)
          (Server.get_height_for_block C validator index req)
  pub get_commit :
      (req : GetCommitRequest)
      → SameAnswer (client.get_commit req) (Server.get_commit C validator index req)
  pub get_header :
      (req : GetHeaderRequest)
      → SameAnswer (client.get_header req) (Server.get_header C validator index req)
  pub get_events :
      (req : GetEventsRequest)
      → SameAnswer (client.get_events req) (Server.get_events C validator index req)
  pub get_register_values :
      (req : GetRegisterValuesRequest)
      → SameAnswer
          (client.get_register_values req)
          (Server.get_register_values C validator index req)
  pub get_collection :
      (req : GetCollectionRequest)
      → SameAnswer (client.get_collection req) (Server.get_collection C validator index req)
  pub list_collections_for_height :
      (req : ListCollectionsForHeightRequest)
      → SameAnswer
          (client.list_collections_for_height req)
          (Server.list_collections_for_height C validator index req)
  pub get_guarantee :
      (req : GetGuaranteeRequest)
      → SameAnswer (client.get_guarantee req) (Server.get_guarantee C validator index req)
  pub get_transaction :
      (req : GetTransactionRequest)
      → SameAnswer (client.get_transaction req) (Server.get_transaction C validator index req)
  pub get_height_for_transaction :
      (req : GetHeightForTransactionRequest)
      → SameAnswer
          (client.get_height_for_transaction req)
          (Server.get_height_for_transaction C validator index req)
  pub list_transactions_for_height :
      (req : ListTransactionsForHeightRequest)
      → SameAnswer
          (client.list_transactions_for_height req)
          (Server.list_transactions_for_height C validator index req)
  pub get_result :
      (req : GetResultRequest)
      → SameAnswer (client.get_result req) (Server.get_result C validator index req)
  pub get_seal :
      (req : GetSealRequest)
      → SameAnswer (client.get_seal req) (Server.get_seal C validator index req)
  pub list_seals_for_height :
      (req : ListSealsForHeightRequest)
      → SameAnswer
          (client.list_seals_for_height req)
          (Server.list_seals_for_height C validator index req)
