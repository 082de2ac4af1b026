-- ===== src/Api/Client.antt =====
-- api/dps/index.go: the reader that sends requests to a server.
use flow_dps.Base.{ℕ, Option, List, map}
use flow_dps.Base.Outcome.{Result, ok}
use flow_dps.Base.Outcome.Steps.{◌>>=◌}
use flow_dps.Storage.Library.{Values}
use flow_dps.Index.Interface.{Reader}
use flow_dps.Api.Messages.{
  get_first_request, get_last_request, GetFirstRequest, GetFirstResponse, GetLastRequest,
  GetLastResponse, GetHeightForBlockRequest, GetHeightForBlockResponse, GetCommitRequest,
  GetCommitResponse, GetHeaderRequest, GetHeaderResponse, GetEventsRequest, GetEventsResponse,
  GetRegisterValuesRequest, GetRegisterValuesResponse, GetCollectionRequest, GetCollectionResponse,
  ListCollectionsForHeightRequest, ListCollectionsForHeightResponse, GetGuaranteeRequest,
  GetGuaranteeResponse, GetTransactionRequest, GetTransactionResponse,
  GetHeightForTransactionRequest, GetHeightForTransactionResponse, ListTransactionsForHeightRequest,
  ListTransactionsForHeightResponse, GetResultRequest, GetResultResponse, GetSealRequest,
  GetSealResponse, ListSealsForHeightRequest, ListSealsForHeightResponse,
}
use flow_dps.Api.Convert.{
  Conversions, id_to_hash, paths_to_bytes, bytes_to_values, types_to_strings,
}

-- The interface that api/dps/api_grpc.pb.go generates: a call of a method, from the request to the
-- response that came back or the error.
pub record ApiClient : Type 0 where
  pub get_first : GetFirstRequest → Result GetFirstResponse
  pub get_last : GetLastRequest → Result GetLastResponse
  pub get_height_for_block : GetHeightForBlockRequest → Result GetHeightForBlockResponse
  pub get_commit : GetCommitRequest → Result GetCommitResponse
  pub get_header : GetHeaderRequest → Result GetHeaderResponse
  pub get_events : GetEventsRequest → Result GetEventsResponse
  pub get_register_values : GetRegisterValuesRequest → Result GetRegisterValuesResponse
  pub get_collection : GetCollectionRequest → Result GetCollectionResponse
  pub list_collections_for_height :
      ListCollectionsForHeightRequest → Result ListCollectionsForHeightResponse
  pub get_guarantee : GetGuaranteeRequest → Result GetGuaranteeResponse
  pub get_transaction : GetTransactionRequest → Result GetTransactionResponse
  pub get_height_for_transaction :
      GetHeightForTransactionRequest → Result GetHeightForTransactionResponse
  pub list_transactions_for_height :
      ListTransactionsForHeightRequest → Result ListTransactionsForHeightResponse
  pub get_result : GetResultRequest → Result GetResultResponse
  pub get_seal : GetSealRequest → Result GetSealResponse
  pub list_seals_for_height : ListSealsForHeightRequest → Result ListSealsForHeightResponse

module _ {V : Values} (C : Conversions V) (client : ApiClient) where
  open V use {Header, Collection, Transaction, Guarantee, Seal, TxResult, Event, Value}

  unfoldable pub first : Result ℕ
  first = do res ← client.get_first get_first_request; ok res.height

  unfoldable pub last : Result ℕ
  last = do res ← client.get_last get_last_request; ok res.height

  unfoldable pub height_for_block : ℕ → Result ℕ
  height_for_block block_id = do
    res ← client.get_height_for_block (record { block_id = id_to_hash block_id })
    ok res.height

  unfoldable pub commit : ℕ → Result ℕ
  commit height = do
    res ← client.get_commit (record { height = height })
    C.to_state_commitment res.commit

  unfoldable pub header : ℕ → Result Header
  header height = do
    res ← client.get_header (record { height = height })
    V.header.unmarshal res.encoded

  unfoldable pub events : ℕ → List ℕ → Result (List Event)
  events height types = do
    res ← client.get_events (record { height = height; types = types_to_strings types })
    V.events.unmarshal res.encoded

  unfoldable pub values : ℕ → List ℕ → Result (List (Option Value))
  values height paths = do
    res ← client.get_register_values (record { height = height; paths = paths_to_bytes paths })
    ok (bytes_to_values C res.values)

  unfoldable pub collection : ℕ → Result Collection
  collection collection_id = do
    res ← client.get_collection (record { collection_id = id_to_hash collection_id })
    V.collection.unmarshal res.encoded

  unfoldable pub collections_by_height : ℕ → Result (List ℕ)
  collections_by_height height = do
    res ← client.list_collections_for_height (record { height = height })
    ok (map C.hash_to_id res.collection_ids)

  unfoldable pub guarantee : ℕ → Result Guarantee
  guarantee collection_id = do
    res ← client.get_guarantee (record { collection_id = id_to_hash collection_id })
    V.guarantee.unmarshal res.encoded

  unfoldable pub transaction : ℕ → Result Transaction
  transaction transaction_id = do
    res ← client.get_transaction (record { transaction_id = id_to_hash transaction_id })
    V.transaction.unmarshal res.encoded

  unfoldable pub height_for_transaction : ℕ → Result ℕ
  height_for_transaction transaction_id = do
    res ← client.get_height_for_transaction (record { transaction_id = id_to_hash transaction_id })
    ok res.height

  unfoldable pub transactions_by_height : ℕ → Result (List ℕ)
  transactions_by_height height = do
    res ← client.list_transactions_for_height (record { height = height })
    ok (map C.hash_to_id res.transaction_ids)

  unfoldable pub result : ℕ → Result TxResult
  result transaction_id = do
    res ← client.get_result (record { transaction_id = id_to_hash transaction_id })
    V.result.unmarshal res.encoded

  unfoldable pub seal : ℕ → Result Seal
  seal seal_id = do
    res ← client.get_seal (record { seal_id = id_to_hash seal_id })
    V.seal.unmarshal res.encoded

  unfoldable pub seals_by_height : ℕ → Result (List ℕ)
  seals_by_height height = do
    res ← client.list_seals_for_height (record { height = height })
    ok (map C.hash_to_id res.seal_ids)

  -- The methods as one reader.
  unfoldable pub index_from_api : Reader V
  unfolding first last height_for_block height_for_transaction commit header events values
      collection guarantee transaction seal result collections_by_height transactions_by_height
      seals_by_height
  index_from_api = record {
    first = first;
    last = last;
    height_for_block = height_for_block;
    height_for_transaction = height_for_transaction;
    commit = commit;
    header = header;
    events = events;
    values = values;
    collection = collection;
    guarantee = guarantee;
    transaction = transaction;
    seal = seal;
    result = result;
    collections_by_height = collections_by_height;
    transactions_by_height = transactions_by_height;
    seals_by_height = seals_by_height;
  }
