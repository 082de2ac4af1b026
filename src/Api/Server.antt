-- ===== src/Api/Server.antt =====
-- api/dps/server.go. A server is a reader, the codecs and a validator; a handler is a function from
-- the request to the response or the error.
use flow_dps.Base.{[], ◌∷◌, map}
use flow_dps.Base.Outcome.{Result, ok}
use flow_dps.Base.Outcome.Steps.{◌>>=◌, ◌>>◌}
use flow_dps.Storage.Library.{Values}
use flow_dps.Index.Interface.{Reader}
use flow_dps.Api.Messages.{
  GetFirstRequest, GetLastRequest, GetFirstResponse, GetLastResponse, GetHeightForBlockRequest,
  GetHeightForBlockResponse, GetCommitRequest, GetCommitResponse, GetHeaderRequest,
  GetHeaderResponse, GetEventsRequest, GetEventsResponse, GetRegisterValuesRequest,
  GetRegisterValuesResponse, GetCollectionRequest, GetCollectionResponse,
  ListCollectionsForHeightRequest, ListCollectionsForHeightResponse, GetGuaranteeRequest,
  GetGuaranteeResponse, GetTransactionRequest, GetTransactionResponse,
  GetHeightForTransactionRequest, GetHeightForTransactionResponse, ListTransactionsForHeightRequest,
  ListTransactionsForHeightResponse, GetResultRequest, GetResultResponse, GetSealRequest,
  GetSealResponse, ListSealsForHeightRequest, ListSealsForHeightResponse,
}
use flow_dps.Api.Validation.{Validator, required, required_len, required_dive_len}
use flow_dps.Api.Convert.{
  Conversions, id_to_hash, bytes_to_paths, values_to_bytes, strings_to_types,
}

-- The reader, the codecs (in `V`) and the validator; `C` holds the conversions of flow-go.
module _ {V : Values} (C : Conversions V) (validator : Validator) (index : Reader V) where
  unfoldable pub get_first : GetFirstRequest → Result GetFirstResponse
  get_first _ = do height ← index.first; ok (record { height = height })

  unfoldable pub get_last : GetLastRequest → Result GetLastResponse
  get_last _ = do height ← index.last; ok (record { height = height })

  unfoldable pub get_height_for_block : GetHeightForBlockRequest → Result GetHeightForBlockResponse
  get_height_for_block req = do
    validator.struct (required_len 32 req.block_id ∷ [])
    height ← index.height_for_block (C.hash_to_id req.block_id)
    ok (record { block_id = req.block_id; height = height })

  unfoldable pub get_commit : GetCommitRequest → Result GetCommitResponse
  get_commit req = do
    validator.struct (required req.height ∷ [])
    commit ← index.commit req.height
    ok (record { height = req.height; commit = id_to_hash commit })

  unfoldable pub get_header : GetHeaderRequest → Result GetHeaderResponse
  get_header req = do
    validator.struct (required req.height ∷ [])
    header ← index.header req.height
    encoded ← V.header.marshal header
    ok (record { height = req.height; encoded = encoded })

  unfoldable pub get_events : GetEventsRequest → Result GetEventsResponse
  get_events req = do
    events ← index.events req.height (strings_to_types req.types)
    encoded ← V.events.marshal events
    ok (record { height = req.height; types = req.types; encoded = encoded })

  unfoldable pub get_register_values : GetRegisterValuesRequest → Result GetRegisterValuesResponse
  get_register_values req = do
    validator.struct (required req.height ∷ required_dive_len 32 req.paths ∷ [])
    paths ← bytes_to_paths C req.paths
    values ← index.values req.height paths
    ok (record { height = req.height; paths = req.paths; values = values_to_bytes C values })

  unfoldable pub get_collection : GetCollectionRequest → Result GetCollectionResponse
  get_collection req = do
    validator.struct (required_len 32 req.collection_id ∷ [])
    collection ← index.collection (C.hash_to_id req.collection_id)
    encoded ← V.collection.marshal collection
    ok (record { collection_id = req.collection_id; encoded = encoded })

  unfoldable pub list_collections_for_height :
      ListCollectionsForHeightRequest → Result ListCollectionsForHeightResponse
  list_collections_for_height req = do
    validator.struct (required req.height ∷ [])
    ids ← index.collections_by_height req.height
    ok (record { height = req.height; collection_ids = map id_to_hash ids })

  unfoldable pub get_guarantee : GetGuaranteeRequest → Result GetGuaranteeResponse
  get_guarantee req = do
    validator.struct (required_len 32 req.collection_id ∷ [])
    guarantee ← index.guarantee (C.hash_to_id req.collection_id)
    encoded ← V.guarantee.marshal guarantee
    ok (record { collection_id = req.collection_id; encoded = encoded })

  unfoldable pub get_transaction : GetTransactionRequest → Result GetTransactionResponse
  get_transaction req = do
    validator.struct (required_len 32 req.transaction_id ∷ [])
    transaction ← index.transaction (C.hash_to_id req.transaction_id)
    encoded ← V.transaction.marshal transaction
    ok (record { transaction_id = req.transaction_id; encoded = encoded })

  unfoldable pub get_height_for_transaction :
      GetHeightForTransactionRequest → Result GetHeightForTransactionResponse
  get_height_for_transaction req = do
    validator.struct (required_len 32 req.transaction_id ∷ [])
    height ← index.height_for_transaction (C.hash_to_id req.transaction_id)
    ok (record { transaction_id = req.transaction_id; height = height })

  unfoldable pub list_transactions_for_height :
      ListTransactionsForHeightRequest → Result ListTransactionsForHeightResponse
  list_transactions_for_height req = do
    validator.struct (required req.height ∷ [])
    ids ← index.transactions_by_height req.height
    ok (record { height = req.height; transaction_ids = map id_to_hash ids })

  unfoldable pub get_result : GetResultRequest → Result GetResultResponse
  get_result req = do
    validator.struct (required_len 32 req.transaction_id ∷ [])
    result ← index.result (C.hash_to_id req.transaction_id)
    encoded ← V.result.marshal result
    ok (record { transaction_id = req.transaction_id; encoded = encoded })

  unfoldable pub get_seal : GetSealRequest → Result GetSealResponse
  get_seal req = do
    validator.struct (required_len 32 req.seal_id ∷ [])
    seal ← index.seal (C.hash_to_id req.seal_id)
    encoded ← V.seal.marshal seal
    ok (record { seal_id = req.seal_id; encoded = encoded })

  unfoldable pub list_seals_for_height :
      ListSealsForHeightRequest → Result ListSealsForHeightResponse
  list_seals_for_height req = do
    validator.struct (required req.height ∷ [])
    ids ← index.seals_by_height req.height
    ok (record { height = req.height; seal_ids = map id_to_hash ids })
