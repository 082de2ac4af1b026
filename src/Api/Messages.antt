-- ===== src/Api/Messages.antt =====
-- The messages of api/dps/api.proto, as api/dps/api.pb.go declares them. Bytes are lists of numbers,
-- a string is a number; nothing tells an absent list from an empty one.
use flow_dps.Base.{ℕ, List}

-- The message has no field.
pub data GetFirstRequest : Type 0 where
  get_first_request : GetFirstRequest

pub record GetFirstResponse : Type 0 where
  pub height : ℕ

-- The message has no field.
pub data GetLastRequest : Type 0 where
  get_last_request : GetLastRequest

pub record GetLastResponse : Type 0 where
  pub height : ℕ

pub record GetHeightForBlockRequest : Type 0 where
  pub block_id : List ℕ

pub record GetHeightForBlockResponse : Type 0 where
  pub block_id : List ℕ
  pub height : ℕ

pub record GetCommitRequest : Type 0 where
  pub height : ℕ

pub record GetCommitResponse : Type 0 where
  pub height : ℕ
  pub commit : List ℕ

pub record GetHeaderRequest : Type 0 where
  pub height : ℕ

pub record GetHeaderResponse : Type 0 where
  pub height : ℕ
  pub encoded : List ℕ

pub record GetEventsRequest : Type 0 where
  pub height : ℕ
  pub types : List ℕ

pub record GetEventsResponse : Type 0 where
  pub height : ℕ
  pub types : List ℕ
  pub encoded : List ℕ

pub record GetRegisterValuesRequest : Type 0 where
  pub height : ℕ
  pub paths : List (List ℕ)

pub record GetRegisterValuesResponse : Type 0 where
  pub height : ℕ
  pub paths : List (List ℕ)
  pub values : List (List ℕ)

pub record GetCollectionRequest : Type 0 where
  pub collection_id : List ℕ

pub record GetCollectionResponse : Type 0 where
  pub collection_id : List ℕ
  pub encoded : List ℕ

pub record ListCollectionsForHeightRequest : Type 0 where
  pub height : ℕ

pub record ListCollectionsForHeightResponse : Type 0 where
  pub height : ℕ
  pub collection_ids : List (List ℕ)

pub record GetGuaranteeRequest : Type 0 where
  pub collection_id : List ℕ

pub record GetGuaranteeResponse : Type 0 where
  pub collection_id : List ℕ
  pub encoded : List ℕ

pub record GetTransactionRequest : Type 0 where
  pub transaction_id : List ℕ

pub record GetTransactionResponse : Type 0 where
  pub transaction_id : List ℕ
  pub encoded : List ℕ

pub record GetHeightForTransactionRequest : Type 0 where
  pub transaction_id : List ℕ

pub record GetHeightForTransactionResponse : Type 0 where
  pub transaction_id : List ℕ
  pub height : ℕ

pub record ListTransactionsForHeightRequest : Type 0 where
  pub height : ℕ

pub record ListTransactionsForHeightResponse : Type 0 where
  pub height : ℕ
  pub transaction_ids : List (List ℕ)

pub record GetResultRequest : Type 0 where
  pub transaction_id : List ℕ

pub record GetResultResponse : Type 0 where
  pub transaction_id : List ℕ
  pub encoded : List ℕ

pub record GetSealRequest : Type 0 where
  pub seal_id : List ℕ

pub record GetSealResponse : Type 0 where
  pub seal_id : List ℕ
  pub encoded : List ℕ

pub record ListSealsForHeightRequest : Type 0 where
  pub height : ℕ

pub record ListSealsForHeightResponse : Type 0 where
  pub height : ℕ
  pub seal_ids : List (List ℕ)
