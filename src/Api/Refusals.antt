-- ===== src/Api/Refusals.antt =====
-- The requests that api/dps/server.go refuses.
use flow_dps.Base.{◌≡◌, List, [], ◌∷◌}
use flow_dps.Base.Outcome.{Result, ok, err, Err}
use flow_dps.Base.Outcome.Steps.{◌>>◌}
use flow_dps.Storage.Library.{Values}
use flow_dps.Index.Interface.{Reader}
use flow_dps.Api.Messages.{
  GetHeightForBlockRequest, GetCommitRequest, GetHeaderRequest, GetRegisterValuesRequest,
  GetCollectionRequest, ListCollectionsForHeightRequest, GetGuaranteeRequest, GetTransactionRequest,
  GetHeightForTransactionRequest, ListTransactionsForHeightRequest, GetResultRequest,
  GetSealRequest, ListSealsForHeightRequest,
}
use flow_dps.Api.Validation.{
  Validator, IsValidator, Field, SomeRefused, required, required_len, required_dive_len,
}
use flow_dps.Api.Convert.{Conversions}
use flow_dps.Api.Server.{
  get_height_for_block, get_commit, get_header, get_register_values, get_collection,
  list_collections_for_height, get_guarantee, get_transaction, get_height_for_transaction,
  list_transactions_for_height, get_result, get_seal, list_seals_for_height,
}

-- A request whose handler validates it.
pub data Request : Type 0 where
  height_for_block : GetHeightForBlockRequest → Request
  commit : GetCommitRequest → Request
  header : GetHeaderRequest → Request
  register_values : GetRegisterValuesRequest → Request
  collection : GetCollectionRequest → Request
  collections_for_height : ListCollectionsForHeightRequest → Request
  guarantee : GetGuaranteeRequest → Request
  transaction : GetTransactionRequest → Request
  height_for_transaction : GetHeightForTransactionRequest → Request
  transactions_for_height : ListTransactionsForHeightRequest → Request
  result : GetResultRequest → Request
  seal : GetSealRequest → Request
  seals_for_height : ListSealsForHeightRequest → Request

-- The fields of a request with their tags.
abbrev pub tags : Request → List Field
tags (height_for_block req) = required_len 32 req.block_id ∷ []
tags (commit req) = required req.height ∷ []
tags (header req) = required req.height ∷ []
tags (register_values req) = required req.height ∷ required_dive_len 32 req.paths ∷ []
tags (collection req) = required_len 32 req.collection_id ∷ []
tags (collections_for_height req) = required req.height ∷ []
tags (guarantee req) = required_len 32 req.collection_id ∷ []
tags (transaction req) = required_len 32 req.transaction_id ∷ []
tags (height_for_transaction req) = required_len 32 req.transaction_id ∷ []
tags (transactions_for_height req) = required req.height ∷ []
tags (result req) = required_len 32 req.transaction_id ∷ []
tags (seal req) = required_len 32 req.seal_id ∷ []
tags (seals_for_height req) = required req.height ∷ []

abbrev discard : {A : Type 0} → Result A → Result (Unit {0})
discard (ok a) = ok tt
discard (err e) = err e

module _ {V : Values} (C : Conversions V) (validator : Validator) (index : Reader V) where
  -- Whether the handler answers.
  abbrev pub handle : Request → Result (Unit {0})
  handle (height_for_block req) = discard (get_height_for_block C validator index req)
  handle (commit req) = discard (get_commit C validator index req)
  handle (header req) = discard (get_header C validator index req)
  handle (register_values req) = discard (get_register_values C validator index req)
  handle (collection req) = discard (get_collection C validator index req)
  handle (collections_for_height req) = discard (list_collections_for_height C validator index req)
  handle (guarantee req) = discard (get_guarantee C validator index req)
  handle (transaction req) = discard (get_transaction C validator index req)
  handle (height_for_transaction req) = discard (get_height_for_transaction C validator index req)
  handle (transactions_for_height req) =
      discard (list_transactions_for_height C validator index req)
  handle (result req) = discard (get_result C validator index req)
  handle (seal req) = discard (get_seal C validator index req)
  handle (seals_for_height req) = discard (list_seals_for_height C validator index req)

  -- What is refused by the validator is refused by the handler.
  after_refusal :
      {A : Type 0} (s : Result (Unit {0})) (e : Err) (r : Result A)
      → s ≡ err e
      → discard (do s; r) ≡ err e
  after_refusal s e r h = rw h

  refused_lem : (req : Request) (e : Err) → validator.struct (tags req) ≡ err e → handle req ≡ err e
  unfolding get_height_for_block get_commit get_header get_register_values get_collection
      list_collections_for_height get_guarantee get_transaction get_height_for_transaction
      list_transactions_for_height get_result get_seal list_seals_for_height
  refused_lem (height_for_block req) e h = after_refusal _ e _ h
  refused_lem (commit req) e h = after_refusal _ e _ h
  refused_lem (header req) e h = after_refusal _ e _ h
  refused_lem (register_values req) e h = after_refusal _ e _ h
  refused_lem (collection req) e h = after_refusal _ e _ h
  refused_lem (collections_for_height req) e h = after_refusal _ e _ h
  refused_lem (guarantee req) e h = after_refusal _ e _ h
  refused_lem (transaction req) e h = after_refusal _ e _ h
  refused_lem (height_for_transaction req) e h = after_refusal _ e _ h
  refused_lem (transactions_for_height req) e h = after_refusal _ e _ h
  refused_lem (result req) e h = after_refusal _ e _ h
  refused_lem (seal req) e h = after_refusal _ e _ h
  refused_lem (seals_for_height req) e h = after_refusal _ e _ h

  -- A request with a height of zero, an identifier or a path that is not 32 bytes long is refused by
  -- its handler, with the error of the validator, whatever the reader is.
  pub handle-refuses :
      IsValidator validator
      → (req : Request) → SomeRefused (tags req)
      → (e : Err) × (validator.struct (tags req) ≡ err e) × (handle req ≡ err e)
  handle-refuses law req bad =
      let (e, h) = law.refuses (tags req) bad in (e, h, refused_lem req e h)
