-- ===== src/Api/Remote.antt =====
-- A reader over the API answers as the reader behind the server does.
use flow_dps.Base.{ℕ, ◌≡◌, ◌≢◌, refl, ap, ◌∙◌, List, [], ◌∷◌}
use flow_dps.Base.Outcome.{ok}
use flow_dps.Base.Outcome.Steps.{◌>>=◌}
use flow_dps.Storage.Library.{Values}
use flow_dps.Storage.Entries.{IsArray}
use flow_dps.Storage.Encoding.Order.{length-big_endian}
use flow_dps.Index.Interface.{Reader}
use flow_dps.Api.Validation.{Validator, IsValidator, required, required_len, required_dive_len}
use flow_dps.Api.Convert.{
  Conversions, AreConversions, id_to_hash, paths_to_bytes, bytes_to_values, types_to_strings,
}
use flow_dps.Api.Server.{
  get_first, get_last, get_height_for_block, get_commit, get_header, get_events,
  get_register_values, get_collection, list_collections_for_height, get_guarantee, get_transaction,
  get_height_for_transaction, list_transactions_for_height, get_result, get_seal,
  list_seals_for_height,
}
use flow_dps.Api.Client.{ApiClient, index_from_api}
use flow_dps.Api.Client as OverApi
use flow_dps.Api.Messages.{get_first_request, get_last_request}
use flow_dps.Api.Connection.{AreTotal, GivesArrays, IsConnection}
use flow_dps.Api.Queries.{
  Query, ask, IsCarried, SameAnswer, first, last, height_for_block, height_for_transaction, commit,
  header, events, values, collection, guarantee, transaction, seal, result, collections_by_height,
  transactions_by_height, seals_by_height,
}
use flow_dps.Api.Carrying.{
  sent, lengths-paths_to_bytes, paths_to_bytes-nonempty, strings_to_types-types_to_strings,
  hash_to_id-map, bytes_to_paths-paths_to_bytes, answered, answered-marshal, plain, plain-marshal,
  plain-values, received,
}

-- How a reader over the API answers `q`: as the reader behind the server, with the values as they
-- arrive.
abbrev pub AnswersAs : {V : Values} → Conversions V → Reader V → ApiClient → Query → Type 0
AnswersAs C index client q =
    SameAnswer (ask (index_from_api C client) q) (received C q (ask index q))

module _ {V : Values} (C : Conversions V) (conv : AreConversions C) (validator : Validator)
    (law : IsValidator validator) (index : Reader V) (client : ApiClient)
    (conn : IsConnection C validator index client) where
  served_values :
      (h : ℕ) (ps : List ℕ)
      → IsCarried (values h ps)
      → (get_register_values C validator index (record { height = h; paths = paths_to_bytes ps })
          >>= (λ res. ok (bytes_to_values C res.values)))
        ≡ received C (values h ps) (index.values h ps)
  unfolding get_register_values
  served_values h ps c =
      rw
        (
          law.accepts (required h ∷ required_dive_len 32 (paths_to_bytes ps) ∷ [])
              (c.0, ((paths_to_bytes-nonempty ps c.1, lengths-paths_to_bytes ps), tt)),
          bytes_to_paths-paths_to_bytes C conv ps c.2,
        )
        (plain-values C conv (index.values h ps)
          (λ bb. record { height = h; paths = paths_to_bytes ps; values = bb }) (λ res. res.values)
          h ps (λ bb. refl))

  pub values_lem :
      (h : ℕ) (ps : List ℕ) → IsCarried (values h ps) → AnswersAs C index client (values h ps)
  unfolding index_from_api OverApi.values
  values_lem h ps c =
      sent _ _ _ _ (conn.get_register_values (record { height = h; paths = paths_to_bytes ps }))
        (served_values h ps c)

module _ {V : Values} (C : Conversions V) (conv : AreConversions C) (total : AreTotal V)
    (validator : Validator) (law : IsValidator validator) (index : Reader V)
    (arrays : GivesArrays index) (client : ApiClient)
    (conn : IsConnection C validator index client) where
  first_lem : AnswersAs C index client first
  unfolding index_from_api OverApi.first get_first
  first_lem = sent _ _ _ _ (conn.get_first get_first_request) (plain index.first _ _ (λ a. refl))

  last_lem : AnswersAs C index client last
  unfolding index_from_api OverApi.last get_last
  last_lem = sent _ _ _ _ (conn.get_last get_last_request) (plain index.last _ _ (λ a. refl))

  height_for_block_lem : (id : ℕ) → IsArray id → AnswersAs C index client (height_for_block id)
  unfolding index_from_api OverApi.height_for_block get_height_for_block
  height_for_block_lem id a =
      sent _ _ _ _ (conn.get_height_for_block (record { block_id = id_to_hash id })) (
        answered validator law (required_len 32 (id_to_hash id) ∷ []) (length-big_endian 32 id, tt)
          (index.height_for_block _) _ _ (λ a e. refl)
        ∙ ap index.height_for_block (conv.id_of_bytes id a))

  commit_lem : (h : ℕ) → h ≢ 0 → AnswersAs C index client (commit h)
  unfolding index_from_api OverApi.commit get_commit
  commit_lem h n = sent _ _ _ _ (conn.get_commit (record { height = h })) (
      answered validator law (required h ∷ []) (n, tt) (index.commit h) _ _
        (λ a e. conv.commit_of_bytes a (arrays.commit h a e)))

  header_lem : (h : ℕ) → h ≢ 0 → AnswersAs C index client (header h)
  unfolding index_from_api OverApi.header get_header
  header_lem h n = sent _ _ _ _ (conn.get_header (record { height = h })) (
      answered-marshal validator law (required h ∷ []) (n, tt) V.header total.header
        (index.header h) _ _ (λ a e. refl))

  events_lem : (h : ℕ) (types : List ℕ) → AnswersAs C index client (events h types)
  unfolding index_from_api OverApi.events get_events
  events_lem h types =
      sent _ _ _ _ (conn.get_events (record { height = h; types = types_to_strings types })) (
        plain-marshal V.events total.events _ _ _ (λ a e. refl)
        ∙ ap (index.events h) (strings_to_types-types_to_strings types))

  collection_lem : (id : ℕ) → IsArray id → AnswersAs C index client (collection id)
  unfolding index_from_api OverApi.collection get_collection
  collection_lem id a =
      sent _ _ _ _ (conn.get_collection (record { collection_id = id_to_hash id })) (
        answered-marshal validator law (required_len 32 (id_to_hash id) ∷ [])
          (length-big_endian 32 id, tt) V.collection total.collection (index.collection _) _ _
          (λ a e. refl)
        ∙ ap index.collection (conv.id_of_bytes id a))

  collections_by_height_lem : (h : ℕ) → h ≢ 0 → AnswersAs C index client (collections_by_height h)
  unfolding index_from_api OverApi.collections_by_height list_collections_for_height
  collections_by_height_lem h n =
      sent _ _ _ _ (conn.list_collections_for_height (record { height = h })) (
        answered validator law (required h ∷ []) (n, tt) (index.collections_by_height h) _ _
          (λ a e. ap ok (hash_to_id-map C conv a (arrays.collections h a e))))

  guarantee_lem : (id : ℕ) → IsArray id → AnswersAs C index client (guarantee id)
  unfolding index_from_api OverApi.guarantee get_guarantee
  guarantee_lem id a =
      sent _ _ _ _ (conn.get_guarantee (record { collection_id = id_to_hash id })) (
        answered-marshal validator law (required_len 32 (id_to_hash id) ∷ [])
          (length-big_endian 32 id, tt) V.guarantee total.guarantee (index.guarantee _) _ _
          (λ a e. refl)
        ∙ ap index.guarantee (conv.id_of_bytes id a))

  transaction_lem : (id : ℕ) → IsArray id → AnswersAs C index client (transaction id)
  unfolding index_from_api OverApi.transaction get_transaction
  transaction_lem id a =
      sent _ _ _ _ (conn.get_transaction (record { transaction_id = id_to_hash id })) (
        answered-marshal validator law (required_len 32 (id_to_hash id) ∷ [])
          (length-big_endian 32 id, tt) V.transaction total.transaction (index.transaction _) _ _
          (λ a e. refl)
        ∙ ap index.transaction (conv.id_of_bytes id a))

  height_for_transaction_lem :
      (id : ℕ) → IsArray id → AnswersAs C index client (height_for_transaction id)
  unfolding index_from_api OverApi.height_for_transaction get_height_for_transaction
  height_for_transaction_lem id a =
      sent _ _ _ _ (conn.get_height_for_transaction (record { transaction_id = id_to_hash id })) (
        answered validator law (required_len 32 (id_to_hash id) ∷ []) (length-big_endian 32 id, tt)
          (index.height_for_transaction _) _ _ (λ a e. refl)
        ∙ ap index.height_for_transaction (conv.id_of_bytes id a))

  transactions_by_height_lem : (h : ℕ) → h ≢ 0 → AnswersAs C index client (transactions_by_height h)
  unfolding index_from_api OverApi.transactions_by_height list_transactions_for_height
  transactions_by_height_lem h n =
      sent _ _ _ _ (conn.list_transactions_for_height (record { height = h })) (
        answered validator law (required h ∷ []) (n, tt) (index.transactions_by_height h) _ _
          (λ a e. ap ok (hash_to_id-map C conv a (arrays.transactions h a e))))

  result_lem : (id : ℕ) → IsArray id → AnswersAs C index client (result id)
  unfolding index_from_api OverApi.result get_result
  result_lem id a = sent _ _ _ _ (conn.get_result (record { transaction_id = id_to_hash id })) (
      answered-marshal validator law (required_len 32 (id_to_hash id) ∷ [])
        (length-big_endian 32 id, tt) V.result total.result (index.result _) _ _ (λ a e. refl)
      ∙ ap index.result (conv.id_of_bytes id a))

  seal_lem : (id : ℕ) → IsArray id → AnswersAs C index client (seal id)
  unfolding index_from_api OverApi.seal get_seal
  seal_lem id a = sent _ _ _ _ (conn.get_seal (record { seal_id = id_to_hash id })) (
      answered-marshal validator law (required_len 32 (id_to_hash id) ∷ [])
        (length-big_endian 32 id, tt) V.seal total.seal (index.seal _) _ _ (λ a e. refl)
      ∙ ap index.seal (conv.id_of_bytes id a))

  seals_by_height_lem : (h : ℕ) → h ≢ 0 → AnswersAs C index client (seals_by_height h)
  unfolding index_from_api OverApi.seals_by_height list_seals_for_height
  seals_by_height_lem h n = sent _ _ _ _ (conn.list_seals_for_height (record { height = h })) (
      answered validator law (required h ∷ []) (n, tt) (index.seals_by_height h) _ _
        (λ a e. ap ok (hash_to_id-map C conv a (arrays.seals h a e))))

  -- A reader over the API gives, for every query that a request can carry, the answer of the reader
  -- behind the server, or an error where that fails; only a nil value arrives as an empty one.
  pub remote-answers :
      (q : Query)
      → IsCarried q
      → SameAnswer (ask (index_from_api C client) q) (received C q (ask index q))
  remote-answers first c = first_lem
  remote-answers last c = last_lem
  remote-answers (height_for_block x) c = height_for_block_lem x c
  remote-answers (commit x) c = commit_lem x c
  remote-answers (header x) c = header_lem x c
  remote-answers (events h types) c = events_lem h types
  remote-answers (values h ps) c = values_lem C conv validator law index client conn h ps c
  remote-answers (collection x) c = collection_lem x c
  remote-answers (collections_by_height x) c = collections_by_height_lem x c
  remote-answers (guarantee x) c = guarantee_lem x c
  remote-answers (transaction x) c = transaction_lem x c
  remote-answers (height_for_transaction x) c = height_for_transaction_lem x c
  remote-answers (transactions_by_height x) c = transactions_by_height_lem x c
  remote-answers (result x) c = result_lem x c
  remote-answers (seal x) c = seal_lem x c
  remote-answers (seals_by_height x) c = seals_by_height_lem x c
