-- ===== src/Api/Queries.antt =====
-- The queries of dps.Reader as data, to compare two readers.
use flow_dps.Base.{ℕ, ◌≡◌, ◌≢◌, Option, List, [], All}
use flow_dps.Base.Outcome.{Result, ok, err}
use flow_dps.Storage.Library.{Values}
use flow_dps.Storage.Entries.{IsArray}
use flow_dps.Index.Interface.{Reader}

-- A call of a method of the reader.
pub data Query : Type 0 where
  first last : Query
  height_for_block height_for_transaction : ℕ → Query
  commit header : ℕ → Query
  events values : ℕ → List ℕ → Query
  collection guarantee transaction seal result : ℕ → Query
  collections_by_height transactions_by_height seals_by_height : ℕ → Query

module _ (V : Values) where
  abbrev pub Answer : Query → Type 0
  Answer first = ℕ
  Answer last = ℕ
  Answer (height_for_block _) = ℕ
  Answer (height_for_transaction _) = ℕ
  Answer (commit _) = ℕ
  Answer (header _) = V.Header
  Answer (events _ _) = List V.Event
  Answer (values _ _) = List (Option V.Value)
  Answer (collection _) = V.Collection
  Answer (guarantee _) = V.Guarantee
  Answer (transaction _) = V.Transaction
  Answer (seal _) = V.Seal
  Answer (result _) = V.TxResult
  Answer (collections_by_height _) = List ℕ
  Answer (transactions_by_height _) = List ℕ
  Answer (seals_by_height _) = List ℕ

module _ {V : Values} (reader : Reader V) where
  abbrev pub ask : (q : Query) → Result (Answer V q)
  ask first = reader.first
  ask last = reader.last
  ask (height_for_block id) = reader.height_for_block id
  ask (height_for_transaction id) = reader.height_for_transaction id
  ask (commit h) = reader.commit h
  ask (header h) = reader.header h
  ask (events h types) = reader.events h types
  ask (values h paths) = reader.values h paths
  ask (collection id) = reader.collection id
  ask (guarantee id) = reader.guarantee id
  ask (transaction id) = reader.transaction id
  ask (seal id) = reader.seal id
  ask (result id) = reader.result id
  ask (collections_by_height h) = reader.collections_by_height h
  ask (transactions_by_height h) = reader.transactions_by_height h
  ask (seals_by_height h) = reader.seals_by_height h

-- What a request can carry: an array has its range, and where the server validates the height or
-- the paths, the height is not zero and there is a path.
abbrev pub IsCarried : Query → Type 0
IsCarried first = Unit
IsCarried last = Unit
IsCarried (height_for_block id) = IsArray id
IsCarried (height_for_transaction id) = IsArray id
IsCarried (commit h) = h ≢ 0
IsCarried (header h) = h ≢ 0
IsCarried (events h types) = Unit
IsCarried (values h paths) = (h ≢ 0) × (paths ≢ []) × All IsArray paths
IsCarried (collection id) = IsArray id
IsCarried (guarantee id) = IsArray id
IsCarried (transaction id) = IsArray id
IsCarried (seal id) = IsArray id
IsCarried (result id) = IsArray id
IsCarried (collections_by_height h) = h ≢ 0
IsCarried (transactions_by_height h) = h ≢ 0
IsCarried (seals_by_height h) = h ≢ 0

-- Both fail, or both give the same.
abbrev pub SameAnswer : {A : Type 0} → Result A → Result A → Type 0
SameAnswer (ok a) (ok b) = a ≡ b
SameAnswer (err _) (err _) = Unit
SameAnswer _ _ = ⊥
