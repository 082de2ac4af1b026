-- ===== src/Chain.antt =====
-- service/chain/disk.go: a chain on the protocol database, with the block of the last height kept.
use flow_dps.Base.{ℕ, ◌-◌, ◌^◌, ◌==◌, ◌≡◌, ◌⊎◌, List, [], ◌∷◌, ◌++◌, if◌then◌else◌}
use flow_dps.Base.Outcome.{finished, not_found, Result, ok, err, Exec}
use flow_dps.Tracker.Consensus.{with_result, retrieve_each}

-- The types of flow-go and the operations of its protocol database.
pub record Protocol : Type 1 where
  pub Header : Type 0
  pub Collection : Type 0
  pub Guarantee : Type 0
  pub Transaction : Type 0
  pub TxResult : Type 0
  pub Seal : Type 0
  pub Event : Type 0
  pub collection_transactions : Collection → List ℕ
  pub retrieve_root : Result ℕ
  pub lookup_height : ℕ → Result ℕ
  pub lookup_commit : ℕ → Result ℕ
  pub retrieve_header : ℕ → Result Header
  pub payload_guarantees : ℕ → Result (List ℕ)
  pub retrieve_collection : ℕ → Result Collection
  pub retrieve_guarantee : ℕ → Result Guarantee
  pub retrieve_transaction : ℕ → Result Transaction
  pub block_results : ℕ → Result (List TxResult)
  pub payload_seals : ℕ → Result (List ℕ)
  pub retrieve_seal : ℕ → Result Seal
  pub block_events : ℕ → Result (List Event)

pub record Disk : Type 0 where
  pub height : ℕ
  pub block_id : ℕ

-- FromDisk; flow.ZeroID is the array of zeros.
abbrev pub from_disk : Disk
from_disk = record { height = 2 ^ 64 - 1; block_id = 0 }

module _ (P : Protocol) where
  keep_block : ℕ → Result ℕ → Exec Disk ℕ
  keep_block h (ok id) d = (ok id, record { height = h; block_id = id })
  keep_block h (err e) d = (err e, d)

  unfoldable pub block : ℕ → Exec Disk ℕ
  unfolding keep_block
  block h d = if d.height == h then (ok d.block_id, d) else keep_block h (P.lookup_height h) d

  -- The shape of the queries: the block of the height first, then what `find` gets for it.
  unfoldable pub at_block : {A : Type 0} → (ℕ → Result A) → ℕ → Exec Disk A
  unfolding block
  at_block find h d = let (r, d') = block h d in (with_result r find, d')

  unfoldable pub root : Result ℕ
  root = P.retrieve_root

  unfoldable pub commit : ℕ → Exec Disk ℕ
  unfolding at_block
  commit = at_block P.lookup_commit

  abbrev finished_if_missing : {A : Type 0} → Result ℕ → Result A → Result A
  finished_if_missing (err not_found) r = err finished
  finished_if_missing _ r = r

  unfoldable pub header : ℕ → Exec Disk P.Header
  unfolding block
  header h d =
      let (r, d') = block h d in (finished_if_missing r (with_result r P.retrieve_header), d')

  abbrev find_collections : ℕ → Result (List P.Collection)
  find_collections id = with_result (P.payload_guarantees id) (retrieve_each P.retrieve_collection)

  unfoldable pub collections : ℕ → Exec Disk (List P.Collection)
  unfolding at_block
  collections = at_block find_collections

  unfoldable pub guarantees : ℕ → Exec Disk (List P.Guarantee)
  unfolding at_block
  guarantees =
      at_block (λ id. with_result (P.payload_guarantees id) (retrieve_each P.retrieve_guarantee))

  -- The two nested loops of Transactions.
  unfoldable pub gather_transactions : List ℕ → Result (List P.Transaction)
  gather_transactions [] = ok []
  gather_transactions (id ∷ ids) = with_result (P.retrieve_collection id) λ c.
      with_result (retrieve_each P.retrieve_transaction (P.collection_transactions c))
        λ ts. with_result (gather_transactions ids) (λ rest. ok (ts ++ rest))

  unfoldable pub transactions : ℕ → Exec Disk (List P.Transaction)
  unfolding at_block gather_transactions
  transactions = at_block (λ id. with_result (P.payload_guarantees id) gather_transactions)

  unfoldable pub results : ℕ → Exec Disk (List P.TxResult)
  unfolding at_block
  results = at_block P.block_results

  unfoldable pub seals : ℕ → Exec Disk (List P.Seal)
  unfolding at_block
  seals = at_block (λ id. with_result (P.payload_seals id) (retrieve_each P.retrieve_seal))

  unfoldable pub events : ℕ → Exec Disk (List P.Event)
  unfolding at_block
  events = at_block P.block_events

  -- The block kept is the one of its height, unless none was looked up yet.
  abbrev pub IsCoherent : Disk → Type 0
  IsCoherent d = (d.height ≡ 2 ^ 64 - 1) ⊎ (P.lookup_height d.height ≡ ok d.block_id)
