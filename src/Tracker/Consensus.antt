-- ===== src/Tracker/Consensus.antt =====
-- service/tracker/consensus.go. The protocol state is the database of flow-go and `hold` the record
-- holder, both as functions; what is retrieved of a header is its height and the rest of it.
use flow_dps.Base.{ℕ, ◌<◌, ◌≤◌, ltb, ◌≡◌, arith, List, [], ◌∷◌, ◌++◌, map, if◌then◌else◌}
use flow_dps.Base.Outcome.{unavailable, Result, ok, err}

-- The types of flow-go, the operations of its protocol database and the record holder.
pub record Sources : Type 1 where
  pub Header : Type 0
  pub Guarantee : Type 0
  pub Seal : Type 0
  pub Complete : Type 0  -- a collection with its transactions
  pub Light : Type 0
  pub Transaction : Type 0
  pub TxResult : Type 0
  pub Event : Type 0
  pub Record : Type 0  -- uploader.BlockData
  pub header_height : Header → ℕ
  pub light : Complete → Light
  pub complete_transactions : Complete → List Transaction
  pub final_commitment : Record → ℕ
  pub record_collections : Record → List Complete
  pub record_results : Record → List TxResult
  pub record_events : Record → List Event
  pub retrieve_root : Result ℕ
  pub lookup_height : ℕ → Result ℕ
  pub retrieve_header : ℕ → Result Header
  pub payload_guarantees : ℕ → Result (List ℕ)
  pub retrieve_guarantee : ℕ → Result Guarantee
  pub payload_seals : ℕ → Result (List ℕ)
  pub retrieve_seal : ℕ → Result Seal
  pub hold : ℕ → Result Record

pub record Consensus : Type 0 where
  pub last : ℕ

abbrev pub with_result : {A B : Type 0} → Result A → (A → Result B) → Result B
with_result (ok a) f = f a
with_result (err e) f = err e

abbrev pub add_result : {A : Type 0} → Result A → Result (List A) → Result (List A)
add_result (ok a) (ok rest) = ok (a ∷ rest)
add_result (ok a) (err e) = err e
add_result (err e) rest = err e

-- The loops over identifiers: the first one that fails ends the loop.
unfoldable pub retrieve_each : {A : Type 0} → (ℕ → Result A) → List ℕ → Result (List A)
retrieve_each retrieve [] = ok []
retrieve_each retrieve (id ∷ ids) = add_result (retrieve id) (retrieve_each retrieve ids)

abbrev pub concat_map : {A B : Type 0} → (A → List B) → List A → List B
concat_map f [] = []
concat_map f (x ∷ xs) = f x ++ concat_map f xs

module _ (P : Sources) where
  set_last : Result P.Header → Consensus → Consensus
  set_last (ok header) c = record { last = P.header_height header }
  set_last (err e) c = c

  -- A block whose header cannot be read is logged and skipped.
  unfoldable pub on_finalized : ℕ → Consensus → Consensus
  unfolding set_last
  on_finalized block_id c = set_last (P.retrieve_header block_id) c

  unfoldable pub root : Result ℕ
  root = P.retrieve_root

  -- The head of each method: the height must be finalized, and is resolved to a block.
  unfoldable pub finalized_block : Consensus → ℕ → Result ℕ
  finalized_block c height = if ltb c.last height then err unavailable else P.lookup_height height

  unfoldable pub header_at : Consensus → ℕ → Result P.Header
  unfolding finalized_block
  header_at c height = with_result (finalized_block c height) P.retrieve_header

  unfoldable pub guarantees_at : Consensus → ℕ → Result (List P.Guarantee)
  unfolding finalized_block retrieve_each
  guarantees_at c height =
      with_result (finalized_block c height)
        λ id. with_result (P.payload_guarantees id) (retrieve_each P.retrieve_guarantee)

  unfoldable pub seals_at : Consensus → ℕ → Result (List P.Seal)
  unfolding finalized_block retrieve_each
  seals_at c height =
      with_result (finalized_block c height)
        λ id. with_result (P.payload_seals id) (retrieve_each P.retrieve_seal)

  unfoldable pub commit_at : Consensus → ℕ → Result ℕ
  unfolding finalized_block
  commit_at c height =
      with_result (finalized_block c height)
        λ id. with_result (P.hold id) (λ r. ok (P.final_commitment r))

  unfoldable pub collections_at : Consensus → ℕ → Result (List P.Light)
  unfolding finalized_block
  collections_at c height =
      with_result (finalized_block c height)
        λ id. with_result (P.hold id) (λ r. ok (map P.light (P.record_collections r)))

  unfoldable pub transactions_at : Consensus → ℕ → Result (List P.Transaction)
  unfolding finalized_block
  transactions_at c height = with_result (finalized_block c height) λ id.
      with_result (P.hold id)
        (λ r. ok (concat_map P.complete_transactions (P.record_collections r)))

  unfoldable pub results_at : Consensus → ℕ → Result (List P.TxResult)
  unfolding finalized_block
  results_at c height =
      with_result (finalized_block c height)
        λ id. with_result (P.hold id) (λ r. ok (P.record_results r))

  unfoldable pub events_at : Consensus → ℕ → Result (List P.Event)
  unfolding finalized_block
  events_at c height =
      with_result (finalized_block c height)
        λ id. with_result (P.hold id) (λ r. ok (P.record_events r))

  -- Above the last finalized height, every answer is that the data is unavailable.
  pub unavailable_above :
      (c : Consensus) (height : ℕ)
      → c.last < height
      → (header_at c height ≡ err unavailable)
        × (guarantees_at c height ≡ err unavailable)
        × (seals_at c height ≡ err unavailable)
        × (commit_at c height ≡ err unavailable)
        × (collections_at c height ≡ err unavailable)
        × (transactions_at c height ≡ err unavailable)
        × (results_at c height ≡ err unavailable)
        × (events_at c height ≡ err unavailable)
  unfolding header_at guarantees_at seals_at commit_at collections_at transactions_at results_at
      events_at
  unavailable_above c height h =
      (rw above, rw above, rw above, rw above, rw above, rw above, rw above, rw above)
    where
      above : finalized_block c height ≡ err unavailable
      above = unfold finalized_block in ground arith

  abbrev pub finalize_all : List ℕ → Consensus → Consensus
  finalize_all [] c = c
  finalize_all (id ∷ ids) c = finalize_all ids (on_finalized id c)

  -- No finalized block is below the one finalized before it.
  abbrev pub IsRising : List ℕ → Consensus → Type 0
  IsRising [] c = Unit
  IsRising (id ∷ ids) c =
      ((head : P.Header) → P.retrieve_header id ≡ ok head → c.last ≤ P.header_height head)
      × IsRising ids (on_finalized id c)
