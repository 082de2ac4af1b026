-- ===== src/Feeder/Wal.antt =====
-- ledger/wal/encoding.go: a record of the write-ahead log.
use flow_dps.Base.{ℕ, ◌==◌, ltb, List, [], ◌∷◌, length, if◌then◌else◌}
use flow_dps.Base.Outcome.{Result, ok, err, bad_length, other}
use flow_dps.Base.Outcome.Steps.{◌>>=◌}

-- ledger.TrieUpdate of flow-go, with `P` for its payloads.
pub record TrieUpdate (P : Type 0) : Type 0 where
  pub root_hash : List ℕ
  pub paths : List (List ℕ)
  pub payloads : List P

-- encoding.DecodeTrieUpdate, utils.ReadShortData and ledger.ToRootHash of flow-go.
pub record Decoder (P : Type 0) : Type 0 where
  pub decode_trie_update : List ℕ → Result (TrieUpdate P)
  pub read_short_data : List ℕ → Result (List ℕ)
  pub to_root_hash : List ℕ → Result (List ℕ)

abbrev pub operation_update : ℕ
operation_update = 1

abbrev pub operation_delete : ℕ
operation_delete = 2

-- The operation with what it comes with.
pub data Decoded (P : Type 0) : Type 0 where
  updated : TrieUpdate P → Decoded P
  deleted : List ℕ → Decoded P

module _ {P : Type 0} (D : Decoder P) where
  abbrev decode_update : List ℕ → Result (Decoded P)
  decode_update bytes = do update ← D.decode_trie_update bytes; ok (updated update)

  abbrev decode_delete : List ℕ → Result (Decoded P)
  decode_delete bytes = do
    root_hash_bytes ← D.read_short_data bytes
    root_hash ← D.to_root_hash root_hash_bytes
    ok (deleted root_hash)

  abbrev decode_operation : List ℕ → Result (Decoded P)
  decode_operation [] = err bad_length
  decode_operation (op ∷ bytes) =
      if op == operation_update
      then decode_update bytes
      else (if op == operation_delete then decode_delete bytes else err (other op))

  -- At least the byte of the operation, two of a length and one of the data.
  unfoldable pub decode : List ℕ → Result (Decoded P)
  decode bytes = if ltb (length bytes) 4 then err bad_length else decode_operation bytes
