-- ===== src/Checkpoint.antt =====
-- ledger/wal/checkpointer.go and checksum.go: reading a checkpoint. The input is a list of bytes; a
-- reader is what is left of it, with the bytes that went through the checksum so far. The parameters
-- are flow-go's readers of data with its length, its payloads, and the CRC-32 of the standard library.
pub mod Light
pub mod Rebuild
pub mod Flatten
pub mod Written
pub mod Reading
pub mod RoundTrip
pub mod Paths
use flow_dps.Base.{
  ℕ, zero, suc, ◌+◌, ◌-◌, ◌==◌, ltb, leb, Bool, true, false, not, ◌&&◌, Option, none, some, List,
  [], ◌∷◌, ◌++◌, map, take, drop, length, if◌then◌else◌,
}
use flow_dps.Base.Outcome.{
  Err, Result, ok, err, other, bad_length, hash_mismatch, Exec, pure, raise, from, ◌>>=◌, ◌>>◌,
}
use flow_dps.Storage.Encoding.Order.{read_number}
use flow_dps.Checkpoint.Light.{
  Formats, Source, LightNode, LightTrie, read_full, decode_light_node, decode_light_trie,
}

pub record LightForest : Type 0 where
  pub nodes : List (Option LightNode)  -- the first one is nil
  pub tries : List LightTrie

abbrev pub magic_bytes : ℕ
magic_bytes = 8503  -- 0x2137

abbrev pub version_v1 : ℕ
version_v1 = 1

abbrev pub version_v3 : ℕ
version_v3 = 3

-- readUint16, readUint32 and readUint64 at an offset.
abbrev read_uint : ℕ → List ℕ → ℕ → ℕ
read_uint size buffer offset = read_number 0 (take size (drop offset buffer))

module _ {P : Type 0} (F : Formats P) where
  unfoldable pub decode_nodes : Bool → ℕ → Exec Source (List LightNode)
  decode_nodes crc zero = pure []
  decode_nodes crc (suc n) = do
    node ← decode_light_node F crc
    nodes ← decode_nodes crc n
    pure (node ∷ nodes)

  unfoldable pub decode_tries : Bool → ℕ → Exec Source (List LightTrie)
  decode_tries crc zero = pure []
  decode_tries crc (suc n) = do
    trie ← decode_light_trie F crc
    tries ← decode_tries crc n
    pure (trie ∷ tries)

module _ (crc32 : List ℕ → ℕ) (short_read : List ℕ → ℕ) where
  -- One Read of the buffered reader into four bytes that are zero. It gives as many bytes as it has
  -- in its buffer, `short_read`, and fails at the end of the input.
  unfoldable pub read_crc32 : Exec Source ℕ
  read_crc32 s =
      if length s.input == 0
      then (err bad_length, s)
      else (let n = short_read s.input in
          (
            ok (read_number 0 (take 4 (take n s.input ++ 0 ∷ 0 ∷ 0 ∷ 0 ∷ []))),
            record s { input = drop n s.input },
          ))

  -- The checksum of what was read through the reader is taken after the stored one was read past it.
  unfoldable pub check_crc32 : ℕ → Exec Source (Unit {0})
  check_crc32 stored s = (if crc32 s.hashed == stored then ok tt else err hash_mismatch, s)

  unfoldable pub verify : Bool → Exec Source (Unit {0})
  verify false = pure tt
  verify true = do stored ← read_crc32; check_crc32 stored

module _ {P : Type 0} (F : Formats P) (crc32 : List ℕ → ℕ) (short_read : List ℕ → ℕ) where
  -- What follows the header. The counts are those that a machine has memory for.
  unfoldable pub read_body : Bool → ℕ → ℕ → Exec Source LightForest
  read_body crc nodes_count tries_count = do
    nodes ← decode_nodes F crc nodes_count
    tries ← decode_tries F crc tries_count
    verify crc32 short_read crc
    pure (record { nodes = none ∷ map some nodes; tries = tries })

  -- The header: magic bytes, version, and the counts of nodes and tries.
  unfoldable pub read_header : List ℕ → Exec Source LightForest
  read_header header =
      let magic = read_uint 2 header 0 in
      let version = read_uint 2 header 2 in
      if not (magic == magic_bytes)
      then raise (other magic)
      else (if not (version == version_v1) && not (version == version_v3)
          then raise (other version)
          else read_body (version == version_v3) (read_uint 8 header 4) (read_uint 2 header 12))

  unfoldable pub read_all : Exec Source LightForest
  read_all = do header ← read_full true (4 + 8 + 2); read_header header

  -- ReadCheckpoint. The header is read through the checksum in any case.
  unfoldable pub read_checkpoint : List ℕ → Result LightForest
  read_checkpoint bytes = (read_all (record { input = bytes; hashed = [] })).0
