-- ===== src/Checkpoint/Light.antt =====
-- The reading of light nodes and tries in ledger/trie/light_node.go and light_trie.go.
use flow_dps.Base.{ℕ, ◌+◌, ◌-◌, ◌==◌, ltb, Bool, List, [], ◌++◌, take, drop, length, if◌then◌else◌}
use flow_dps.Base.Outcome.{Result, ok, err, other, bad_length, Exec, pure, raise, from, ◌>>=◌, ◌>>◌}

pub record LightNode : Type 0 where
  pub l_index : ℕ
  pub r_index : ℕ
  pub hash_value : List ℕ
  pub payload : List ℕ
  pub path : List ℕ
  pub count : ℕ

pub record LightTrie : Type 0 where
  pub root_index : ℕ
  pub root_hash : List ℕ

-- What is left of the input, and what went through the checksum.
pub record Source : Type 0 where
  pub input : List ℕ
  pub hashed : List ℕ

-- flow-go's ReadUint16 and ReadUint64, ReadShortDataFromReader and ReadLongDataFromReader, which give
-- what they read and what is left, and the encoding of payloads.
pub record Formats (P : Type 0) : Type 0 where
  pub read_uint16 : List ℕ → Result (ℕ × List ℕ)
  pub read_uint64 : List ℕ → Result (ℕ × List ℕ)
  pub read_short : List ℕ → Result (List ℕ × List ℕ)
  pub read_long : List ℕ → Result (List ℕ × List ℕ)
  pub decode_payload : List ℕ → Result P
  pub encode_payload : P → List ℕ

-- The bytes that are left after a read; the others have gone through the checksum if `crc` is set.
abbrev pub advance : Bool → Source → List ℕ → Source
advance crc s rest = record {
  input = rest;
  hashed = if crc then s.hashed ++ take (length s.input - length rest) s.input else s.hashed;
}

-- io.ReadFull.
unfoldable pub read_full : Bool → ℕ → Exec Source (List ℕ)
read_full crc n s =
    if ltb (length s.input) n
    then (err bad_length, advance crc s [])
    else (ok (take n s.input), advance crc s (drop n s.input))

-- A reader of flow-go on the rest of the input.
abbrev pub read_data_from : Bool → Source → Result (List ℕ × List ℕ) → Result (List ℕ) × Source
read_data_from crc s (ok (data_, rest)) = (ok data_, advance crc s rest)
read_data_from crc s (err e) = (err e, s)

abbrev pub read_data : Bool → (List ℕ → Result (List ℕ × List ℕ)) → Exec Source (List ℕ)
read_data crc read s = read_data_from crc s (read s.input)

abbrev pub encoding_version : ℕ
encoding_version = 0

module _ {P : Type 0} (F : Formats P) where
  -- The height, the maximal depth, the register count and the path are read and dropped.
  unfoldable pub decode_legacy_format : Bool → Exec Source LightNode
  decode_legacy_format crc = do
    buf ← read_full crc (2 + 8 + 8 + 2 + 8)
    height ← from (F.read_uint16 buf)
    left ← from (F.read_uint64 height.1)
    right ← from (F.read_uint64 left.1)
    depth ← from (F.read_uint16 right.1)
    from (F.read_uint64 depth.1)
    read_data crc F.read_short
    encoded ← read_data crc F.read_long
    payload ← from (F.decode_payload encoded)
    hash_value ← read_data crc F.read_short
    pure (record {
      l_index = left.0;
      r_index = right.0;
      hash_value = hash_value;
      payload = F.encode_payload payload;
      path = [];
      count = 0;
    })

  unfoldable pub decode_light_node : Bool → Exec Source LightNode
  decode_light_node crc = do
    buf ← read_full crc 2
    version ← from (F.read_uint16 buf)
    if version.0 == encoding_version then decode_legacy_format crc else raise (other version.0)

  unfoldable pub decode_root : Bool → Exec Source LightTrie
  decode_root crc = do
    buf ← read_full crc 8
    root_index ← from (F.read_uint64 buf)
    root_hash ← read_data crc F.read_short
    pure (record { root_index = root_index.0; root_hash = root_hash })

  unfoldable pub decode_light_trie : Bool → Exec Source LightTrie
  decode_light_trie crc = do
    buf ← read_full crc 2
    version ← from (F.read_uint16 buf)
    if version.0 == encoding_version then decode_root crc else raise (other version.0)
