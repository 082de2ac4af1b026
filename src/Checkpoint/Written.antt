-- ===== src/Checkpoint/Written.antt =====
-- The bytes of a checkpoint, as the comments of ledger/trie/light_node.go and the decoders lay them
-- out: a description to read back, which the code has no writer for.
use flow_dps.Base.{ℕ, ◌<◌, ◌^◌, ◌≡◌, List, [], ◌∷◌, ◌++◌, length}
use flow_dps.Base.Outcome.{ok}
use flow_dps.Storage.Encoding.{big_endian}
use flow_dps.Checkpoint.Light.{LightNode, LightTrie, Formats}
use flow_dps.Checkpoint.{magic_bytes}

-- Data with its length before it, in two bytes or in four.
abbrev pub short : List ℕ → List ℕ
short b = big_endian 2 (length b) ++ b

abbrev pub long : List ℕ → List ℕ
long b = big_endian 4 (length b) ++ b

-- A node as it is stored.
pub record Stored (P : Type 0) : Type 0 where
  pub height : ℕ
  pub left : ℕ
  pub right : ℕ
  pub depth : ℕ
  pub registers : ℕ
  pub path : List ℕ
  pub payload : P
  pub hash : List ℕ

-- flow-go's readers take what is written so, and payloads decode to what was encoded.
pub record AreFormats {P : Type 0} (F : Formats P) : Type 0 where
  pub uint16 :
      (x : ℕ) (rest : List ℕ) → x < 2 ^ 16 → F.read_uint16 (big_endian 2 x ++ rest) ≡ ok (x, rest)
  pub uint64 :
      (x : ℕ) (rest : List ℕ) → x < 2 ^ 64 → F.read_uint64 (big_endian 8 x ++ rest) ≡ ok (x, rest)
  pub short_data :
      (b rest : List ℕ) → length b < 2 ^ 16 → F.read_short (short b ++ rest) ≡ ok (b, rest)
  pub long_data :
      (b rest : List ℕ) → length b < 2 ^ 32 → F.read_long (long b ++ rest) ≡ ok (b, rest)
  pub payload : (p : P) → F.decode_payload (F.encode_payload p) ≡ ok p

module _ {P : Type 0} (F : Formats P) where
  abbrev pub fixed_bytes : Stored P → List ℕ
  fixed_bytes n =
      big_endian 2 n.height
      ++ (big_endian 8 n.left
          ++ (big_endian 8 n.right ++ (big_endian 2 n.depth ++ (big_endian 8 n.registers ++ []))))

  abbrev pub node_bytes : Stored P → List ℕ
  node_bytes n =
      (big_endian 2 0 ++ [])
      ++ (fixed_bytes n
          ++ (short n.path ++ (long (F.encode_payload n.payload) ++ (short n.hash ++ []))))

  abbrev pub trie_bytes : LightTrie → List ℕ
  trie_bytes t =
      (big_endian 2 0 ++ []) ++ ((big_endian 8 t.root_index ++ []) ++ (short t.root_hash ++ []))

  abbrev pub all_nodes : List (Stored P) → List ℕ
  all_nodes [] = []
  all_nodes (n ∷ ns) = node_bytes n ++ (all_nodes ns ++ [])

  abbrev pub all_tries : List LightTrie → List ℕ
  all_tries [] = []
  all_tries (t ∷ ts) = trie_bytes t ++ (all_tries ts ++ [])

  -- The node that is read back: its indices, its hash and its payload.
  abbrev pub light_of : Stored P → LightNode
  light_of n = record {
    l_index = n.left;
    r_index = n.right;
    hash_value = n.hash;
    payload = F.encode_payload n.payload;
    path = [];
    count = 0;
  }

  -- The numbers fit into their bytes.
  abbrev pub Fits : Stored P → Type 0
  Fits n =
      (n.height < 2 ^ 16)
      × (n.left < 2 ^ 64)
      × (n.right < 2 ^ 64)
      × (n.depth < 2 ^ 16)
      × (n.registers < 2 ^ 64)
      × (length n.path < 2 ^ 16)
      × (length (F.encode_payload n.payload) < 2 ^ 32)
      × (length n.hash < 2 ^ 16)

  abbrev pub TrieFits : LightTrie → Type 0
  TrieFits t = (t.root_index < 2 ^ 64) × (length t.root_hash < 2 ^ 16)

  abbrev pub header_bytes : ℕ → List (Stored P) → List LightTrie → List ℕ
  header_bytes version ns ts =
      big_endian 2 magic_bytes
      ++ (big_endian 2 version ++ (big_endian 8 (length ns) ++ (big_endian 2 (length ts) ++ [])))

  -- The bytes up to the checksum.
  abbrev pub content_bytes : ℕ → List (Stored P) → List LightTrie → List ℕ
  content_bytes version ns ts = header_bytes version ns ts ++ (all_nodes ns ++ all_tries ts)
