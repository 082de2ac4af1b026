-- ===== src/Scenarios/Checkpoints.antt =====
-- A checkpoint with a leaf and a trie whose root it is.
use flow_dps.Base.{
  ℕ, ◌<◌, ◌^◌, ◌%◌, ◌≡◌, refl, ap, ◌∙◌, arith, some, none, List, [], ◌∷◌, ◌++◌, length, take, drop,
  if◌then◌else◌, ◌==◌,
}
use flow_dps.Base.Outcome.{Result, ok, err, bad_length, hash_mismatch}
use flow_dps.Storage.Encoding.{big_endian}
use flow_dps.Storage.Encoding.Order.{read_number, read_number-big_endian}
use flow_dps.Checkpoint.{LightForest, read_checkpoint}
use flow_dps.Checkpoint.Light.{Formats, LightTrie}
use flow_dps.Checkpoint.Written.{Stored, AreFormats, short, long, content_bytes, light_of, Fits}
use flow_dps.Checkpoint.Reading.{take-append, drop-append}
use flow_dps.Checkpoint.RoundTrip.{read_checkpoint-content}
use flow_dps.Checkpoint.Rebuild.{Arrays, checkpoint_trie}
use flow_dps.Checkpoint.Paths.{checkpoint_trie-fails, IsErr}

abbrev uint : ℕ → List ℕ → Result (ℕ × List ℕ)
uint n b = ok (read_number 0 (take n b), drop n b)

abbrev sized : ℕ → List ℕ → Result (List ℕ × List ℕ)
sized n b =
    ok (take (read_number 0 (take n b)) (drop n b), drop (read_number 0 (take n b)) (drop n b))

abbrev pub formats : Formats (List ℕ)
formats = record {
  read_uint16 = uint 2;
  read_uint64 = uint 8;
  read_short = sized 2;
  read_long = sized 4;
  decode_payload = λ b. ok b;
  encode_payload = λ p. p;
}

uint16_lem : (x : ℕ) (rest : List ℕ) → x < 2 ^ 16 → uint 2 (big_endian 2 x ++ rest) ≡ ok (x, rest)
unfolding big_endian
uint16_lem x rest h = ap (λ n. ok (n, rest)) (read_number-big_endian 2 x h)

uint64_lem : (x : ℕ) (rest : List ℕ) → x < 2 ^ 64 → uint 8 (big_endian 8 x ++ rest) ≡ ok (x, rest)
unfolding big_endian
uint64_lem x rest h = ap (λ n. ok (n, rest)) (read_number-big_endian 8 x h)

split_at :
    (b rest : List ℕ) (n : ℕ)
    → n ≡ length b
    → (take n (b ++ rest) ≡ b) × (drop n (b ++ rest) ≡ rest)
split_at b rest n e = ((rw e) ∙ take-append b rest, (rw e) ∙ drop-append b rest)

short_lem : (b rest : List ℕ) → length b < 2 ^ 16 → sized 2 (short b ++ rest) ≡ ok (b, rest)
unfolding big_endian
short_lem b rest h =
    let (t, d) = split_at b rest _ (read_number-big_endian 2 (length b) h) in λ i. ok (t i, d i)

long_lem : (b rest : List ℕ) → length b < 2 ^ 32 → sized 4 (long b ++ rest) ≡ ok (b, rest)
unfolding big_endian
long_lem b rest h =
    let (t, d) = split_at b rest _ (read_number-big_endian 4 (length b) h) in λ i. ok (t i, d i)

formats-AreFormats : AreFormats formats
formats-AreFormats = record {
  uint16 = uint16_lem;
  uint64 = uint64_lem;
  short_data = short_lem;
  long_data = long_lem;
  payload = λ p. refl;
}

abbrev stored_leaf : Stored (List ℕ)
stored_leaf = record {
  height = 256;
  left = 0;
  right = 0;
  depth = 0;
  registers = 1;
  path = 1 ∷ 2 ∷ 3 ∷ [];
  payload = 7 ∷ [];
  hash = 9 ∷ 9 ∷ [];
}

abbrev root : LightTrie
root = record { root_index = 1; root_hash = 9 ∷ 9 ∷ [] }

abbrev sum : List ℕ → ℕ
sum b = length b % 2 ^ 32

abbrev content : List ℕ
content = content_bytes formats 3 (stored_leaf ∷ []) (root ∷ [])

abbrev light_forest : LightForest
light_forest = record { nodes = none ∷ some (light_of formats stored_leaf) ∷ []; tries = root ∷ [] }

stored_leaf-Fits : Fits formats stored_leaf
stored_leaf-Fits = (
  omega arith,
  omega arith,
  omega arith,
  omega arith,
  omega arith,
  omega arith,
  omega arith,
  omega arith,
)

-- The content has 72 bytes.
content_is_read :
    read_checkpoint formats sum length (content ++ (big_endian 4 72 ++ [])) ≡ ok light_forest
unfolding big_endian
content_is_read =
    read_checkpoint-content formats formats-AreFormats sum length (stored_leaf ∷ []) (root ∷ [])
      (stored_leaf-Fits, tt) ((omega arith, omega arith), tt) (omega arith) (omega arith) 72 []
      (omega arith) (omega arith)

read_checkpoint-content_example :
    read_checkpoint formats sum length (content ++ (big_endian 4 5 ++ [])) ≡ err hash_mismatch
unfolding big_endian
read_checkpoint-content_example =
    read_checkpoint-content formats formats-AreFormats sum length (stored_leaf ∷ []) (root ∷ [])
      (stored_leaf-Fits, tt) ((omega arith, omega arith), tt) (omega arith) (omega arith) 5 []
      (omega arith) (omega arith)

abbrev pub path_of : List ℕ → Result ℕ
path_of b = if length b == 32 then ok (read_number 0 b) else err bad_length

abbrev pub arrays : Arrays
arrays = record { to_hash = path_of; to_path = path_of; default_hash = 0 }

checkpoint_trie-fails_example : IsErr (
    checkpoint_trie formats arrays
      (read_checkpoint formats sum length (content ++ (big_endian 4 72 ++ []))))
checkpoint_trie-fails_example =
    checkpoint_trie-fails formats sum length arrays (λ b n. (bad_length, ground (arith, n)))
      (content ++ (big_endian 4 72 ++ [])) light_forest content_is_read (λ e. ground arith)
