-- ===== src/Storage/Encoding.antt =====
-- service/storage/encoding.go and prefixes.go. A byte is a number below 256, a key is the list of
-- its bytes, and a [32]byte array (an identifier, a path, a state commitment) is the number that its
-- bytes spell, the most significant first, as for a uint64.
pub mod Order
use flow_dps.Base.{ℕ, zero, suc, ◌/◌, ◌%◌, List, [], ◌∷◌, ◌++◌}

-- binary.BigEndian.PutUint64 for 8 bytes, and the bytes of an array for 32.
unfoldable pub big_endian : ℕ → ℕ → List ℕ
big_endian zero x = []
big_endian (suc n) x = big_endian n (x / 256) ++ x % 256 ∷ []

-- The types that EncodeKey accepts as a segment.
pub data Segment : Type 0 where
  uint64 identifier path commitment : ℕ → Segment

unfoldable pub encode_segment : Segment → List ℕ
unfolding big_endian
encode_segment (uint64 s) = big_endian 8 s
encode_segment (identifier s) = big_endian 32 s
encode_segment (path s) = big_endian 32 s
encode_segment (commitment s) = big_endian 32 s

unfoldable encode_segments : List ℕ → List Segment → List ℕ
unfolding encode_segment
encode_segments key [] = key
encode_segments key (s ∷ segments) = encode_segments (key ++ encode_segment s) segments

unfoldable pub encode_key : ℕ → List Segment → List ℕ
unfolding encode_segments
encode_key prefix segments = encode_segments (prefix ∷ []) segments

abbrev pub prefix_first : ℕ
prefix_first = 1

abbrev pub prefix_last : ℕ
prefix_last = 2

abbrev pub prefix_height_for_block : ℕ
prefix_height_for_block = 7

abbrev pub prefix_height_for_transaction : ℕ
prefix_height_for_transaction = 16

abbrev pub prefix_commit : ℕ
prefix_commit = 4

abbrev pub prefix_header : ℕ
prefix_header = 3

abbrev pub prefix_events : ℕ
prefix_events = 5

abbrev pub prefix_payload : ℕ
prefix_payload = 6

abbrev pub prefix_transaction : ℕ
prefix_transaction = 8

abbrev pub prefix_collection : ℕ
prefix_collection = 10

abbrev pub prefix_guarantee : ℕ
prefix_guarantee = 17

abbrev pub prefix_transactions_for_height : ℕ
prefix_transactions_for_height = 9

abbrev pub prefix_transactions_for_collection : ℕ
prefix_transactions_for_collection = 12

abbrev pub prefix_collections_for_height : ℕ
prefix_collections_for_height = 11

abbrev pub prefix_results : ℕ
prefix_results = 13

abbrev pub prefix_seal : ℕ
prefix_seal = 14

abbrev pub prefix_seals_for_height : ℕ
prefix_seals_for_height = 15
