-- ===== src/Api/Convert.antt =====
-- models/convert. A [32]byte array is a number, as in Storage.Encoding, and its bytes are its digits.
use flow_dps.Base.{ℕ, ◌≡◌, Option, some, none, List, [], ◌∷◌}
use flow_dps.Base.Outcome.{Result, ok}
use flow_dps.Base.Outcome.Steps.{◌>>=◌}
use flow_dps.Storage.Library.{Values}
use flow_dps.Storage.Encoding.{big_endian}
use flow_dps.Storage.Entries.{IsArray}

-- The conversions of flow-go between slices and arrays, and between a ledger.Value and its bytes.
pub record Conversions (V : Values) : Type 0 where
  pub hash_to_id : List ℕ → ℕ
  pub to_path : List ℕ → Result ℕ
  pub to_state_commitment : List ℕ → Result ℕ
  pub value_bytes : V.Value → List ℕ
  pub bytes_value : List ℕ → V.Value

-- The conversions read the bytes of an array as the array, and a value is its bytes.
pub record AreConversions {V : Values} (C : Conversions V) : Type 0 where
  pub id_of_bytes : (x : ℕ) → IsArray x → C.hash_to_id (big_endian 32 x) ≡ x
  pub path_of_bytes : (x : ℕ) → IsArray x → C.to_path (big_endian 32 x) ≡ ok x
  pub commit_of_bytes : (x : ℕ) → IsArray x → C.to_state_commitment (big_endian 32 x) ≡ ok x
  pub value_of_bytes : (v : V.Value) → C.bytes_value (C.value_bytes v) ≡ v

-- IDToHash and CommitToHash, and the slices `id[:]` and `commit[:]`.
abbrev pub id_to_hash : ℕ → List ℕ
id_to_hash id = big_endian 32 id

abbrev pub paths_to_bytes : List ℕ → List (List ℕ)
paths_to_bytes [] = []
paths_to_bytes (path ∷ paths) = big_endian 32 path ∷ paths_to_bytes paths

-- An event type is a string.
abbrev pub types_to_strings : List ℕ → List ℕ
types_to_strings [] = []
types_to_strings (type_ ∷ types) = type_ ∷ types_to_strings types

abbrev pub strings_to_types : List ℕ → List ℕ
strings_to_types [] = []
strings_to_types (s ∷ ss) = s ∷ strings_to_types ss

module _ {V : Values} (C : Conversions V) where
  unfoldable pub bytes_to_paths : List (List ℕ) → Result (List ℕ)
  bytes_to_paths [] = ok []
  bytes_to_paths (b ∷ bb) = do path ← C.to_path b; paths ← bytes_to_paths bb; ok (path ∷ paths)

  -- The copy of a nil value is an empty slice.
  abbrev pub value_to_bytes : Option V.Value → List ℕ
  value_to_bytes none = []
  value_to_bytes (some value) = C.value_bytes value

  unfoldable pub values_to_bytes : List (Option V.Value) → List (List ℕ)
  values_to_bytes [] = []
  values_to_bytes (value ∷ values) = value_to_bytes value ∷ values_to_bytes values

  unfoldable pub bytes_to_values : List (List ℕ) → List (Option V.Value)
  bytes_to_values [] = []
  bytes_to_values (b ∷ bb) = some (C.bytes_value b) ∷ bytes_to_values bb
