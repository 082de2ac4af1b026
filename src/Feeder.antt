-- ===== src/Feeder.antt =====
-- service/feeder/feeder.go: the trie updates of the write-ahead log, one at a time.
pub mod Wal
pub mod Laws
use flow_dps.Base.{
  ℕ, zero, suc, ◌==◌, Bool, true, false, List, [], ◌∷◌, ◌++◌, take, length, if◌then◌else◌,
}
use flow_dps.Base.Outcome.{Err, Result, ok, err, unavailable, bad_length}
use flow_dps.Feeder.Wal.{Decoder, Decoded, updated, deleted, TrieUpdate, decode}

-- What the reader of the log still has: records, and then its end, or an error that stays.
pub data Log : Type 0 where
  record_then : List ℕ → Log → Log
  ended : Log
  broken : Err → Log

abbrev zeros : ℕ → List ℕ
zeros zero = []
zeros (suc n) = 0 ∷ zeros n

-- `copy` of a slice to an array of 32 bytes that is zero.
abbrev copy_32 : List ℕ → List ℕ
copy_32 b = take 32 (b ++ zeros 32)

abbrev copy_paths : List (List ℕ) → List (List ℕ)
copy_paths [] = []
copy_paths (path ∷ paths) = copy_32 path ∷ copy_paths paths

abbrev all_paths_long : List (List ℕ) → Bool
all_paths_long [] = true
all_paths_long (path ∷ paths) =
    let rest = all_paths_long paths in if length path == 32 then rest else false

module _ {P : Type 0} (D : Decoder P) (deep_copy : P → P) where
  abbrev copy_payloads : List P → List P
  copy_payloads [] = []
  copy_payloads (payload ∷ payloads) = deep_copy payload ∷ copy_payloads payloads

  unfoldable pub clone : TrieUpdate P → TrieUpdate P
  clone update = record {
    root_hash = copy_32 update.root_hash;
    paths = copy_paths update.paths;
    payloads = copy_payloads update.payloads;
  }

  -- The checks of the lengths, and the copy that is returned.
  unfoldable pub checked : TrieUpdate P → Result (TrieUpdate P)
  unfolding clone
  checked update =
      if length update.root_hash == 32
      then (if all_paths_long update.paths then ok (clone update) else err bad_length)
      else err bad_length

  -- What follows the decoding of a record: `rest` is the log after it.
  unfoldable pub after_decode :
      Result (Decoded P) → Log → Result (TrieUpdate P) × Log → Result (TrieUpdate P) × Log
  unfolding checked
  after_decode (err e) rest again = (err e, rest)
  after_decode (ok (deleted root)) rest again = again
  after_decode (ok (updated u)) rest again = (checked u, rest)

  -- Update: the loop up to the next record that is not skipped, and the log that is left.
  unfoldable pub update : Log → Result (TrieUpdate P) × Log
  unfolding after_decode
  update (record_then b rest) = after_decode (decode D b) rest (update rest)
  update ended = (err unavailable, ended)
  update (broken e) = (err e, broken e)
