-- ===== src/Scenarios/Log.antt =====
-- A write-ahead log with a deletion, two updates, one of them too short, and an error at its end.
use flow_dps.Base.{ℕ, zero, suc, ◌≡◌, refl, arith, List, [], ◌∷◌}
use flow_dps.Base.Outcome.{Result, ok, err, bad_length, other}
use flow_dps.Feeder.{Log, record_then, broken}
use flow_dps.Feeder.Wal.{Decoder, TrieUpdate, decode}
use flow_dps.Feeder.Laws.{calls, seen, calls-seen}

abbrev full : ℕ → ℕ → List ℕ
full x zero = []
full x (suc n) = x ∷ full x n

-- The root hash is the first byte 32 times, the path the others.
abbrev read_update : List ℕ → Result (TrieUpdate ℕ)
read_update [] = err bad_length
read_update (b ∷ bytes) =
    ok (record { root_hash = full b 32; paths = bytes ∷ []; payloads = b ∷ [] })

abbrev decoder : Decoder ℕ
decoder = record {
  decode_trie_update = read_update;
  read_short_data = λ b. ok b;
  to_root_hash = λ b. ok b;
}

abbrev log : Log
log =
    record_then (2 ∷ 9 ∷ 9 ∷ 9 ∷ [])
      (record_then (1 ∷ 7 ∷ 8 ∷ 8 ∷ []) (record_then (1 ∷ 5 ∷ full 6 32) (broken (other 3))))

calls-seen_example :
    calls decoder (λ p. p) 4 log
    ≡ err bad_length
      ∷ ok (record { root_hash = full 5 32; paths = full 6 32 ∷ []; payloads = 5 ∷ [] })
      ∷ err (other 3)
      ∷ err (other 3)
      ∷ []
unfolding seen decode
calls-seen_example = calls-seen decoder (λ p. p) (λ p. refl) log 4 4 (omega arith)
