-- ===== src/Feeder/Laws.antt =====
-- What the feeder gives, call by call.
use flow_dps.Base.{
  ℕ, zero, suc, ◌≡◌, refl, ap, ◌∙◌, List, [], ◌∷◌, ◌++◌, take, length, if◌then◌else◌, true,
  Bool-cases, inl, inr, ◌==◌, ==_iff, arith, ◌≤◌,
}
use flow_dps.Base.Outcome.{Result, ok, err, unavailable, bad_length}
use flow_dps.Feeder.{
  Log, record_then, ended, broken, update, after_decode, checked, clone, copy_paths, copy_payloads,
  all_paths_long, zeros,
}
use flow_dps.Feeder.Wal.{Decoder, Decoded, updated, deleted, TrieUpdate, decode}

take-append : {A : Type 0} (n : ℕ) (xs ys : List A) → length xs ≡ n → take n (xs ++ ys) ≡ xs
take-append zero [] ys h = refl
take-append zero (x ∷ xs) ys h = ground arith
take-append (suc n) [] ys h = ground arith
take-append (suc n) (x ∷ xs) ys h = λ i. x ∷ take-append n xs ys (omega arith) i

copy_paths_lem : (paths : List (List ℕ)) → all_paths_long paths ≡ true → copy_paths paths ≡ paths
copy_paths_lem [] h = refl
copy_paths_lem (path ∷ paths) h = elim (Bool-cases (length path == 32)) [
  | inl e ↦ λ i.
      take-append 32 path (zeros 32) ((==_iff (length path) 32).0 e) i
      ∷ copy_paths_lem paths (ground arith) i
  | inr e ↦ ground arith
]

module _ {P : Type 0} (D : Decoder P) (deep_copy : P → P) (copies : (p : P) → deep_copy p ≡ p) where
  copy_payloads_lem : (ps : List P) → copy_payloads D deep_copy ps ≡ ps
  copy_payloads_lem [] = refl
  copy_payloads_lem (p ∷ ps) = λ i. copies p i ∷ copy_payloads_lem ps i

-- The update if its root hash and its paths are 32 bytes long.
abbrev pub well_sized : {P : Type 0} → TrieUpdate P → Result (TrieUpdate P)
well_sized u =
    if length u.root_hash == 32
    then (if all_paths_long u.paths then ok u else err bad_length)
    else err bad_length

-- What a record is for the consumer: nothing for a deletion, else an update or an error.
abbrev pub consumed : {P : Type 0} → Result (Decoded P) → List (Result (TrieUpdate P))
consumed (err e) = err e ∷ []
consumed (ok (deleted root)) = []
consumed (ok (updated u)) = well_sized u ∷ []

module _ {P : Type 0} (D : Decoder P) where
  -- The log as the consumer sees it: the records that are no deletions, then the error of its end,
  -- `n` times.
  unfoldable pub seen : ℕ → Log → List (Result (TrieUpdate P))
  seen n (record_then b rest) = consumed (decode D b) ++ seen n rest
  seen zero ended = []
  seen (suc n) ended = err unavailable ∷ seen n ended
  seen zero (broken e) = []
  seen (suc n) (broken e) = err e ∷ seen n (broken e)

module _ {P : Type 0} (D : Decoder P) (deep_copy : P → P) where
  -- The results of `n` calls of Update one after another.
  unfoldable pub calls : ℕ → Log → List (Result (TrieUpdate P))
  calls zero log = []
  calls (suc n) log = let (r, rest) = update D deep_copy log in r ∷ calls n rest

module _ {P : Type 0} (D : Decoder P) (deep_copy : P → P) (copies : (p : P) → deep_copy p ≡ p) where
  clone_lem :
      (u : TrieUpdate P)
      → length u.root_hash ≡ 32
      → all_paths_long u.paths ≡ true
      → clone D deep_copy u ≡ u
  unfolding clone
  clone_lem u h k = λ i. record {
    root_hash = take-append 32 u.root_hash (zeros 32) h i;
    paths = copy_paths_lem u.paths k i;
    payloads = copy_payloads_lem D deep_copy copies u.payloads i;
  }

  checked_lem : (u : TrieUpdate P) → checked D deep_copy u ≡ well_sized u
  unfolding checked
  checked_lem u = elim (Bool-cases (length u.root_hash == 32)) [
    | inr e ↦ rw e
    | inl e ↦ elim (Bool-cases (all_paths_long u.paths)) [
      | inr q ↦ rw (e, q)
      | inl q ↦
          (rw (e, q)) ∙ ap ok (clone_lem u ((==_iff (length u.root_hash) 32).0 e) q) ∙ (rw (e, q))
    ]
  ]

  calls-seen_step :
      (d : Result (Decoded P)) (rest : Log) (m k : ℕ)
      → calls D deep_copy m rest ≡ take m (seen D k rest)
      → calls D deep_copy (suc m) rest ≡ take (suc m) (seen D k rest)
      → (after_decode D deep_copy d rest (update D deep_copy rest)).0
          ∷ calls D deep_copy m (after_decode D deep_copy d rest (update D deep_copy rest)).1
        ≡ take (suc m) (consumed d ++ seen D k rest)
  unfolding calls after_decode
  calls-seen_step (err e) rest m k a b = λ i. err e ∷ a i
  calls-seen_step (ok (deleted root)) rest m k a b = b
  calls-seen_step (ok (updated u)) rest m k a b = λ i. checked_lem u i ∷ a i

  -- The results of `m` calls are the first `m` of what the log has for the consumer: every update, in
  -- order, and every error, but no deletion; and at the end of the log ErrUnavailable, or the error
  -- of the reader, each time.
  pub calls-seen : (log : Log) (m k : ℕ) → m ≤ k → calls D deep_copy m log ≡ take m (seen D k log)
  unfolding calls seen update
  calls-seen log zero k h = refl
  calls-seen ended (suc m) zero h = ground arith
  calls-seen ended (suc m) (suc k) h = λ i. err unavailable ∷ calls-seen ended m k (omega arith) i
  calls-seen (broken e) (suc m) zero h = ground arith
  calls-seen (broken e) (suc m) (suc k) h = λ i. err e ∷ calls-seen (broken e) m k (omega arith) i
  calls-seen (record_then b rest) (suc m) k h =
      calls-seen_step (decode D b) rest m k (calls-seen rest m k (omega arith))
        (calls-seen rest (suc m) k h)
