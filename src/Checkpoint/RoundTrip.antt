-- ===== src/Checkpoint/RoundTrip.antt =====
-- ReadCheckpoint on the bytes of a checkpoint.
use flow_dps.Base.{
  ℕ, zero, suc, ◌<◌, ◌≤◌, ◌^◌, ◌==◌, ◌≡◌, refl, ap, ◌∙◌, subst, Bool, true, false, none, some, List,
  [], ◌∷◌, ◌++◌, map, length, length-append, take, drop, All, if◌then◌else◌, arith,
}
use mathlib.Core.List.{append_assoc}
use flow_dps.Base.Outcome.{Result, ok, err, hash_mismatch, Exec, pure, after, ◌>>=◌}
use flow_dps.Storage.Encoding.{big_endian}
use flow_dps.Storage.Encoding.Order.{length-big_endian, read_number-big_endian}
use flow_dps.Checkpoint.Light.{LightTrie, Formats, Source, read_full}
use flow_dps.Checkpoint.{
  LightForest, decode_nodes, decode_tries, read_body, read_header, read_all, read_checkpoint,
  read_crc32, check_crc32, verify, read_uint, magic_bytes,
}
use flow_dps.Checkpoint.Written.{
  Stored, AreFormats, all_nodes, all_tries, light_of, Fits, TrieFits, header_bytes, content_bytes,
}
use flow_dps.Checkpoint.Reading.{
  seen, Reads, Reads-read_full, Reads-decode_nodes, Reads-decode_tries,
}

module _ {P : Type 0} (F : Formats P) (version : ℕ) (ns : List (Stored P))
    (ts : List LightTrie) where
  read_uint-magic : read_uint 2 (header_bytes F version ns ts) 0 ≡ magic_bytes
  unfolding big_endian
  read_uint-magic = read_number-big_endian 2 magic_bytes (omega arith)

  read_uint-version : version < 2 ^ 16 → read_uint 2 (header_bytes F version ns ts) 2 ≡ version
  unfolding big_endian
  read_uint-version h = read_number-big_endian 2 version h

  read_uint-nodes : length ns < 2 ^ 64 → read_uint 8 (header_bytes F version ns ts) 4 ≡ length ns
  unfolding big_endian
  read_uint-nodes h = read_number-big_endian 8 (length ns) h

  read_uint-tries : length ts < 2 ^ 16 → read_uint 2 (header_bytes F version ns ts) 12 ≡ length ts
  unfolding big_endian
  read_uint-tries h = read_number-big_endian 2 (length ts) h

  length-header_bytes : length (header_bytes F version ns ts) ≡ 14
  length-header_bytes = simp (length-append, length-big_endian)

-- A call that takes its bytes, and what comes after it.
Reads-step :
    {A B : Type 0} (crc : Bool) (m : Exec Source A) (f : A → Exec Source B)
    (xs rest hashed : List ℕ) (a : A)
    → Reads crc m xs a
    → (m >>= f) (record { input = xs ++ rest; hashed = hashed })
      ≡ f a (record { input = rest; hashed = seen crc hashed xs })
Reads-step {A = A} crc m f xs rest hashed a h =
    ap (λ (p : Result A × Source). after p.0 f p.1) (h rest hashed)

take_within :
    (xs tail zs : List ℕ) (n : ℕ)
    → length xs ≤ n
    → take (length xs) (take n (xs ++ tail) ++ zs) ≡ xs
take_within [] tail zs n h = refl
take_within (x ∷ xs) tail zs zero h = ground arith
take_within (x ∷ xs) tail zs (suc n) h = λ i. x ∷ take_within xs tail zs n (omega arith) i

module _ (crc32 : List ℕ → ℕ) (short_read : List ℕ → ℕ) where
  stored_number :
      (c : ℕ) (tail : List ℕ)
      → 4 ≤ short_read (big_endian 4 c ++ tail)
      → take 4 (
          take (short_read (big_endian 4 c ++ tail)) (big_endian 4 c ++ tail) ++ 0 ∷ 0 ∷ 0 ∷ 0 ∷ [])
        ≡ big_endian 4 c
  stored_number c tail k =
      subst
        (λ n.
          take n (
            take (short_read (big_endian 4 c ++ tail)) (big_endian 4 c ++ tail)
            ++ 0 ∷ 0 ∷ 0 ∷ 0 ∷ [])
          ≡ big_endian 4 c)
        (length-big_endian 4 c)
        (take_within (big_endian 4 c) tail (0 ∷ 0 ∷ 0 ∷ 0 ∷ [])
          (short_read (big_endian 4 c ++ tail)) (omega (arith, length-big_endian 4 c)))

  read_crc32-stored :
      (c : ℕ) (tail hashed : List ℕ)
      → c < 2 ^ 32
      → 4 ≤ short_read (big_endian 4 c ++ tail)
      → read_crc32 crc32 short_read (record { input = big_endian 4 c ++ tail; hashed = hashed }) ≡ (
        ok c,
        record {
          input = drop (short_read (big_endian 4 c ++ tail)) (big_endian 4 c ++ tail);
          hashed = hashed;
        },
      )
  unfolding read_crc32
  read_crc32-stored c tail hashed h k =
      rw (not_empty, stored_number c tail k, read_number-big_endian 4 c h)
    where
      not_empty : (length (big_endian 4 c ++ tail) == 0) ≡ false
      not_empty = ground (arith, length-append (big_endian 4 c) tail, length-big_endian 4 c)

  checked_crc32 :
      (lf : LightForest) (b : Bool) (s : Source)
      → (after (if b then ok tt else err hash_mismatch) (λ _. pure lf) s).0
        ≡ (if b then ok lf else err hash_mismatch)
  checked_crc32 lf true s = refl
  checked_crc32 lf false s = refl

  verify_lem :
      (lf : LightForest) (c : ℕ) (tail hashed : List ℕ)
      → c < 2 ^ 32
      → 4 ≤ short_read (big_endian 4 c ++ tail)
      → ((verify crc32 short_read true >>= (λ _. pure lf))
          (record { input = big_endian 4 c ++ tail; hashed = hashed })).0
        ≡ (if crc32 hashed == c then ok lf else err hash_mismatch)
  unfolding verify check_crc32
  verify_lem lf c tail hashed h k =
      (rw (read_crc32-stored c tail hashed h k))
      ∙ checked_crc32 lf (crc32 hashed == c) (record {
        input = drop (short_read (big_endian 4 c ++ tail)) (big_endian 4 c ++ tail);
        hashed = hashed;
      })

module _ {P : Type 0} (F : Formats P) (law : AreFormats F) (crc32 : List ℕ → ℕ)
    (short_read : List ℕ → ℕ) (ns : List (Stored P)) (ts : List LightTrie) (fit : All (Fits F) ns)
    (tries_fit : All (TrieFits F) ts) where
  abbrev forest_of : LightForest
  forest_of = record { nodes = none ∷ map some (map (light_of F) ns); tries = ts }

  read_body-content :
      (crc : Bool) (tail hashed : List ℕ)
      → read_body F crc32 short_read crc
          (length ns)
          (length ts)
          (record { input = (all_nodes F ns ++ all_tries F ts) ++ tail; hashed = hashed })
        ≡ (verify crc32 short_read crc >>= (λ _. pure forest_of)) (record {
          input = tail;
          hashed = seen crc (seen crc hashed (all_nodes F ns)) (all_tries F ts);
        })
  unfolding read_body
  read_body-content crc tail hashed =
      ap
        (λ l.
          read_body F crc32 short_read crc (length ns) (length ts)
            (record { input = l; hashed = hashed }))
        (append_assoc (all_nodes F ns) (all_tries F ts) tail)
      ∙ Reads-step crc (decode_nodes F crc (length ns)) _ (all_nodes F ns) (all_tries F ts ++ tail)
          hashed _ (Reads-decode_nodes F law crc ns fit)
      ∙ Reads-step crc (decode_tries F crc (length ts)) _ (all_tries F ts) tail _ _
          (Reads-decode_tries F law crc ts tries_fit)

  module _ (nodes_bound : length ns < 2 ^ 64) (tries_bound : length ts < 2 ^ 16) where
    read_header-v3 :
        (s : Source)
        → read_header F crc32 short_read (header_bytes F 3 ns ts) s
          ≡ read_body F crc32 short_read true (length ns) (length ts) s
    unfolding read_header
    read_header-v3 s = rw (
      read_uint-magic F 3 ns ts,
      read_uint-version F 3 ns ts (omega arith),
      read_uint-nodes F 3 ns ts nodes_bound,
      read_uint-tries F 3 ns ts tries_bound,
    )

    -- Of the bytes of a checkpoint of version 3, with a stored checksum and whatever follows it,
    -- ReadCheckpoint gives the light nodes, with a nil one first and without their paths, and the light
    -- tries, if the stored checksum is that of the bytes before it, and else it reports a mismatch.
    -- Condition: the read of the checksum is not cut short.
    pub read_checkpoint-content :
        (c : ℕ) (tail : List ℕ)
        → c < 2 ^ 32
        → 4 ≤ short_read (big_endian 4 c ++ tail)
        → read_checkpoint F crc32 short_read (content_bytes F 3 ns ts ++ (big_endian 4 c ++ tail))
          ≡ (if crc32 (content_bytes F 3 ns ts) == c
              then ok (record { nodes = none ∷ map some (map (light_of F) ns); tries = ts })
              else err hash_mismatch)
    unfolding read_checkpoint read_all
    read_checkpoint-content c tail h k =
        ap (λ (p : Result LightForest × Source). p.0)
          (ap (λ l. read_all F crc32 short_read (record { input = l; hashed = [] }))
              (append_assoc (header_bytes F 3 ns ts) (all_nodes F ns ++ all_tries F ts)
                (big_endian 4 c ++ tail))
            ∙ Reads-step true (read_full true 14) (read_header F crc32 short_read)
                (header_bytes F 3 ns ts) _ [] _
                (Reads-read_full true 14 (header_bytes F 3 ns ts) (length-header_bytes F 3 ns ts))
            ∙ read_header-v3 _
            ∙ read_body-content true (big_endian 4 c ++ tail) (header_bytes F 3 ns ts))
        ∙ verify_lem crc32 short_read forest_of c tail _ h k
        ∙ ap (λ l. if crc32 l == c then ok forest_of else err hash_mismatch)
            (append_assoc (header_bytes F 3 ns ts) (all_nodes F ns) (all_tries F ts))
