-- ===== src/Storage/Entries.antt =====
-- The entries of the index database and their keys (service/storage/operations.go, prefixes.go).
use flow_dps.Base.{
  ℕ, zero, suc, ◌^◌, ◌<◌, ◌==◌, ◌≡◌, refl, sym, ◌∙◌, ap, Option, none, some, List, [], ◌∷◌, ◌++◌,
  arith, length, take, drop, some_eq, if◌then◌else◌,
}
use flow_dps.Storage.Encoding.{
  big_endian, encode_key, uint64, identifier, path, prefix_first, prefix_last,
  prefix_height_for_block, prefix_height_for_transaction, prefix_commit, prefix_header,
  prefix_events, prefix_payload, prefix_transaction, prefix_collection, prefix_guarantee,
  prefix_transactions_for_height, prefix_transactions_for_collection, prefix_collections_for_height,
  prefix_results, prefix_seal, prefix_seals_for_height,
}
use flow_dps.Storage.Encoding.Order.{length-big_endian, read_number, read_number-big_endian}

-- What the database holds: one constructor for each kind of key.
pub data Entry : Type 0 where
  first last : Entry
  height_for_block height_for_transaction : ℕ → Entry
  commit header : ℕ → Entry
  events : ℕ → ℕ → Entry
  payload : ℕ → ℕ → Entry
  transaction collection guarantee : ℕ → Entry
  transactions_for_height transactions_for_collection collections_for_height : ℕ → Entry
  results seal seals_for_height : ℕ → Entry

-- The key of an entry, as the calls of EncodeKey in the operations build it.
unfoldable pub key_of : Entry → List ℕ
unfolding encode_key
key_of first = encode_key prefix_first []
key_of last = encode_key prefix_last []
key_of (height_for_block id) = encode_key prefix_height_for_block (identifier id ∷ [])
key_of (height_for_transaction id) = encode_key prefix_height_for_transaction (identifier id ∷ [])
key_of (commit h) = encode_key prefix_commit (uint64 h ∷ [])
key_of (header h) = encode_key prefix_header (uint64 h ∷ [])
key_of (events h t) = encode_key prefix_events (uint64 h ∷ uint64 t ∷ [])
key_of (payload p h) = encode_key prefix_payload (path p ∷ uint64 h ∷ [])
key_of (transaction id) = encode_key prefix_transaction (identifier id ∷ [])
key_of (collection id) = encode_key prefix_collection (identifier id ∷ [])
key_of (guarantee id) = encode_key prefix_guarantee (identifier id ∷ [])
key_of (transactions_for_height h) = encode_key prefix_transactions_for_height (uint64 h ∷ [])
key_of (transactions_for_collection id) =
    encode_key prefix_transactions_for_collection (identifier id ∷ [])
key_of (collections_for_height h) = encode_key prefix_collections_for_height (uint64 h ∷ [])
key_of (results id) = encode_key prefix_results (identifier id ∷ [])
key_of (seal id) = encode_key prefix_seal (identifier id ∷ [])
key_of (seals_for_height h) = encode_key prefix_seals_for_height (uint64 h ∷ [])

-- Heights and type hashes are uint64, the others arrays of 32 bytes.
abbrev pub IsHeight : ℕ → Type 0
IsHeight h = h < 256 ^ 8

abbrev pub IsArray : ℕ → Type 0
IsArray x = x < 256 ^ 32

abbrev pub InRange : Entry → Type 0
InRange first = Unit
InRange last = Unit
InRange (height_for_block id) = IsArray id
InRange (height_for_transaction id) = IsArray id
InRange (commit h) = IsHeight h
InRange (header h) = IsHeight h
InRange (events h t) = IsHeight h × IsHeight t
InRange (payload p h) = IsArray p × IsHeight h
InRange (transaction id) = IsArray id
InRange (collection id) = IsArray id
InRange (guarantee id) = IsArray id
InRange (transactions_for_height h) = IsHeight h
InRange (transactions_for_collection id) = IsArray id
InRange (collections_for_height h) = IsHeight h
InRange (results id) = IsArray id
InRange (seal id) = IsArray id
InRange (seals_for_height h) = IsHeight h

-- The entry that a key stands for, read off the prefix byte and the numbers behind it.
decode : ℕ → List ℕ → Option Entry
decode p body =
    let one = read_number 0 body in
    if p == 1
    then some first
    else if p == 2
    then some last
    else if p == 7
    then some (height_for_block one)
    else if p == 16
    then some (height_for_transaction one)
    else if p == 4
    then some (commit one)
    else if p == 3
    then some (header one)
    else if p == 5
    then some (events (read_number 0 (take 8 body)) (read_number 0 (drop 8 body)))
    else if p == 6
    then some (payload (read_number 0 (take 32 body)) (read_number 0 (drop 32 body)))
    else if p == 8
    then some (transaction one)
    else if p == 10
    then some (collection one)
    else if p == 17
    then some (guarantee one)
    else if p == 9
    then some (transactions_for_height one)
    else if p == 12
    then some (transactions_for_collection one)
    else if p == 11
    then some (collections_for_height one)
    else if p == 13
    then some (results one)
    else if p == 14
    then some (seal one)
    else if p == 15
    then some (seals_for_height one)
    else none

decode_key : List ℕ → Option Entry
decode_key [] = none
decode_key (p ∷ body) = decode p body

take-append_exact : (n : ℕ) (xs ys : List ℕ) → length xs ≡ n → take n (xs ++ ys) ≡ xs
take-append_exact zero [] ys h = refl
take-append_exact zero (x ∷ xs) ys h = ground arith
take-append_exact (suc n) [] ys h = ground arith
take-append_exact (suc n) (x ∷ xs) ys h = ap (λ l. x ∷ l) (take-append_exact n xs ys (omega arith))

drop-append_exact : (n : ℕ) (xs ys : List ℕ) → length xs ≡ n → drop n (xs ++ ys) ≡ ys
drop-append_exact zero [] ys h = refl
drop-append_exact zero (x ∷ xs) ys h = ground arith
drop-append_exact (suc n) [] ys h = ground arith
drop-append_exact (suc n) (x ∷ xs) ys h = drop-append_exact n xs ys (omega arith)

module _ (a b x y : ℕ) where
  pub take-big_endian : take a (big_endian a x ++ big_endian b y) ≡ big_endian a x
  take-big_endian = take-append_exact a (big_endian a x) (big_endian b y) (length-big_endian a x)

  pub drop-big_endian : drop a (big_endian a x ++ big_endian b y) ≡ big_endian b y
  drop-big_endian = drop-append_exact a (big_endian a x) (big_endian b y) (length-big_endian a x)

decode_key-key_of : (e : Entry) → InRange e → decode_key (key_of e) ≡ some e
unfolding decode_key decode key_of
decode_key-key_of first r = refl
decode_key-key_of last r = refl
decode_key-key_of (height_for_block id) r =
    ap (λ n. some (height_for_block n)) (read_number-big_endian 32 id r)
decode_key-key_of (height_for_transaction id) r =
    ap (λ n. some (height_for_transaction n)) (read_number-big_endian 32 id r)
decode_key-key_of (commit h) r = ap (λ n. some (commit n)) (read_number-big_endian 8 h r)
decode_key-key_of (header h) r = ap (λ n. some (header n)) (read_number-big_endian 8 h r)
decode_key-key_of (events h t) r = rw (
  take-big_endian 8 8 h t,
  drop-big_endian 8 8 h t,
  read_number-big_endian 8 h r.0,
  read_number-big_endian 8 t r.1,
)
decode_key-key_of (payload p h) r = rw (
  take-big_endian 32 8 p h,
  drop-big_endian 32 8 p h,
  read_number-big_endian 32 p r.0,
  read_number-big_endian 8 h r.1,
)
decode_key-key_of (transaction id) r =
    ap (λ n. some (transaction n)) (read_number-big_endian 32 id r)
decode_key-key_of (collection id) r = ap (λ n. some (collection n)) (read_number-big_endian 32 id r)
decode_key-key_of (guarantee id) r = ap (λ n. some (guarantee n)) (read_number-big_endian 32 id r)
decode_key-key_of (transactions_for_height h) r =
    ap (λ n. some (transactions_for_height n)) (read_number-big_endian 8 h r)
decode_key-key_of (transactions_for_collection id) r =
    ap (λ n. some (transactions_for_collection n)) (read_number-big_endian 32 id r)
decode_key-key_of (collections_for_height h) r =
    ap (λ n. some (collections_for_height n)) (read_number-big_endian 8 h r)
decode_key-key_of (results id) r = ap (λ n. some (results n)) (read_number-big_endian 32 id r)
decode_key-key_of (seal id) r = ap (λ n. some (seal n)) (read_number-big_endian 32 id r)
decode_key-key_of (seals_for_height h) r =
    ap (λ n. some (seals_for_height n)) (read_number-big_endian 8 h r)

-- Two entries with the same key are the same entry, when their heights and hashes are uint64 and
-- their identifiers and paths have 32 bytes.
pub key_of-injective : (d e : Entry) → InRange d → InRange e → key_of d ≡ key_of e → d ≡ e
key_of-injective d e r s q =
    some_eq (sym (decode_key-key_of d r) ∙ ap decode_key q ∙ decode_key-key_of e s)
