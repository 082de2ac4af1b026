-- ===== src/Storage/Encoding/Order.antt =====
-- The order of the keys of service/storage/encoding.go: Badger compares them as bytes.Compare does.
use Prim.Native.Nat.pow
use flow_dps.Base.{
  ℕ, zero, suc, ◌+◌, ◌*◌, ◌/◌, ◌%◌, ◌^◌, ◌<◌, ◌==◌, ltb, leb, ◌≡◌, ◌≢◌, refl, sym, ◌∙◌, ap, Bool,
  true, false, List, [], ◌∷◌, ◌++◌, arith, length, length-append, if◌then◌else◌, Bool-cases, inl,
  inr, ==_iff,
}
use flow_dps.Storage.Encoding.{big_endian}

-- bytes.Compare(a, b) <= 0
unfoldable pub bytes_leb : List ℕ → List ℕ → Bool
bytes_leb [] ys = true
bytes_leb (x ∷ xs) [] = false
bytes_leb (x ∷ xs) (y ∷ ys) = let rest = bytes_leb xs ys in if x == y then rest else ltb x y

pub bytes_leb-append : (p a b : List ℕ) → bytes_leb (p ++ a) (p ++ b) ≡ bytes_leb a b
unfolding bytes_leb
bytes_leb-append [] a b = refl
bytes_leb-append (x ∷ p) a b = ground (arith, bytes_leb-append p a b)

bytes_leb-snoc :
    (a b : List ℕ) (c d : ℕ)
    → length a ≡ length b
    → a ≢ b
    → bytes_leb (a ++ c ∷ []) (b ++ d ∷ []) ≡ bytes_leb a b
unfolding bytes_leb
bytes_leb-snoc [] [] c d l n = absurd (n refl)
bytes_leb-snoc [] (y ∷ b) c d l n = ground arith
bytes_leb-snoc (x ∷ a) [] c d l n = ground arith
bytes_leb-snoc (x ∷ a) (y ∷ b) c d l n = elim (Bool-cases (x == y)) [
  | inl e ↦ rw (e, bytes_leb-snoc a b c d (omega arith) (λ q. n (λ i. (==_iff x y).0 e i ∷ q i)))
  | inr e ↦ rw (e)
]

pub length-big_endian : (n x : ℕ) → length (big_endian n x) ≡ n
unfolding big_endian
length-big_endian zero x = refl
length-big_endian (suc n) x =
    omega
      (arith, length-append (big_endian n (x / 256)) (x % 256 ∷ []), length-big_endian n (x / 256))

-- binary.BigEndian.Uint64, with the number read so far.
unfoldable pub read_number : ℕ → List ℕ → ℕ
read_number acc [] = acc
read_number acc (b ∷ bs) = read_number (acc * 256 + b) bs

read_number-snoc :
    (acc : ℕ) (bs : List ℕ) (b : ℕ) → read_number acc (bs ++ b ∷ []) ≡ read_number acc bs * 256 + b
unfolding read_number
read_number-snoc acc [] b = refl
read_number-snoc acc (x ∷ bs) b = read_number-snoc (acc * 256 + x) bs b

pow_suc : (n : ℕ) → 256 ^ suc n ≡ 256 * 256 ^ n
pow_suc n = pow.suc 256 n ∙ omega arith

pub read_number-big_endian : (n x : ℕ) → x < 256 ^ n → read_number 0 (big_endian n x) ≡ x
unfolding big_endian read_number
read_number-big_endian zero x h = omega arith
read_number-big_endian (suc n) x h =
    read_number-snoc 0 (big_endian n (x / 256)) (x % 256)
    ∙ omega (arith, pow_suc n, read_number-big_endian n (x / 256) (omega (arith, pow_suc n)))

pub big_endian-injective :
    (n x y : ℕ) → x < 256 ^ n → y < 256 ^ n → big_endian n x ≡ big_endian n y → x ≡ y
big_endian-injective n x y h k e =
    sym (read_number-big_endian n x h) ∙ ap (read_number 0) e ∙ read_number-big_endian n y k

-- The bytes of two numbers below 256 ^ n compare as the numbers do.
pub bytes_leb-big_endian :
    (n x y : ℕ) → x < 256 ^ n → y < 256 ^ n → bytes_leb (big_endian n x) (big_endian n y) ≡ leb x y
unfolding bytes_leb big_endian
bytes_leb-big_endian zero x y h k = ground arith
bytes_leb-big_endian (suc n) x y h k = elim (Bool-cases (x / 256 == y / 256)) [
  | inl e ↦ same e
  | inr e ↦
      bytes_leb-snoc (big_endian n (x / 256)) (big_endian n (y / 256)) (x % 256) (y % 256)
        (length-big_endian n (x / 256) ∙ sym (length-big_endian n (y / 256))) (λ q. differ e q)
      ∙ bytes_leb-big_endian n (x / 256) (y / 256) hx hy
      ∙ ground arith
]
  where
    hx : x / 256 < 256 ^ n
    hx = omega (arith, pow_suc n)

    hy : y / 256 < 256 ^ n
    hy = omega (arith, pow_suc n)

    differ : (x / 256 == y / 256) ≡ false → big_endian n (x / 256) ≢ big_endian n (y / 256)
    differ e q = ground (arith, big_endian-injective n (x / 256) (y / 256) hx hy q)

    same :
        (x / 256 == y / 256) ≡ true
        → bytes_leb
            (big_endian n (x / 256) ++ x % 256 ∷ [])
            (big_endian n (y / 256) ++ y % 256 ∷ [])
          ≡ leb x y
    same e =
        ap
          (λ z. bytes_leb (big_endian n (x / 256) ++ x % 256 ∷ []) (big_endian n z ++ y % 256 ∷ []))
          (sym ((==_iff (x / 256) (y / 256)).0 e))
        ∙ bytes_leb-append (big_endian n (x / 256)) (x % 256 ∷ []) (y % 256 ∷ [])
        ∙ ground arith

-- bytes.HasPrefix(key, prefix)
unfoldable pub has_prefix : List ℕ → List ℕ → Bool
has_prefix [] key = true
has_prefix (x ∷ p) [] = false
has_prefix (x ∷ p) (y ∷ key) = let rest = has_prefix p key in if x == y then rest else false

-- A key between two keys that share a prefix has that prefix.
pub has_prefix-between :
    (p a b key : List ℕ)
    → bytes_leb (p ++ a) key ≡ true
    → bytes_leb key (p ++ b) ≡ true
    → has_prefix p key ≡ true
unfolding has_prefix bytes_leb
has_prefix-between [] a b key h k = refl
has_prefix-between (x ∷ p) a b [] h k = ground arith
has_prefix-between (x ∷ p) a b (y ∷ key) h k = elim (Bool-cases (x == y)) [
  | inl e ↦ rw (e, has_prefix-between p a b key (ground arith) (ground arith))
  | inr e ↦ ground arith
]

pub has_prefix-append : (p a : List ℕ) → has_prefix p (p ++ a) ≡ true
unfolding has_prefix
has_prefix-append [] a = refl
has_prefix-append (x ∷ p) a = ground (arith, has_prefix-append p a)
