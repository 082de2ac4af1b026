-- ===== src/Invoker/Keys.antt =====
-- The keys of the register cache in service/invoker/read.go.
use flow_dps.Base.{
  ℕ, zero, suc, ◌+◌, ◌-◌, ◌*◌, ◌/◌, ◌%◌, ◌^◌, ◌<◌, ltb, List, [], ◌∷◌, ◌++◌, ◌≡◌, ◌≢◌, refl, sym,
  ap, ◌∙◌, All, if_split, arith,
}
use native.Mathlib.Nat.{pow-suc}
use flow_dps.Invoker.{Request, digits, hex, hex_digit, cache_key}

-- A text without the slash.
unfoldable Plain : List ℕ → Type 0
Plain [] = Unit
Plain (x ∷ xs) = (x ≢ 47) × Plain xs

Plain-append : (xs ys : List ℕ) → Plain xs → Plain ys → Plain (xs ++ ys)
unfolding Plain
Plain-append [] ys a b = b
Plain-append (x ∷ xs) ys a b = (a.0, Plain-append xs ys a.1 b)

-- The text up to the first slash, and the text behind it.
split_slash :
    (xs ys r s : List ℕ) → Plain xs → Plain ys → xs ++ 47 ∷ r ≡ ys ++ 47 ∷ s → (xs ≡ ys) × (r ≡ s)
unfolding Plain
split_slash [] [] r s a b e = (refl, cc)
split_slash [] (y ∷ ys) r s a b e = absurd (b.0 cc)
split_slash (x ∷ xs) [] r s a b e = absurd (a.0 cc)
split_slash (x ∷ xs) (y ∷ ys) r s a b e =
    let (p, q) = split_slash xs ys r s a.1 b.1 cc in
    let first : x ≡ y = cc in ((λ i. first i ∷ p i), q)

digits-Plain : (fuel n : ℕ) → Plain (digits fuel n)
unfolding digits Plain
digits-Plain zero n = tt
digits-Plain (suc fuel) n =
    if_split Plain (ltb n 10) ((48 + n) ∷ []) (digits fuel (n / 10) ++ (48 + n % 10) ∷ [])
      (λ e. ((λ q. omega arith), tt))
      (λ e.
        Plain-append (digits fuel (n / 10)) ((48 + n % 10) ∷ []) (digits-Plain fuel (n / 10))
          ((λ q. omega arith), tt))

hex-Plain : (bs : List ℕ) → Plain (hex bs)
unfolding hex Plain
hex-Plain [] = tt
hex-Plain (b ∷ bs) = ((λ e. ground (arith, e)), ((λ e. ground (arith, e)), hex-Plain bs))

-- The number that digits spell.
unfoldable spelled : ℕ → List ℕ → ℕ
spelled acc [] = acc
spelled acc (d ∷ ds) = spelled (acc * 10 + (d - 48)) ds

spelled-snoc :
    (acc d : ℕ) (ds : List ℕ) → spelled acc (ds ++ d ∷ []) ≡ spelled acc ds * 10 + (d - 48)
unfolding spelled
spelled-snoc acc d [] = refl
spelled-snoc acc d (x ∷ ds) = spelled-snoc (acc * 10 + (x - 48)) d ds

spelled-digits : (fuel n : ℕ) → n < 10 ^ fuel → spelled 0 (digits fuel n) ≡ n
unfolding spelled digits
spelled-digits zero n lt = omega arith
spelled-digits (suc fuel) n lt =
    if_split (λ ds. spelled 0 ds ≡ n) (ltb n 10) ((48 + n) ∷ [])
      (digits fuel (n / 10) ++ (48 + n % 10) ∷ []) (λ e. omega arith)
      (λ e. omega (
        arith,
        spelled-snoc 0 (48 + n % 10) (digits fuel (n / 10)),
        spelled-digits fuel (n / 10) (omega (arith, pow-suc 10 fuel)),
      ))

hex-injective :
    (xs ys : List ℕ) → All (λ b. b < 256) xs → All (λ b. b < 256) ys → hex xs ≡ hex ys → xs ≡ ys
unfolding hex
hex-injective [] [] a b e = refl
hex-injective [] (y ∷ ys) a b e = cc
hex-injective (x ∷ xs) [] a b e = cc
hex-injective (x ∷ xs) (y ∷ ys) a b e =
    let high : hex_digit (x / 16) ≡ hex_digit (y / 16) = cc in
    let low : hex_digit (x % 16) ≡ hex_digit (y % 16) = cc in
    let rest : xs ≡ ys = hex-injective xs ys a.1 b.1 cc in
    let first : x ≡ y = ground (arith, high, low, a.0, b.0) in λ i. first i ∷ rest i

-- Heights are uint64 and strings consist of bytes.
abbrev pub InRange : Request → Type 0
InRange r = (r.height < 2 ^ 64) × All (λ b. b < 256) r.owner × All (λ b. b < 256) r.controller

-- No two registers or heights share a key of the cache.
pub cache_key-injective :
    (r s : Request) → InRange r → InRange s → cache_key r ≡ cache_key s → r ≡ s
unfolding cache_key
cache_key-injective r s a b e =
    let (h, e1) =
      split_slash (digits 20 r.height) (digits 20 s.height)
        (hex r.owner ++ (47 ∷ (hex r.controller ++ (47 ∷ r.key))))
        (hex s.owner ++ (47 ∷ (hex s.controller ++ (47 ∷ s.key)))) (digits-Plain 20 r.height)
        (digits-Plain 20 s.height) e in
    let (o, e2) =
      split_slash (hex r.owner) (hex s.owner) (hex r.controller ++ (47 ∷ r.key))
        (hex s.controller ++ (47 ∷ s.key)) (hex-Plain r.owner) (hex-Plain s.owner) e1 in
    let (c, k) =
      split_slash (hex r.controller) (hex s.controller) r.key s.key (hex-Plain r.controller)
        (hex-Plain s.controller) e2 in
    let height =
      sym (spelled-digits 20 r.height (omega (arith, a.0)))
      ∙ ap (spelled 0) h
      ∙ spelled-digits 20 s.height (omega (arith, b.0)) in
    let owner = hex-injective r.owner s.owner a.1 b.1 o in
    let controller = hex-injective r.controller s.controller a.2 b.2 c in
    λ i. record { height = height i; owner = owner i; controller = controller i; key = k i }
