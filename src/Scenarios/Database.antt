-- ===== src/Scenarios/Database.antt =====
-- A database as a list of settings, the newest first, that has what is used of Badger.
use flow_dps.Base.{
  ℕ, ◌==◌, ◌≡◌, ◌≢◌, refl, sym, ◌∙◌, ap, subst, arith, Bool, true, false, Option, some, none, List,
  [], ◌∷◌, if◌then◌else◌, Bool-cases, if_split, inl, inr, ==_iff,
}
use flow_dps.Base.Outcome.{ok, err, not_found, Result}
use flow_dps.Storage.Encoding.Order.{bytes_leb}
use flow_dps.Storage.Library.{Badger, Key}
use flow_dps.Storage.Retrieving.History.{IsReverse}
use flow_dps.Storage.Library.RoundTrip.{IsStore}

abbrev pub Pairs : Type 0
Pairs = List (Key × List ℕ)

abbrev pub same_key : Key → Key → Bool
same_key [] [] = true
same_key (x ∷ a) (y ∷ b) = let rest = same_key a b in if x == y then rest else false
same_key _ _ = false

abbrev pub get : Key → Pairs → Result (List ℕ)
get k [] = err not_found
get k ((j, v) ∷ m) = let rest = get k m in if same_key j k then ok v else rest

abbrev greater : Key × List ℕ → Option (Key × List ℕ) → Option (Key × List ℕ)
greater (j, v) none = some (j, v)
greater (j, v) (some (k, u)) = if bytes_leb k j then some (j, v) else some (k, u)

abbrev seek : Key → Pairs → Option (Key × List ℕ)
seek key [] = none
seek key ((j, v) ∷ m) =
    let rest = seek key m in if bytes_leb j key then greater (j, v) rest else rest

abbrev pub database : Badger
database = record {
  Txn = Pairs;
  get = get;
  set = λ k v m. (ok tt, (k, v) ∷ m);
  seek_reverse = seek;
  scan = λ prefix m. [];
}

same_key_refl : (a : Key) → same_key a a ≡ true
same_key_refl [] = refl
same_key_refl (x ∷ a) = ground (arith, same_key_refl a)

pub same_key_eq : (a b : Key) → same_key a b ≡ true → a ≡ b
same_key_eq [] [] e = refl
same_key_eq [] (y ∷ b) e = ground arith
same_key_eq (x ∷ a) [] e = ground arith
same_key_eq (x ∷ a) (y ∷ b) e = elim (Bool-cases (x == y)) [
  | inl q ↦ λ i. (==_iff x y).0 q i ∷ same_key_eq a b (ground arith) i
  | inr q ↦ ground arith
]

bytes_leb_refl : (a : Key) → bytes_leb a a ≡ true
unfolding bytes_leb
bytes_leb_refl [] = refl
bytes_leb_refl (x ∷ a) = ground (arith, bytes_leb_refl a)

bytes_leb_total : (a b : Key) → bytes_leb a b ≡ false → bytes_leb b a ≡ true
unfolding bytes_leb
bytes_leb_total [] b e = ground arith
bytes_leb_total (x ∷ a) [] e = refl
bytes_leb_total (x ∷ a) (y ∷ b) e = ground (arith, bytes_leb_total a b)

bytes_leb_trans : (a b c : Key) → bytes_leb a b ≡ true → bytes_leb b c ≡ true → bytes_leb a c ≡ true
unfolding bytes_leb
bytes_leb_trans [] b c h k = refl
bytes_leb_trans (x ∷ a) [] c h k = ground arith
bytes_leb_trans (x ∷ a) (y ∷ b) [] h k = ground arith
bytes_leb_trans (x ∷ a) (y ∷ b) (z ∷ c) h k = ground (arith, bytes_leb_trans a b c)

not_same : (a b : Key) → a ≢ b → same_key a b ≡ false
not_same a b n = elim (Bool-cases (same_key a b)) [
  | inl e ↦ absurd (n (same_key_eq a b e))
  | inr e ↦ e
]

pub database-IsStore : IsStore database
database-IsStore = record {
  get-set = λ k v tx _. (rw (same_key_refl k));
  get-set_other = λ k j v tx n. (rw (not_same k j n));
}

abbrev Sound : Key → Pairs → Option (Key × List ℕ) → Type 0
Sound key m none = Unit
Sound key m (some (k, v)) = (get k m ≡ ok v) × (bytes_leb k key ≡ true)

Sound-cons :
    (key j k : Key) (u v : List ℕ) (m : Pairs)
    → same_key j k ≡ false
    → Sound key m (some (k, v))
    → Sound key ((j, u) ∷ m) (some (k, v))
Sound-cons key j k u v m n h = ((rw n) ∙ h.0, h.1)

skip-Sound :
    (key j : Key) (u : List ℕ) (m : Pairs) (o : Option (Key × List ℕ))
    → bytes_leb j key ≡ false
    → Sound key m o
    → Sound key ((j, u) ∷ m) o
skip-Sound key j u m none b h = tt
skip-Sound key j u m (some (k, v)) b h =
    Sound-cons key j k u v m (not_same j k (λ e. ground (arith, ap (λ l. bytes_leb l key) e))) h

greater-Sound :
    (key j : Key) (u : List ℕ) (m : Pairs) (o : Option (Key × List ℕ))
    → bytes_leb j key ≡ true
    → Sound key m o
    → Sound key ((j, u) ∷ m) (greater (j, u) o)
greater-Sound key j u m none b h = (rw (same_key_refl j), b)
greater-Sound key j u m (some (k, v)) b h =
    if_split (Sound key ((j, u) ∷ m)) (bytes_leb k j) (some (j, u)) (some (k, v))
      (λ _. (rw (same_key_refl j), b))
      (λ q.
        Sound-cons key j k u v m
          (not_same j k (λ e. ground (arith, ap (bytes_leb k) e, bytes_leb_refl k))) h)

seek-Sound : (key : Key) (m : Pairs) → Sound key m (seek key m)
seek-Sound key [] = tt
seek-Sound key ((j, u) ∷ m) =
    if_split (Sound key ((j, u) ∷ m)) (bytes_leb j key) (greater (j, u) (seek key m)) (seek key m)
      (λ b. greater-Sound key j u m (seek key m) b (seek-Sound key m))
      (λ b. skip-Sound key j u m (seek key m) b (seek-Sound key m))

abbrev Above : Key → Option (Key × List ℕ) → Type 0
Above k none = ⊥
Above k (some (j, v)) = bytes_leb k j ≡ true

greater-Above :
    (k j : Key) (u : List ℕ) (o : Option (Key × List ℕ)) → Above k o → Above k (greater (j, u) o)
greater-Above k j u none h = absurd h
greater-Above k j u (some (i, v)) h =
    if_split (Above k) (bytes_leb i j) (some (j, u)) (some (i, v)) (λ q. bytes_leb_trans k i j h q)
      (λ _. h)

greater-Above_self : (j : Key) (u : List ℕ) (o : Option (Key × List ℕ)) → Above j (greater (j, u) o)
greater-Above_self j u none = bytes_leb_refl j
greater-Above_self j u (some (i, v)) =
    if_split (Above j) (bytes_leb i j) (some (j, u)) (some (i, v)) (λ _. bytes_leb_refl j)
      (bytes_leb_total i j)

seek-Above :
    (key : Key) (m : Pairs) (k v : List ℕ)
    → get k m ≡ ok v
    → bytes_leb k key ≡ true
    → Above k (seek key m)
seek-Above key [] k v e b = ground arith
seek-Above key ((j, u) ∷ m) k v e b = elim (Bool-cases (same_key j k)) [
  | inl q ↦
      subst (λ l. bytes_leb l key ≡ true → Above l (seek key ((j, u) ∷ m))) (same_key_eq j k q)
        (λ c. subst (Above j) (sym (picked c)) (greater-Above_self j u (seek key m))) b
  | inr q ↦
      if_split (Above k) (bytes_leb j key) (greater (j, u) (seek key m)) (seek key m)
        (λ _. greater-Above k j u (seek key m) (later q (λ g. seek-Above key m k v g b)))
        (λ _. later q (λ g. seek-Above key m k v g b))
]
  where
    picked : bytes_leb j key ≡ true → seek key ((j, u) ∷ m) ≡ greater (j, u) (seek key m)
    picked c = rw c

    later : same_key j k ≡ false → (get k m ≡ ok v → Above k (seek key m)) → Above k (seek key m)
    later q below = below (ground arith)

found :
    (k : Key) (o : Option (Key × List ℕ))
    → Above k o
    → (k' : List ℕ) × (v' : List ℕ) × (o ≡ some (k', v')) × (bytes_leb k k' ≡ true)
found k none h = absurd h
found k (some (j, v)) h = (j, v, refl, h)

pub database-IsReverse : IsReverse database
database-IsReverse = record {
  seek-sound = λ key m {k} {v} e. subst (Sound key m) e (seek-Sound key m);
  seek-greatest = λ key m {k} {v} e b. found k (seek key m) (seek-Above key m k v e b);
}
