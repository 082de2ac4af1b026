-- ===== src/Storage/Library/RoundTrip.antt =====
-- Saving and retrieving in service/storage/operations.go, over a database that returns what was set.
use flow_dps.Base.{
  ℕ, ◌==◌, ◌≡◌, ◌≢◌, ◌⊎◌, inl, inr, refl, sym, ◌∙◌, ap, List, [], ◌∷◌, arith, Bool-cases, ==_iff,
}
use flow_dps.Base.Outcome.{Result, ok, err}
use flow_dps.Storage.Library.{
  Badger, Values, Codec, Key, retrieve, save, set_marshalled, then_unmarshal,
}
use flow_dps.Storage.Retrieving.{retrieve_payload}
use flow_dps.Storage.Retrieving.History.{IsReverse, OnlyEntries, retrieve_payload-latest}
use flow_dps.Storage.Entries.{Entry, payload, key_of, InRange, IsArray, IsHeight}

-- A transaction reads what it has set.
pub record IsStore (B : Badger) : Type 0 where
  pub get-set :
      (k : Key) (v : List ℕ) (tx : B.Txn)
      → (B.set k v tx).0 ≡ ok tt
      → B.get k (B.set k v tx).1 ≡ ok v
  pub get-set_other :
      (k j : Key) (v : List ℕ) (tx : B.Txn) → k ≢ j → B.get j (B.set k v tx).1 ≡ B.get j tx

-- What was encoded decodes to the same value.
abbrev pub IsCodec : {A : Type 0} → Codec A → Type 0
IsCodec {A} c = (a : A) (b : List ℕ) → c.marshal a ≡ ok b → c.unmarshal b ≡ ok a

cases-Key : (a b : Key) → (a ≡ b) ⊎ (a ≢ b)
cases-Key [] [] = inl refl
cases-Key [] (y ∷ b) = inr (λ e. ground arith)
cases-Key (x ∷ a) [] = inr (λ e. ground arith)
cases-Key (x ∷ a) (y ∷ b) = elim (Bool-cases (x == y)) [
  | inl e ↦ elim (cases-Key a b) [
    | inl q ↦ inl (λ i. (==_iff x y).0 e i ∷ q i)
    | inr n ↦ inr (λ q. n (ground arith))
  ]
  | inr e ↦ inr (λ q. ground arith)
]

-- The database holds the encoding of a value under a key.
abbrev pub Holds : {A : Type 0} (B : Badger) → Codec A → Key → A → B.Txn → Type 0
Holds B c k a tx = (v : List ℕ) × (c.marshal a ≡ ok v) × (B.get k tx ≡ ok v)

module _ (B : Badger) {A : Type 0} (c : Codec A) (law : IsCodec c) where
  pub retrieve-Holds : (k : Key) (a : A) (tx : B.Txn) → Holds B c k a tx → retrieve B c k tx ≡ ok a
  unfolding retrieve
  retrieve-Holds k a tx (v, m, got) = ap (then_unmarshal c) got ∙ law a v m

module _ (B : Badger) (store : IsStore B) where
  get-set_marshalled :
      (k j : Key) (r : Result (List ℕ)) (tx : B.Txn)
      → k ≢ j
      → B.get j (set_marshalled B k r tx).1 ≡ B.get j tx
  unfolding set_marshalled
  get-set_marshalled k j (ok v) tx n = store.get-set_other k j v tx n
  get-set_marshalled k j (err e) tx n = refl

  get-saved :
      {A : Type 0} (c : Codec A)
      → (k : Key) (a : A) (r : Result (List ℕ)) (tx : B.Txn) → c.marshal a ≡ r
      → (set_marshalled B k r tx).0 ≡ ok tt
      → Holds B c k a (set_marshalled B k r tx).1
  unfolding set_marshalled
  get-saved c k a (ok v) tx m s = (v, m, store.get-set k v tx s)
  get-saved c k a (err e) tx m s = ground arith

  module _ {A : Type 0} (c : Codec A) (k : Key) (a : A) (tx : B.Txn) where
    pub save-Holds : (save B c k a tx).0 ≡ ok tt → Holds B c k a (save B c k a tx).1
    unfolding save
    save-Holds s = get-saved c k a (c.marshal a) tx refl s

    get-save_other : (j : Key) → k ≢ j → B.get j (save B c k a tx).1 ≡ B.get j tx
    unfolding save
    get-save_other j n = get-set_marshalled k j (c.marshal a) tx n

    pub retrieve-save_other :
        {D : Type 0} (f : Codec D) (j : Key)
        → k ≢ j
        → retrieve B f j (save B c k a tx).1 ≡ retrieve B f j tx
    unfolding retrieve
    retrieve-save_other f j n = ap (then_unmarshal f) (get-save_other j n)

    pub save-Holds_other :
        {D : Type 0} (f : Codec D) (j : Key) (d : D)
        → k ≢ j
        → Holds B f j d tx
        → Holds B f j d (save B c k a tx).1
    save-Holds_other f j d n (v, m, got) = (v, m, get-save_other j n ∙ got)

  -- Saving keeps a database in which only the library's entries are.
  pub save-OnlyEntries :
      {A : Type 0} (c : Codec A) (e : Entry) (a : A) (tx : B.Txn)
      → InRange e
      → OnlyEntries B tx
      → OnlyEntries B (save B c (key_of e) a tx).1
  save-OnlyEntries c e a tx r only k v got = elim (cases-Key (key_of e) k) [
    | inl q ↦ (e, r, q)
    | inr n ↦ only k v (sym (get-save_other c (key_of e) a tx k n) ∙ got)
  ]

-- A payload that is stored for a height is the one retrieved for that height, over any history.
pub retrieve_payload-Holds :
    (B : Badger) (V : Values) (tx : B.Txn) (height p : ℕ) (x : V.Payload)
    → IsCodec V.payload
    → IsReverse B
    → OnlyEntries B tx
    → IsArray p
    → IsHeight height
    → Holds B V.payload (key_of (payload p height)) x tx
    → retrieve_payload B V height p tx ≡ ok x
retrieve_payload-Holds B V tx height p x law rev only pr hr (v, m, got) =
    retrieve_payload-latest B V rev tx only p height pr hr height v (omega arith) got
      (λ h _ above le _. omega arith)
    ∙ law x v m
