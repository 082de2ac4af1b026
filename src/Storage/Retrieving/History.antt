-- ===== src/Storage/Retrieving/History.antt =====
-- RetrievePayload of service/storage/operations.go over the history of a register. What is used of
-- Badger is what it documents of an iterator in reverse: after a Seek it stands on the greatest key
-- that is at most the given one.
use flow_dps.Base.{
  ℕ, ◌<◌, ◌≤◌, leb, ltb, ◌≡◌, ◌≢◌, refl, sym, ◌∙◌, ap, subst, true, none, some, List, [], ◌∷◌, ◌++◌,
  arith, length, take, Bool-cases, Option-cases, inl, inr, if◌then◌else◌,
}
use flow_dps.Base.Outcome.{ok, err, not_found, ok-injective}
use flow_dps.Storage.Encoding.{big_endian}
use flow_dps.Storage.Encoding.Order.{
  bytes_leb, bytes_leb-append, bytes_leb-big_endian, has_prefix, length-big_endian,
  has_prefix-between, big_endian-injective,
}
use flow_dps.Storage.Library.{Badger, Values, Key}
use flow_dps.Storage.Retrieving.{retrieve_payload, payload_at}
use flow_dps.Storage.Entries.{Entry, payload, key_of, IsHeight, IsArray, InRange, take-big_endian}

-- What Badger documents of an iterator in reverse.
pub record IsReverse (B : Badger) : Type 0 where
  -- it stands on a key of the database that is at most the one sought
  pub seek-sound :
      (key : Key) (tx : B.Txn) {k v : List ℕ}
      → B.seek_reverse key tx ≡ some (k, v)
      → (B.get k tx ≡ ok v) × (bytes_leb k key ≡ true)
  -- and no key of the database up to the one sought is greater
  pub seek-greatest :
      (key : Key) (tx : B.Txn) {k v : List ℕ}
      → B.get k tx ≡ ok v
      → bytes_leb k key ≡ true
      → (k' : List ℕ) × (v' : List ℕ) × (B.seek_reverse key tx ≡ some (k', v'))
        × (bytes_leb k k' ≡ true)

-- Only the library writes to the database.
abbrev pub OnlyEntries : (B : Badger) → B.Txn → Type 0
OnlyEntries B tx =
    (k : Key) (v : List ℕ) → B.get k tx ≡ ok v → (e : Entry) × InRange e × (key_of e ≡ k)

abbrev payload_prefix : ℕ → List ℕ
payload_prefix p = 6 ∷ big_endian 32 p

has_prefix-take : (p key : List ℕ) → has_prefix p key ≡ true → take (length p) key ≡ p
unfolding has_prefix
has_prefix-take [] key h = refl
has_prefix-take (x ∷ p) [] h = ground arith
has_prefix-take (x ∷ p) (y ∷ key) h = ground (arith, has_prefix-take p key)

key_of-order :
    (p h k : ℕ)
    → IsHeight h
    → IsHeight k
    → bytes_leb (key_of (payload p h)) (key_of (payload p k)) ≡ leb h k
unfolding key_of
key_of-order p h k a b =
    bytes_leb-append (payload_prefix p) (big_endian 8 h) (big_endian 8 k)
    ∙ bytes_leb-big_endian 8 h k a b

same_path :
    (p q h : ℕ)
    → IsArray p
    → IsArray q
    → has_prefix (big_endian 32 p) (big_endian 32 q ++ big_endian 8 h) ≡ true
    → q ≡ p
same_path p q h a b e = sym (
    big_endian-injective 32 p q a b (
      sym (has_prefix-take (big_endian 32 p) (big_endian 32 q ++ big_endian 8 h) e)
      ∙ ap (λ n. take n (big_endian 32 q ++ big_endian 8 h)) (length-big_endian 32 p)
      ∙ take-big_endian 32 8 q h))

-- A key behind the prefix of a path is the key of a payload of that path.
payload_key :
    (p : ℕ) (e : Entry)
    → IsArray p
    → InRange e
    → has_prefix (payload_prefix p) (key_of e) ≡ true
    → (h : ℕ) × IsHeight h × (e ≡ payload p h)
unfolding has_prefix key_of
payload_key p (payload q k) a r h = (k, r.1, ap (λ x. payload x k) (same_path p q k a r.0 h))
payload_key p _ a r h = ground arith

-- RetrievePayload by what its iterator finds.
retrieve-found :
    (B : Badger) (V : Values) (height p : ℕ) (tx : B.Txn) {k v : List ℕ}
    → B.seek_reverse (key_of (payload p height)) tx ≡ some (k, v)
    → retrieve_payload B V height p tx
      ≡ (if has_prefix (payload_prefix p) k then V.payload.unmarshal v else err not_found)
unfolding retrieve_payload payload_at key_of
retrieve-found B V height p tx e = rw (e, take-big_endian 32 8 p height)

retrieve-none :
    (B : Badger) (V : Values) (height p : ℕ) (tx : B.Txn)
    → B.seek_reverse (key_of (payload p height)) tx ≡ none
    → retrieve_payload B V height p tx ≡ err not_found
unfolding retrieve_payload payload_at key_of
retrieve-none B V height p tx e = rw e

leb-true : (a b : ℕ) → a ≤ b → leb a b ≡ true
leb-true a b h = ground arith

leb_le : (a b : ℕ) → leb a b ≡ true → a ≤ b
leb_le a b h = ground arith

module _ (B : Badger) (V : Values) (rev : IsReverse B) (tx : B.Txn) (only : OnlyEntries B tx)
    (p height : ℕ) (pr : IsArray p) (hr : IsHeight height) where
  -- What the iterator finds with the right prefix is a payload of the path at a height up to the
  -- one asked for.
  found_payload :
      {k v : List ℕ}
      → B.seek_reverse (key_of (payload p height)) tx ≡ some (k, v)
      → has_prefix (payload_prefix p) k ≡ true
      → (h : ℕ) × IsHeight h × (key_of (payload p h) ≡ k) × (leb h height ≡ true)
  found_payload {k} {v} e pre =
      let (got, below) = rev.seek-sound (key_of (payload p height)) tx e in
      let (x, xr, kx) = only k v got in
      let (h, hh, xe) =
        payload_key p x pr xr (subst (λ l. has_prefix (payload_prefix p) l ≡ true) (sym kx) pre) in
      let ke = ap key_of (sym xe) ∙ kx in
      (
        h,
        hh,
        ke,
        sym (key_of-order p h height hh hr)
            ∙ ap (λ l. bytes_leb l (key_of (payload p height))) ke
            ∙ below,
      )

  below_height : (h : ℕ) → h ≤ height → IsHeight h
  below_height h le = omega arith

  between_prefix :
      (h0 : ℕ) (k : List ℕ)
      → bytes_leb (key_of (payload p h0)) k ≡ true
      → bytes_leb k (key_of (payload p height)) ≡ true
      → has_prefix (payload_prefix p) k ≡ true
  unfolding key_of
  between_prefix h0 k =
      has_prefix-between (payload_prefix p) (big_endian 8 h0) (big_endian 8 height) k

  last_change :
      (h0 h : ℕ) (v : List ℕ)
      → leb h0 h ≡ true
      → leb h height ≡ true
      → B.get (key_of (payload p h)) tx ≡ ok v
      → ((h : ℕ) (v : List ℕ) → h0 < h → h ≤ height → B.get (key_of (payload p h)) tx ≢ ok v)
      → h ≡ h0
  last_change h0 h v a b got later = elim (Bool-cases (ltb h0 h)) [
    | inl lt ↦ absurd (later h v (ground arith) (leb_le h height b) got)
    | inr ge ↦ ground arith
  ]

  -- The payload of a register at a height is the one of its last change up to that height: with a
  -- change at `h0` and none from there up to `height`, it is what the entry of `h0` decodes to.
  pub retrieve_payload-latest :
      (h0 : ℕ) (v0 : List ℕ)
      → h0 ≤ height
      → B.get (key_of (payload p h0)) tx ≡ ok v0
      → ((h : ℕ) (v : List ℕ) → h0 < h → h ≤ height → B.get (key_of (payload p h)) tx ≢ ok v)
      → retrieve_payload B V height p tx ≡ V.payload.unmarshal v0
  retrieve_payload-latest h0 v0 le got later =
      let hr0 = below_height h0 le in
      let (k, v, sought, above) =
        rev.seek-greatest (key_of (payload p height)) tx got
          (key_of-order p h0 height hr0 hr ∙ leb-true h0 height le) in
      let (got_k, below) = rev.seek-sound (key_of (payload p height)) tx sought in
      let pre = between_prefix h0 k above below in
      let (h, hh, ke, up) = found_payload sought pre in
      let h0_le =
        sym (key_of-order p h0 h hr0 hh) ∙ ap (bytes_leb (key_of (payload p h0))) ke ∙ above in
      let got_h = ap (λ l. B.get l tx) ke ∙ got_k in
      let same = last_change h0 h v h0_le up got_h later in
      let same_value = sym got_h ∙ ap (λ x. B.get (key_of (payload p x)) tx) same ∙ got in
      retrieve-found B V height p tx sought
      ∙ (rw pre)
      ∙ ap V.payload.unmarshal (ok-injective same_value)

  -- Without a change up to the height, it reports that there is none.
  pub retrieve_payload-missing :
      ((h : ℕ) (v : List ℕ) → h ≤ height → B.get (key_of (payload p h)) tx ≢ ok v)
      → retrieve_payload B V height p tx ≡ err not_found
  retrieve_payload-missing none_up =
      elim (Option-cases (B.seek_reverse (key_of (payload p height)) tx)) [
        | inl e ↦ retrieve-none B V height p tx e
        | inr ((k, v), e) ↦ elim (Bool-cases (has_prefix (payload_prefix p) k)) [
          | inl pre ↦
              let (h, hh, ke, up) = found_payload e pre in
              absurd (
                none_up h v (leb_le h height up)
                  (ap (λ l. B.get l tx) ke ∙ (rev.seek-sound (key_of (payload p height)) tx e).0))
          | inr pre ↦ retrieve-found B V height p tx e ∙ (rw pre)
        ]
      ]
