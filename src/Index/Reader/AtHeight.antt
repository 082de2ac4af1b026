-- ===== src/Index/Reader/AtHeight.antt =====
-- What Values and Events of service/index/reader.go answer for a height.
use flow_dps.Base.{
  ℕ, ◌≤◌, ◌<◌, ltb, ◌||◌, ◌≡◌, ◌≢◌, ◌⊎◌, refl, true, false, Option, none, some, List, [], ◌∷◌,
  arith,
}
use flow_dps.Base.Outcome.{ok, err, invalid_height}
use flow_dps.Storage.Library.{Badger, Values}
use flow_dps.Storage.Retrieving.History.{
  IsReverse, OnlyEntries, retrieve_payload-latest, retrieve_payload-missing,
}
use flow_dps.Storage.Entries.{key_of, payload, IsHeight, IsArray}
use flow_dps.Index.Reader.{first, last, values, events, read_values}

module _ (B : Badger) (V : Values) (tx : B.Txn) (height : ℕ) where
  -- The last change of the path up to the height is the payload `x`, in the entry of `h0`.
  pub record LastChange (p : ℕ) (x : V.Payload) : Type 0 where
    pub h0 : ℕ
    pub v0 : List ℕ
    pub at_most : h0 ≤ height
    pub stored : B.get (key_of (payload p h0)) tx ≡ ok v0
    pub decoded : V.payload.unmarshal v0 ≡ ok x
    pub no_later :
        (h : ℕ) (v : List ℕ) → h0 < h → h ≤ height → B.get (key_of (payload p h)) tx ≢ ok v

  -- The value of a register as the history of its changes defines it.
  abbrev pub ValueAt : ℕ → Option V.Value → Type 0
  ValueAt p none = (h : ℕ) (v : List ℕ) → h ≤ height → B.get (key_of (payload p h)) tx ≢ ok v
  ValueAt p (some val) = (x : V.Payload) × LastChange p x × (V.payload_value x ≡ val)

  abbrev pub ValuesAt : List ℕ → List (Option V.Value) → Type 0
  ValuesAt [] [] = Unit
  ValuesAt (p ∷ ps) (o ∷ os) = IsArray p × ValueAt p o × ValuesAt ps os
  ValuesAt _ _ = ⊥

module _ (B : Badger) (V : Values) (rev : IsReverse B) (tx : B.Txn) (only : OnlyEntries B tx)
    (height : ℕ) (hr : IsHeight height) where
  read_values-lem :
      (ps : List ℕ) (os : List (Option V.Value))
      → ValuesAt B V tx height ps os
      → read_values B V height ps tx ≡ ok os
  unfolding read_values
  read_values-lem [] [] h = refl
  read_values-lem [] (o ∷ os) h = absurd h
  read_values-lem (p ∷ ps) [] h = absurd h
  read_values-lem (p ∷ ps) (none ∷ os) h =
      rw (retrieve_payload-missing B V rev tx only p height h.0 hr h.1, read_values-lem ps os h.2)
  read_values-lem (p ∷ ps) (some val ∷ os) h =
      let c = h.1.1 in
      rw (
        retrieve_payload-latest B V rev tx only p height h.0 hr c.h0 c.v0 c.at_most c.stored
            c.no_later,
        c.decoded,
        read_values-lem ps os h.2,
        h.1.2,
      )

  -- The reader answers, for each path, with the value of the register as the history of its changes
  -- up to the height defines it, and with nil where there was none, if the height is between the first and the
  -- last indexed one.
  pub values-history :
      (f l : ℕ) (ps : List ℕ) (os : List (Option V.Value))
      → first B V tx ≡ ok f
      → last B V tx ≡ ok l
      → f ≤ height
      → height ≤ l
      → ValuesAt B V tx height ps os
      → values B V height ps tx ≡ ok os
  unfolding values
  values-history f l ps os fe le a b h = rw (fe, le, read_values-lem ps os h, in_range)
    where
      in_range : (ltb height f || ltb l height) ≡ false
      in_range = ground arith

-- Outside the indexed range, neither registers nor events are read.
pub out_of_range :
    (B : Badger) (V : Values) (tx : B.Txn) (height f l : ℕ) (ps types : List ℕ)
    → first B V tx ≡ ok f
    → last B V tx ≡ ok l
    → (height < f) ⊎ (l < height)
    → (values B V height ps tx ≡ err invalid_height)
      × (events B V height types tx ≡ err invalid_height)
unfolding values events
out_of_range B V tx height f l ps types fe le o = (rw (fe, le, outside), rw (fe, le, outside))
  where
    outside : (ltb height f || ltb l height) ≡ true
    outside = ground arith
