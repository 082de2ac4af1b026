-- ===== src/Index/Writer/Buckets.antt =====
-- Events of service/index/writer.go: how it sorts the events of a block by type.
use flow_dps.Base.{
  ℕ, ◌==◌, ◌≡◌, refl, sym, ◌∙◌, ap, Option, none, some, List, [], ◌∷◌, ◌++◌, if◌then◌else◌,
  Bool-cases, inl, inr, ==_iff,
}
use mathlib.Core.List.{append_assoc, append-nil}
use flow_dps.Base.Store.{Store, lookup, insert, lookup-insert}
use flow_dps.Storage.Library.{Badger, Values}
use flow_dps.Index.Writer.Calls.{buckets, or_empty}

module _ (B : Badger) (V : Values) where
  -- The events of one type, in the order of the list.
  abbrev pub of_type : ℕ → List V.Event → List V.Event
  of_type t [] = []
  of_type t (e ∷ es) = let rest = of_type t es in if V.event_type e == t then e ∷ rest else rest

  -- Adds the events of a type to what the map holds for it; a type without events has no bucket.
  abbrev pub joined : Option (List V.Event) → List V.Event → Option (List V.Event)
  joined none [] = none
  joined none (e ∷ es) = some (e ∷ es)
  joined (some es) fs = some (es ++ fs)

  joined-cons :
      (o : Option (List V.Event)) (e : V.Event) (es : List V.Event)
      → joined (some (or_empty B V o ++ e ∷ [])) es ≡ joined o (e ∷ es)
  joined-cons none e es = refl
  joined-cons (some fs) e es = ap some (append_assoc fs (e ∷ []) es)

  joined-nil : (o : Option (List V.Event)) → joined o [] ≡ o
  joined-nil none = refl
  joined-nil (some fs) = ap some (append-nil fs)

  -- The map after one round of the loop.
  abbrev grown : V.Event → Store (List V.Event) → Store (List V.Event)
  grown e m = insert (V.event_type e) (or_empty B V (lookup (V.event_type e) m) ++ e ∷ []) m

  joined-bucket :
      (t : ℕ) (e : V.Event) (es : List V.Event) (m : Store (List V.Event))
      → joined
          (if V.event_type e == t
            then some (or_empty B V (lookup (V.event_type e) m) ++ e ∷ [])
            else lookup t m)
          (of_type t es)
        ≡ joined (lookup t m) (of_type t (e ∷ es))
  joined-bucket t e es m = elim (Bool-cases (V.event_type e == t)) [
    | inl q ↦
        (rw q)
        ∙ ap (λ u. joined (some (or_empty B V (lookup u m) ++ e ∷ [])) (of_type t es))
            ((==_iff (V.event_type e) t).0 q)
        ∙ joined-cons (lookup t m) e (of_type t es)
        ∙ sym (rw q)
    | inr q ↦ rw q
  ]

  lookup-buckets_from :
      (t : ℕ) (es : List V.Event) (m : Store (List V.Event))
      → lookup t (buckets B V es m) ≡ joined (lookup t m) (of_type t es)
  unfolding buckets
  lookup-buckets_from t [] m = sym (joined-nil (lookup t m))
  lookup-buckets_from t (e ∷ es) m =
      lookup-buckets_from t es (grown e m)
      ∙ ap (λ o. joined o (of_type t es))
          (lookup-insert (V.event_type e) t (or_empty B V (lookup (V.event_type e) m) ++ e ∷ []) m)
      ∙ joined-bucket t e es m

  -- The bucket of a type holds the events of that type, in their order, and there is one only for
  -- the types that occur.
  pub lookup-buckets :
      (t : ℕ) (es : List V.Event) → lookup t (buckets B V es []) ≡ joined none (of_type t es)
  lookup-buckets t es = unfold lookup in lookup-buckets_from t es []
