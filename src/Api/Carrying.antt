-- ===== src/Api/Carrying.antt =====
-- What a request and an answer carry through the conversions, the validation and the codecs.
use flow_dps.Base.{
  ℕ, ◌≡◌, ◌≢◌, refl, ap, ◌∙◌, subst, Option, some, none, List, [], ◌∷◌, map, All, arith, length,
}
use flow_dps.Base.Outcome.{Result, ok, err}
use flow_dps.Base.Outcome.Steps.{◌>>=◌, ◌>>◌}
use flow_dps.Storage.Library.{Values, Codec}
use flow_dps.Storage.Entries.{IsArray}
use flow_dps.Storage.Encoding.Order.{length-big_endian}
use flow_dps.Api.Validation.{Validator, IsValidator, Field, Meets}
use flow_dps.Api.Convert.{
  Conversions, AreConversions, id_to_hash, paths_to_bytes, bytes_to_paths, values_to_bytes,
  bytes_to_values, types_to_strings, strings_to_types,
}
use flow_dps.Api.Connection.{IsTotal}
use flow_dps.Api.Queries.{Query, Answer, SameAnswer, values}

pub SameAnswer_refl : {A : Type 0} (r : Result A) → SameAnswer r r
SameAnswer_refl (ok a) = refl
SameAnswer_refl (err e) = tt

-- What the client makes of the answer of the server, where that is `t`.
pub sent :
    {A B : Type 0} (r s : Result A) (f : A → Result B) (t : Result B)
    → SameAnswer r s
    → (s >>= f) ≡ t
    → SameAnswer (r >>= f) t
sent (ok a) (ok b) f t h e = subst (SameAnswer (f a)) (ap f h ∙ e) (SameAnswer_refl (f a))
sent (err x) (err y) f t h e = subst (SameAnswer (err x)) e tt
sent (ok a) (err y) f t h e = absurd h
sent (err x) (ok b) f t h e = absurd h

pub lengths-paths_to_bytes : (ps : List ℕ) → All (λ b. length b ≡ 32) (paths_to_bytes ps)
lengths-paths_to_bytes [] = tt
lengths-paths_to_bytes (p ∷ ps) = (length-big_endian 32 p, lengths-paths_to_bytes ps)

pub paths_to_bytes-nonempty : (ps : List ℕ) → ps ≢ [] → paths_to_bytes ps ≢ []
paths_to_bytes-nonempty [] n = λ _. n refl
paths_to_bytes-nonempty (p ∷ ps) n = λ e. ground arith

pub strings_to_types-types_to_strings : (ts : List ℕ) → strings_to_types (types_to_strings ts) ≡ ts
strings_to_types-types_to_strings [] = refl
strings_to_types-types_to_strings (t ∷ ts) = λ i. t ∷ strings_to_types-types_to_strings ts i

-- What arrives of an answer: a value that is nil arrives as an empty one.
abbrev pub nil_to_empty :
    {V : Values} → Conversions V → List (Option V.Value) → List (Option V.Value)
nil_to_empty C [] = []
nil_to_empty C (none ∷ vs) = some (C.bytes_value []) ∷ nil_to_empty C vs
nil_to_empty C (some v ∷ vs) = some v ∷ nil_to_empty C vs

abbrev pub received :
    {V : Values} → Conversions V → (q : Query) → Result (Answer V q) → Result (Answer V q)
received C (values h ps) (ok vs) = ok (nil_to_empty C vs)
received C _ r = r

module _ {V : Values} (C : Conversions V) (conv : AreConversions C) where
  pub hash_to_id-map :
      (ids : List ℕ) → All IsArray ids → map C.hash_to_id (map id_to_hash ids) ≡ ids
  hash_to_id-map [] h = refl
  hash_to_id-map (id ∷ ids) h = λ i. conv.id_of_bytes id h.0 i ∷ hash_to_id-map ids h.1 i

  pub bytes_to_paths-paths_to_bytes :
      (ps : List ℕ) → All IsArray ps → bytes_to_paths C (paths_to_bytes ps) ≡ ok ps
  unfolding bytes_to_paths
  bytes_to_paths-paths_to_bytes [] h = refl
  bytes_to_paths-paths_to_bytes (p ∷ ps) h =
      rw (conv.path_of_bytes p h.0, bytes_to_paths-paths_to_bytes ps h.1)

  pub bytes_to_values-values_to_bytes :
      (vs : List (Option V.Value)) → bytes_to_values C (values_to_bytes C vs) ≡ nil_to_empty C vs
  unfolding bytes_to_values values_to_bytes
  bytes_to_values-values_to_bytes [] = refl
  bytes_to_values-values_to_bytes (none ∷ vs) =
      λ i. some (C.bytes_value []) ∷ bytes_to_values-values_to_bytes vs i
  bytes_to_values-values_to_bytes (some v ∷ vs) =
      λ i. some (conv.value_of_bytes v i) ∷ bytes_to_values-values_to_bytes vs i

-- A handler that accepts the request, asks the reader and sends the answer back.
module _ (validator : Validator) (law : IsValidator validator) (fs : List Field)
    (meets : All Meets fs) where
  pub answered :
      {A Res : Type 0} (r : Result A) (f : A → Res) (k : Res → Result A)
      → ((a : A) → r ≡ ok a → k (f a) ≡ ok a)
      → ((do validator.struct fs; a ← r; ok (f a)) >>= k) ≡ r
  answered (ok a) f k h = rw (law.accepts fs meets, h a refl)
  answered (err e) f k h = rw (law.accepts fs meets)

  pub answered-marshal :
      {A Res : Type 0} (c : Codec A)
      → IsTotal c
      → (r : Result A) (f : A → List ℕ → Res) (g : Res → List ℕ)
      → ((a : A) (e : List ℕ) → g (f a e) ≡ e)
      → ((do validator.struct fs; a ← r; e ← c.marshal a; ok (f a e))
          >>= (λ res. c.unmarshal (g res)))
        ≡ r
  answered-marshal c total (ok a) f g h =
      let (b, m, u) = total a in rw (law.accepts fs meets, m, h a b, u)
  answered-marshal c total (err e) f g h = rw (law.accepts fs meets)

-- The same without validation.
pub plain :
    (r : Result ℕ)
    → {Res : Type 0} → (f : ℕ → Res) (g : Res → ℕ) → ((a : ℕ) → g (f a) ≡ a)
    → ((do a ← r; ok (f a)) >>= (λ res. ok (g res))) ≡ r
plain (ok a) f g h = ap ok (h a)
plain (err e) f g h = refl

pub plain-marshal :
    {A Res : Type 0} (c : Codec A)
    → IsTotal c
    → (r : Result A) (f : A → List ℕ → Res) (g : Res → List ℕ)
    → ((a : A) (e : List ℕ) → g (f a e) ≡ e)
    → ((do a ← r; e ← c.marshal a; ok (f a e)) >>= (λ res. c.unmarshal (g res))) ≡ r
plain-marshal c total (ok a) f g h = let (b, m, u) = total a in rw (m, h a b, u)
plain-marshal c total (err e) f g h = refl

pub plain-values :
    {V : Values} (C : Conversions V)
    → AreConversions C
    → {Res : Type 0} (r : Result (List (Option V.Value))) (f : List (List ℕ) → Res)
      (g : Res → List (List ℕ)) (h : ℕ) (ps : List ℕ)
    → ((bb : List (List ℕ)) → g (f bb) ≡ bb)
    → ((do vs ← r; ok (f (values_to_bytes C vs))) >>= (λ res. ok (bytes_to_values C (g res))))
      ≡ received C (values h ps) r
plain-values C conv (ok vs) f g h ps k =
    rw (k (values_to_bytes C vs), bytes_to_values-values_to_bytes C conv vs)
plain-values C conv (err e) f g h ps k = refl
