-- ===== src/Api/Registers.antt =====
-- The registers that a client of the API reads from the index database of the server.
use flow_dps.Base.{ℕ, ◌≡◌, ◌≢◌, ◌≤◌, ap, subst, Option, List, [], ◌∷◌, All}
use flow_dps.Base.Outcome.{Result, ok, err}
use flow_dps.Storage.Library.{Badger, Values}
use flow_dps.Storage.Retrieving.History.{IsReverse, OnlyEntries}
use flow_dps.Storage.Entries.{IsArray, IsHeight}
use flow_dps.Index.Reader.{first, last}
use flow_dps.Index.Reader.AtHeight.{ValuesAt, values-history}
use flow_dps.Index.Interface.{index_reader}
use flow_dps.Api.Validation.{Validator, IsValidator}
use flow_dps.Api.Convert.{Conversions, AreConversions}
use flow_dps.Api.Client.{ApiClient, index_from_api}
use flow_dps.Api.Connection.{IsConnection}
use flow_dps.Api.Carrying.{nil_to_empty, received}
use flow_dps.Api.Queries.{SameAnswer, values}
use flow_dps.Api.Remote.{values_lem}

SameAnswer-ok : {A : Type 0} (r : Result A) (a : A) → SameAnswer r (ok a) → r ≡ ok a
SameAnswer-ok (ok b) a h = ap ok h
SameAnswer-ok (err e) a h = absurd h

ValuesAt-arrays :
    (B : Badger) (V : Values) (tx : B.Txn) (height : ℕ) (ps : List ℕ) (os : List (Option V.Value))
    → ValuesAt B V tx height ps os
    → All IsArray ps
ValuesAt-arrays B V tx height [] os h = tt
ValuesAt-arrays B V tx height (p ∷ ps) [] h = absurd h
ValuesAt-arrays B V tx height (p ∷ ps) (o ∷ os) h = (h.0, ValuesAt-arrays B V tx height ps os h.2)

-- Over the API, at a height between the first and the last indexed one that is not zero, each path
-- reads as the history of its changes in the server's database defines it, and a register without a
-- value as an empty value.
pub remote_values-history :
    (B : Badger) (V : Values)
    → IsReverse B
    → (tx : B.Txn) → OnlyEntries B tx
    → (C : Conversions V) → AreConversions C
    → (validator : Validator) → IsValidator validator
    → (client : ApiClient) → IsConnection C validator (index_reader B V tx) client
    → (height f l : ℕ) (ps : List ℕ) (os : List (Option V.Value)) → IsHeight height
    → height ≢ 0
    → ps ≢ []
    → first B V tx ≡ ok f
    → last B V tx ≡ ok l
    → f ≤ height
    → height ≤ l
    → ValuesAt B V tx height ps os
    → (index_from_api C client).values height ps ≡ ok (nil_to_empty C os)
unfolding index_reader
remote_values-history B V rev tx only C conv validator law client conn height f l ps os hr nz ne fe
      le a b h =
    SameAnswer-ok _ _ (
      subst
        (λ r.
          SameAnswer ((index_from_api C client).values height ps) (received C (values height ps) r))
        (values-history B V rev tx only height hr f l ps os fe le a b h)
        (values_lem C conv validator law (index_reader B V tx) client conn height ps
          (nz, ne, ValuesAt-arrays B V tx height ps os h)))
