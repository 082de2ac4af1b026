-- ===== src/Scenarios/Contents.antt =====
-- The library of service/storage and the reader and writer of service/index over a small database:
-- every value is a number, encoded as itself.
use flow_dps.Base.{
  ℕ, ◌+◌, ◌/◌, ◌<◌, ◌≤◌, ◌≡◌, ◌≢◌, refl, sym, ap, arith, some, none, List, [], ◌∷◌, ◌++◌, map,
  Bool-cases, inl, inr,
}
use flow_dps.Base.Outcome.{
  ok, err, Err, other, blocked, bad_length, not_found, too_big, Result, ok-injective,
}
use flow_dps.Storage.Library.{Values, Codec, retrieve, combine}
use flow_dps.Storage.Retrieving.{retrieve_payload, retrieve_first, retrieve_last, retrieve_seal}
use flow_dps.Storage.Retrieving.History.{OnlyEntries, retrieve_payload-latest}
use flow_dps.Storage.Library.RoundTrip.{IsCodec}
use flow_dps.Storage.Operations.{
  set_seal, set_guarantee, set_commit, set_payload, ask_seal, perform, ask,
}
use flow_dps.Storage.Operations.Kept.{perform-Retrieved, ask-perform}
use flow_dps.Storage.Entries.{Entry, first, last, payload, key_of, InRange}
use flow_dps.Index.Reader as Reader
use flow_dps.Index.Reader.{values, events}
use flow_dps.Index.Reader.AtHeight.{values-history, LastChange}
use flow_dps.Index.Writer.{Op, Writer, apply, new_writer, close}
use flow_dps.Index.Writer.Closing.{close_lem, failures}
use flow_dps.Index.Writer.Written.{apply-written, WrotePrefix}
use flow_dps.Index.Writer.Progress.{apply-Returns, Ends, new_writer-IsReady}
use flow_dps.Scenarios.Database.{
  database, Pairs, get, same_key, same_key_eq, database-IsStore, database-IsReverse,
}

abbrev decode_number : List ℕ → Result ℕ
decode_number (n ∷ []) = ok n
decode_number _ = err bad_length

abbrev number_codec : Codec ℕ
number_codec = record { marshal = λ n. ok (n ∷ []); unmarshal = decode_number }

abbrev list_codec : Codec (List ℕ)
list_codec = record { marshal = λ l. ok l; unmarshal = λ l. ok l }

number_codec-IsCodec : IsCodec number_codec
number_codec-IsCodec a b e = ap decode_number (sym (ok-injective e))

abbrev pub numbers : Values
numbers = record {
  Header = ℕ;
  Payload = ℕ;
  Collection = ℕ;
  Transaction = ℕ;
  Guarantee = ℕ;
  Seal = ℕ;
  TxResult = ℕ;
  Event = ℕ;
  Value = ℕ;
  payload_value = λ x. x + 100;
  collection_id = λ x. x;
  collection_transactions = λ x. [];
  transaction_id = λ x. x;
  guarantee_collection = λ x. x;
  seal_id = λ x. x;
  result_transaction = λ x. x;
  event_type = λ x. x / 10;
  type_hash = λ x. x;
  number = number_codec;
  ids = list_codec;
  header = number_codec;
  payload = number_codec;
  collection = number_codec;
  transaction = number_codec;
  guarantee = number_codec;
  seal = number_codec;
  result = number_codec;
  events = list_codec;
}

-- The register 3 was changed at the heights 5 and 8; the heights 1 to 9 are indexed.
abbrev last_only : Pairs
last_only = (key_of last, 9 ∷ []) ∷ []

abbrev heights_only : Pairs
heights_only = (key_of first, 1 ∷ []) ∷ last_only

abbrev before_8 : Pairs
before_8 = (key_of (payload 3 5), 40 ∷ []) ∷ heights_only

abbrev pub contents : Pairs
contents = (key_of (payload 3 8), 41 ∷ []) ∷ before_8

OnlyEntries-nil : OnlyEntries database []
OnlyEntries-nil k v e = ground arith

OnlyEntries-cons :
    (e : Entry) (v : List ℕ) (m : Pairs)
    → InRange e
    → OnlyEntries database m
    → OnlyEntries database ((key_of e, v) ∷ m)
OnlyEntries-cons e v m r only k w got = elim (Bool-cases (same_key (key_of e) k)) [
  | inl q ↦ (e, r, same_key_eq (key_of e) k q)
  | inr q ↦ only k w (ground arith)
]

pub contents-OnlyEntries : OnlyEntries database contents
contents-OnlyEntries =
    OnlyEntries-cons (payload 3 8) (41 ∷ []) before_8 (omega arith, omega arith)
      (OnlyEntries-cons (payload 3 5) (40 ∷ []) heights_only (omega arith, omega arith)
        (OnlyEntries-cons first (1 ∷ []) last_only tt
          (OnlyEntries-cons last (9 ∷ []) [] tt OnlyEntries-nil)))

stored_at_5 : get (key_of (payload 3 5)) contents ≡ ok (40 ∷ [])
unfolding key_of
stored_at_5 = refl

nothing_at_6 : get (key_of (payload 3 6)) contents ≡ err not_found
unfolding key_of
nothing_at_6 = refl

not_changed_later :
    (h : ℕ) (v : List ℕ) → 5 < h → h ≤ 6 → get (key_of (payload 3 h)) contents ≢ ok v
not_changed_later h v a b e =
    let h_6 : 6 ≡ h = omega arith in
    ground (arith, ap (λ n. get (key_of (payload 3 n)) contents) h_6, nothing_at_6)

retrieve_payload-latest_example : retrieve_payload database numbers 6 3 contents ≡ ok 40
retrieve_payload-latest_example =
    retrieve_payload-latest database numbers database-IsReverse contents contents-OnlyEntries 3 6
      (omega arith) (omega arith) 5 (40 ∷ []) (omega arith) stored_at_5 not_changed_later

pub first_is : Reader.first database numbers contents ≡ ok 1
unfolding Reader.first retrieve_first retrieve key_of
first_is = refl

pub last_is : Reader.last database numbers contents ≡ ok 9
unfolding Reader.last retrieve_last retrieve key_of
last_is = refl

pub change : LastChange database numbers contents 6 3 40
change = record {
  h0 = 5;
  v0 = 40 ∷ [];
  at_most = omega arith;
  stored = stored_at_5;
  decoded = refl;
  no_later = not_changed_later;
}

values-history_example : values database numbers 6 (3 ∷ []) contents ≡ ok (some 140 ∷ [])
values-history_example =
    values-history database numbers database-IsReverse contents contents-OnlyEntries 6 (omega arith)
      1 9 (3 ∷ []) (some 140 ∷ []) first_is last_is (omega arith) (omega arith)
      (omega arith, (40, change, refl), tt)

-- The seal 5 is saved, and then a guarantee for the collection 5, the commit and the register 3.
perform-Retrieved_example :
    retrieve_seal database numbers 5
      (combine
        (map
          (perform database numbers)
          (set_guarantee 5 ∷ set_commit 8 77 ∷ set_payload 9 3 42 ∷ []))
        (perform database numbers (set_seal 5) contents).1).1
    ≡ ok 5
unfolding perform
perform-Retrieved_example =
    perform-Retrieved database numbers database-IsStore (set_seal 5)
      (set_guarantee 5 ∷ set_commit 8 77 ∷ set_payload 9 3 42 ∷ []) contents database-IsReverse
      number_codec-IsCodec contents-OnlyEntries (omega arith)
      (
        omega arith,
        λ e. ground arith,
        (omega arith, λ e. ground arith, ((omega arith, omega arith), λ e. ground arith, tt)),
      )
      refl

-- The identifier 5 is that of a seal and of a collection.
ask-perform_example :
    ask database numbers (ask_seal 5) (perform database numbers (set_guarantee 5) contents).1
    ≡ ask database numbers (ask_seal 5) contents
ask-perform_example =
    ask-perform database numbers database-IsStore (set_guarantee 5) (ask_seal 5) contents
      (omega arith) (omega arith) (λ e. ground arith)

-- A transaction that takes two numbers and is then too big.
abbrev put : ℕ → Op (List ℕ)
put n [] = (ok tt, n ∷ [])
put n (a ∷ []) = (ok tt, a ∷ n ∷ [])
put n t = (err too_big, t)

put-Writes :
    (n : ℕ) (t : List ℕ)
    → ((put n t).0 ≡ ok tt → (put n t).1 ≡ t ++ n ∷ [])
      × ((e : Err) → (put n t).0 ≡ err e → (put n t).1 ≡ t)
put-Writes n [] = (λ _. refl, λ e q. ground arith)
put-Writes n (a ∷ []) = (λ _. refl, λ e q. ground arith)
put-Writes n (a ∷ b ∷ t) = (λ q. ground arith, λ e _. refl)

apply-written_example :
    WrotePrefix
      (λ t. t)
      []
      refl
      (λ n. none)
      (new_writer [] (λ n. none) 1)
      ((1 ∷ []) ∷ (2 ∷ []) ∷ (3 ∷ []) ∷ [])
      (apply [] (λ n. none) (put 1 ∷ put 2 ∷ put 3 ∷ []) (new_writer [] (λ n. none) 1))
apply-written_example =
    apply-written (λ t. t) [] refl (λ n. none) (put 1 ∷ put 2 ∷ put 3 ∷ [])
      ((1 ∷ []) ∷ (2 ∷ []) ∷ (3 ∷ []) ∷ []) (new_writer [] (λ n. none) 1)
      (put-Writes 1, (put-Writes 2, (put-Writes 3, tt)))

put-Returns : (n : ℕ) (t : List ℕ) → (put n t).0 ≢ err blocked
put-Returns n [] e = ground arith
put-Returns n (a ∷ []) e = ground arith
put-Returns n (a ∷ b ∷ t) e = ground arith

apply-Returns_example :
    Ends []
      (λ n. none)
      (apply [] (λ n. none) (put 1 ∷ put 2 ∷ put 3 ∷ []) (new_writer [] (λ n. none) 1))
apply-Returns_example =
    apply-Returns [] (λ n. none) (λ n. refl) (put 1 ∷ put 2 ∷ put 3 ∷ [])
      (new_writer [] (λ n. none) 1) (new_writer-IsReady [] (λ n. none) 1 (omega arith))
      (put-Returns 1, (put-Returns 2, (put-Returns 3, tt)))

-- A writer whose one commit is under way and will fail.
abbrev closing : Writer (List ℕ)
closing = record {
  tx = 3 ∷ [];
  handed = (1 ∷ 2 ∷ []) ∷ [];
  calls = 0;
  free = 0;
  limit = 1;
  errors = [];
}

close_lem_example :
    (u : Writer (List ℕ)) × (close [] (λ n. some (other 7)) (λ t. ok tt) closing
      ≡ (ok (other 7 ∷ []), u))
    × (u.free ≡ 1)
    × (u.calls ≡ 1)
    × (u.errors ≡ [])
unfolding failures
close_lem_example =
    close_lem [] (λ n. some (other 7)) (λ t. ok tt) closing refl (omega arith) (omega arith)
