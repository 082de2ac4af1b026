-- ===== src/Scenarios/Remote.antt =====
-- A server and a client of the API in one process, over the values of Scenarios.Contents.
use flow_dps.Base.{
  ℕ, ◌==◌, ◌≡◌, inl, inr, refl, ap, subst, arith, Bool, true, false, not, some, none, List, [], ◌∷◌,
  if◌then◌else◌, length, All, Bool-cases, ==_iff,
}
use flow_dps.Base.Outcome.{Result, ok, err, Err, other, ok-injective}
use flow_dps.Storage.Encoding.Order.{read_number, read_number-big_endian}
use flow_dps.Storage.Entries.{IsArray}
use flow_dps.Index.Interface.{Reader, index_reader}
use flow_dps.Api.Validation.{
  Validator, IsValidator, Field, Meets, Refused, SomeRefused, required, required_len,
  required_dive_len,
}
use flow_dps.Api.Convert.{Conversions, AreConversions}
use flow_dps.Api.Server
use flow_dps.Api.Client.{ApiClient, index_from_api}
use flow_dps.Api.Connection.{IsConnection, AreTotal, GivesArrays}
use flow_dps.Api.Queries.{ask, SameAnswer, values}
use flow_dps.Api.Carrying.{SameAnswer_refl}
use flow_dps.Api.Remote.{remote-answers}
use flow_dps.Api.Registers.{remote_values-history}
use flow_dps.Api.Refusals.{handle-refuses, handle, tags, transaction}
use flow_dps.Scenarios.Database.{database, database-IsReverse}
use flow_dps.Scenarios.Contents.{numbers, contents, contents-OnlyEntries, first_is, last_is, change}

abbrev head_or_zero : List ℕ → ℕ
head_or_zero [] = 0
head_or_zero (n ∷ _) = n

abbrev conversions : Conversions numbers
conversions = record {
  hash_to_id = read_number 0;
  to_path = λ b. ok (read_number 0 b);
  to_state_commitment = λ b. ok (read_number 0 b);
  value_bytes = λ v. v ∷ [];
  bytes_value = head_or_zero;
}

conversions-AreConversions : AreConversions conversions
conversions-AreConversions = record {
  id_of_bytes = λ x h. read_number-big_endian 32 x h;
  path_of_bytes = λ x h. ap ok (read_number-big_endian 32 x h);
  commit_of_bytes = λ x h. ap ok (read_number-big_endian 32 x h);
  value_of_bytes = λ v. refl;
}

abbrev all_long : ℕ → List (List ℕ) → Bool
all_long n [] = true
all_long n (b ∷ bs) = let rest = all_long n bs in if length b == n then rest else false

abbrev meets : Field → Bool
meets (required n) = not (n == 0)
meets (required_len n b) = length b == n
meets (required_dive_len n bs) = all_long n bs

abbrev check : List Field → Result (Unit {0})
check [] = ok tt
check (f ∷ fs) = let rest = check fs in if meets f then rest else err (other 1)

abbrev validator : Validator
validator = record { struct = check }

all_long-All : (n : ℕ) (bs : List (List ℕ)) → All (λ b. length b ≡ n) bs → all_long n bs ≡ true
all_long-All n [] h = refl
all_long-All n (b ∷ bs) h = ground (arith, h.0, all_long-All n bs h.1)

All-all_long : (n : ℕ) (bs : List (List ℕ)) → all_long n bs ≡ true → All (λ b. length b ≡ n) bs
All-all_long n [] e = tt
All-all_long n (b ∷ bs) e = elim (Bool-cases (length b == n)) [
  | inl q ↦ ((==_iff (length b) n).0 q, All-all_long n bs (ground arith))
  | inr q ↦ ground arith
]

meets-Meets : (f : Field) → Meets f → meets f ≡ true
meets-Meets (required n) h = ground arith
meets-Meets (required_len n b) h = ground arith
meets-Meets (required_dive_len n bs) h = all_long-All n bs h.1

meets-Refused : (f : Field) → Refused f → meets f ≡ false
meets-Refused (required n) h = ground arith
meets-Refused (required_len n b) h = ground arith
meets-Refused (required_dive_len n bs) h = elim (Bool-cases (all_long n bs)) [
  | inl e ↦ absurd (h (All-all_long n bs e))
  | inr e ↦ e
]

check-accepts : (fs : List Field) → All Meets fs → check fs ≡ ok tt
check-accepts [] h = refl
check-accepts (f ∷ fs) h = rw (meets-Meets f h.0, check-accepts fs h.1)

check-refuses : (fs : List Field) → SomeRefused fs → (e : Err) × (check fs ≡ err e)
check-refuses [] h = absurd h
check-refuses (f ∷ fs) (inl r) = (other 1, rw (meets-Refused f r))
check-refuses (f ∷ fs) (inr r) = elim (Bool-cases (meets f)) [
  | inl e ↦ let (x, q) = check-refuses fs r in (x, rw (e, q))
  | inr e ↦ (other 1, rw e)
]

validator-IsValidator : IsValidator validator
validator-IsValidator = record { accepts = check-accepts; refuses = check-refuses }

-- A reader that answers everything, with no value for the second path.
abbrev reader : Reader numbers
reader = record {
  first = ok 1;
  last = ok 9;
  height_for_block = λ id. ok 5;
  height_for_transaction = λ id. ok 6;
  commit = λ h. ok 77;
  header = λ h. ok h;
  events = λ h types. ok types;
  values = λ h paths. ok (some 140 ∷ none ∷ []);
  collection = λ id. ok id;
  guarantee = λ id. ok id;
  transaction = λ id. ok id;
  seal = λ id. ok id;
  result = λ id. err (other 2);
  collections_by_height = λ h. ok (11 ∷ 12 ∷ []);
  transactions_by_height = λ h. ok [];
  seals_by_height = λ h. ok (13 ∷ []);
}

-- A client whose calls are those of the server.
abbrev in_process : Reader numbers → ApiClient
in_process index = record {
  get_first = Server.get_first conversions validator index;
  get_last = Server.get_last conversions validator index;
  get_height_for_block = Server.get_height_for_block conversions validator index;
  get_commit = Server.get_commit conversions validator index;
  get_header = Server.get_header conversions validator index;
  get_events = Server.get_events conversions validator index;
  get_register_values = Server.get_register_values conversions validator index;
  get_collection = Server.get_collection conversions validator index;
  list_collections_for_height = Server.list_collections_for_height conversions validator index;
  get_guarantee = Server.get_guarantee conversions validator index;
  get_transaction = Server.get_transaction conversions validator index;
  get_height_for_transaction = Server.get_height_for_transaction conversions validator index;
  list_transactions_for_height = Server.list_transactions_for_height conversions validator index;
  get_result = Server.get_result conversions validator index;
  get_seal = Server.get_seal conversions validator index;
  list_seals_for_height = Server.list_seals_for_height conversions validator index;
}

in_process-IsConnection :
    (index : Reader numbers) → IsConnection conversions validator index (in_process index)
in_process-IsConnection index = record {
  get_first = λ req. SameAnswer_refl _;
  get_last = λ req. SameAnswer_refl _;
  get_height_for_block = λ req. SameAnswer_refl _;
  get_commit = λ req. SameAnswer_refl _;
  get_header = λ req. SameAnswer_refl _;
  get_events = λ req. SameAnswer_refl _;
  get_register_values = λ req. SameAnswer_refl _;
  get_collection = λ req. SameAnswer_refl _;
  list_collections_for_height = λ req. SameAnswer_refl _;
  get_guarantee = λ req. SameAnswer_refl _;
  get_transaction = λ req. SameAnswer_refl _;
  get_height_for_transaction = λ req. SameAnswer_refl _;
  list_transactions_for_height = λ req. SameAnswer_refl _;
  get_result = λ req. SameAnswer_refl _;
  get_seal = λ req. SameAnswer_refl _;
  list_seals_for_height = λ req. SameAnswer_refl _;
}

numbers-AreTotal : AreTotal numbers
numbers-AreTotal = record {
  header = λ a. (a ∷ [], refl, refl);
  collection = λ a. (a ∷ [], refl, refl);
  guarantee = λ a. (a ∷ [], refl, refl);
  transaction = λ a. (a ∷ [], refl, refl);
  result = λ a. (a ∷ [], refl, refl);
  seal = λ a. (a ∷ [], refl, refl);
  events = λ a. (a, refl, refl);
}

All-ids : (xs ys : List ℕ) → ok xs ≡ ok ys → All IsArray xs → All IsArray ys
All-ids xs ys e h = subst (All IsArray) (ok-injective e) h

reader-GivesArrays : GivesArrays reader
reader-GivesArrays = record {
  commit = λ h c e. subst IsArray (ok-injective e) (omega arith);
  collections = λ h ids e. All-ids (11 ∷ 12 ∷ []) ids e (omega arith, (omega arith, tt));
  transactions = λ h ids e. All-ids [] ids e tt;
  seals = λ h ids e. All-ids (13 ∷ []) ids e (omega arith, tt);
}

remote-answers_example :
    SameAnswer
      (ask (index_from_api conversions (in_process reader)) (values 6 (3 ∷ 4 ∷ [])))
      (ok (some 140 ∷ some 0 ∷ []))
remote-answers_example =
    remote-answers conversions conversions-AreConversions numbers-AreTotal validator
      validator-IsValidator reader reader-GivesArrays (in_process reader)
      (in_process-IsConnection reader) (values 6 (3 ∷ 4 ∷ []))
      ((λ e. ground arith), (λ e. ground arith), (omega arith, (omega arith, tt)))

remote_values-history_example :
    (index_from_api conversions (in_process (index_reader database numbers contents))).values 6
      (3 ∷ [])
    ≡ ok (some 140 ∷ [])
remote_values-history_example =
    remote_values-history database numbers database-IsReverse contents contents-OnlyEntries
      conversions conversions-AreConversions validator validator-IsValidator
      (in_process (index_reader database numbers contents))
      (in_process-IsConnection (index_reader database numbers contents)) 6 1 9 (3 ∷ [])
      (some 140 ∷ []) (omega arith) (λ e. ground arith) (λ e. ground arith) first_is last_is
      (omega arith) (omega arith) (omega arith, (40, change, refl), tt)

handle-refuses_example :
    (e : Err) × (check (tags (transaction (record { transaction_id = 1 ∷ 2 ∷ [] }))) ≡ err e)
    × (handle conversions validator reader (transaction (record { transaction_id = 1 ∷ 2 ∷ [] }))
        ≡ err e)
handle-refuses_example =
    handle-refuses conversions validator reader validator-IsValidator
      (transaction (record { transaction_id = 1 ∷ 2 ∷ [] })) (inl (λ e. ground arith))
