-- ===== src/Scenarios/Registers.antt =====
-- Reads of registers through the cache of service/invoker: a cache that keeps everything, and an index
-- in which the value at a height is the sum of the height and the path.
use flow_dps.Base.{
  ℕ, ◌+◌, ◌<◌, ◌^◌, Option, some, none, List, [], ◌∷◌, ◌≡◌, map, ◌⊎◌, inl, inr, if◌then◌else◌,
  arith, Bool-cases, Bool, true, false, ◌==◌,
}
use flow_dps.Base.Outcome.{Result, ok, err, other}
use flow_dps.Invoker.{Request, read_index}
use flow_dps.Invoker.Keys.{InRange}
use flow_dps.Base.Store.{lookup, insert}
use flow_dps.Invoker.Calls.{
  Program, returned, reads, Machine, Call, key_call, account_call, script_call, key_reply,
  account_reply, value_reply, answer, answers, key, account, script, run_at, keys_from,
  encode_arguments,
}
use flow_dps.Invoker.Uncached.{ReadsInRange, cached, answers-uncached}
use flow_dps.Invoker.Caching.{Faithful}
use flow_dps.Scenarios.Database.{same_key, same_key_eq}

abbrev Cache : Type 0
Cache = List ℕ → Option ℕ

abbrev get_cached : List ℕ → Cache → Option ℕ
get_cached k c = c k

abbrev set_cached : List ℕ → ℕ → Cache → Cache
set_cached j v c k = if same_key k j then some v else c k

get_cached-set_cached :
    (k j : List ℕ) (v w : ℕ) (c : Cache)
    → get_cached k (set_cached j v c) ≡ some w
    → ((k ≡ j) × (w ≡ v)) ⊎ (get_cached k c ≡ some w)
get_cached-set_cached k j v w c e = elim (Bool-cases (same_key k j)) [
  | inl s ↦ inl (same_key_eq k j s, ground (arith, s))
  | inr s ↦ inr (ground (arith, s))
]

abbrev register : ℕ → Request
register h = record { height = h; owner = 1 ∷ 255 ∷ []; controller = []; key = 47 ∷ 7 ∷ [] }

register-InRange : (h : ℕ) → h < 2 ^ 64 → InRange (register h)
register-InRange h lt = (lt, (omega arith, (omega arith, tt)), tt)

abbrev register_path : Request → Result ℕ
register_path r = ok 5

abbrev sums : ℕ → List ℕ → Result (List ℕ)
sums h ps = ok (map (λ p. p + h) ps)

nothing_cached : Faithful get_cached set_cached register_path sums get_cached-set_cached (λ k. none)
nothing_cached r v i e = ground arith

-- A machine that reads the register of an account, and for a script a second register whose owner is
-- the value of the first. The header of a height says whether that is 4.
abbrev read_account : Program ℕ ℕ
read_account = reads (1 ∷ 255 ∷ []) [] (47 ∷ 7 ∷ []) returned

abbrev read_twice : Program ℕ (Result ℕ)
read_twice =
    reads (1 ∷ 255 ∷ []) [] (47 ∷ 7 ∷ []) (λ a. reads [] [] (9 ∷ []) (λ b. returned (ok b)))

abbrev machine : Machine ℕ
machine = record {
  Header = Bool;
  Account = ℕ;
  PublicKey = ℕ;
  Value = ℕ;
  header_height = λ head. if head then 4 else 3;
  account_keys = λ a. a ∷ 2 ∷ [];
  key_index = λ k. k;
  is_revoked = λ k. k == 2;
  encode = λ v. ok (v ∷ []);
  get_account = λ head address. read_account;
  run_script = λ head bytes args. read_twice;
}

abbrev header_of : ℕ → Result Bool
header_of h = ok (h == 4)

accounts_in_range : (head : Bool) (address : ℕ) → ReadsInRange (if head then 4 else 3) read_account
accounts_in_range true address = (register-InRange 4 (omega arith), λ a. tt)
accounts_in_range false address = (register-InRange 3 (omega arith), λ a. tt)

abbrev some_calls : List (Call machine)
some_calls = key_call 3 1 8 ∷ account_call 4 1 ∷ key_call 3 1 2 ∷ script_call 4 [] (6 ∷ []) ∷ []

answers-uncached_example :
    ((answers machine header_of
        (cached get_cached set_cached register_path sums get_cached-set_cached machine header_of)
        some_calls
        (λ k. none)).0
      ≡ ok (key_reply 8) ∷ ok (account_reply 9) ∷ err (other 1) ∷ ok (value_reply 9) ∷ [])
    × Faithful get_cached set_cached register_path sums get_cached-set_cached
        (answers machine header_of
          (cached get_cached set_cached register_path sums get_cached-set_cached machine header_of)
          some_calls
          (λ k. none)).1
unfolding answers answer key account script run_at keys_from lookup insert read_index
    encode_arguments
answers-uncached_example =
    answers-uncached get_cached set_cached register_path sums get_cached-set_cached machine
      header_of accounts_in_range
      (λ height lt head bytes args. (register-InRange height lt, λ a. ((lt, tt, tt), λ b. tt)))
      some_calls (λ k. none) (tt, (tt, (tt, (omega arith, tt)))) nothing_cached
