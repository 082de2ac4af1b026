-- ===== src/Invoker/Calls.antt =====
-- Key, Account and Script of service/invoker/invoker.go. The virtual machine is a parameter: what it
-- does for a call is a program that reads registers one after another, each read depending on the
-- values before it, and ends with a result. `read` is the function that it reads registers with.
use flow_dps.Base.{ℕ, Bool, Option, none, some, List, [], ◌∷◌, if◌then◌else◌}
use flow_dps.Base.Outcome.{Result, ok, err, other, not_found, Exec, pure, from, ◌>>=◌}
use flow_dps.Base.Store.{Store, lookup, insert}
use flow_dps.Invoker.{Request}

-- A run of the virtual machine, from a read of a register with its owner, controller and key.
pub data Program (V A : Type 0) : Type 0 where
  returned : Result A → Program V A
  reads : List ℕ → List ℕ → List ℕ → (Result V → Program V A) → Program V A

-- The types of flow-go and Cadence, what is read of them, the virtual machine and the encoding of the
-- arguments of a script. An index of a key is only compared.
pub record Machine (V : Type 0) : Type 1 where
  pub Header : Type 0
  pub Account : Type 0
  pub PublicKey : Type 0
  pub Value : Type 0
  pub header_height : Header → ℕ
  pub account_keys : Account → List PublicKey
  pub key_index : PublicKey → ℕ
  pub is_revoked : PublicKey → Bool
  pub encode : Value → Result (List ℕ)
  pub get_account : Header → ℕ → Program V Account
  -- The outcome of the procedure, which may hold an error of its own.
  pub run_script : Header → List ℕ → List (List ℕ) → Program V (Result Value)

abbrev pub revoked : ℕ
revoked = 1

module _ {V : Type 0} (M : Machine V) where
  -- The lookup map of the keys: of several keys with an index, the last one.
  unfoldable pub keys_from : List M.PublicKey → Store M.PublicKey → Store M.PublicKey
  keys_from [] keys = keys
  keys_from (k ∷ ks) keys = keys_from ks (insert (M.key_index k) k keys)

  abbrev pub valid_key : Option M.PublicKey → Result M.PublicKey
  valid_key none = err not_found
  valid_key (some k) = if M.is_revoked k then err (other revoked) else ok k

module _ {S V : Type 0} (M : Machine V) (header : ℕ → Result M.Header)
    (read : Request → Exec S V) where
  open M use {Header, Account, PublicKey, Value}

  -- The virtual machine on a view that reads at a height.
  unfoldable pub run_at : {A : Type 0} → ℕ → Program V A → Exec S A
  run_at height (returned r) s = (r, s)
  run_at height (reads owner controller key next) s =
      let (value, t) =
        read (record { height = height; owner = owner; controller = controller; key = key }) s in
      run_at height (next value) t

  unfoldable pub account : ℕ → ℕ → Exec S Account
  account height address = do
    head ← from (header height)
    run_at (M.header_height head) (M.get_account head address)

  unfoldable pub key : ℕ → ℕ → ℕ → Exec S PublicKey
  key height address index = do
    acc ← account height address
    from (valid_key M (lookup index (keys_from M (M.account_keys acc) [])))

  unfoldable pub encode_arguments : List Value → Exec S (List (List ℕ))
  encode_arguments [] = pure []
  encode_arguments (a ∷ arguments) = do
    arg ← from (M.encode a)
    args ← encode_arguments arguments
    pure (arg ∷ args)

  unfoldable pub script : ℕ → List ℕ → List Value → Exec S Value
  script height bytes arguments = do
    args ← encode_arguments arguments
    head ← from (header height)
    outcome ← run_at height (M.run_script head bytes args)
    from outcome

-- A call of the invoker, and what it answers.
pub data Call {V : Type 0} (M : Machine V) : Type 0 where
  key_call : ℕ → ℕ → ℕ → Call M
  account_call : ℕ → ℕ → Call M
  script_call : ℕ → List ℕ → List M.Value → Call M

pub data Reply {V : Type 0} (M : Machine V) : Type 0 where
  key_reply : M.PublicKey → Reply M
  account_reply : M.Account → Reply M
  value_reply : M.Value → Reply M

module _ {S V : Type 0} (M : Machine V) (header : ℕ → Result M.Header)
    (read : Request → Exec S V) where
  unfoldable pub answer : Call M → Exec S (Reply M)
  answer (key_call height address index) = do
    k ← key M header read height address index
    pure (key_reply k)
  answer (account_call height address) = do
    acc ← account M header read height address
    pure (account_reply acc)
  answer (script_call height bytes arguments) = do
    value ← script M header read height bytes arguments
    pure (value_reply value)

  -- Calls one after another.
  unfoldable pub answers : List (Call M) → S → List (Result (Reply M)) × S
  answers [] s = ([], s)
  answers (call ∷ calls) s =
      let (r, t) = answer call s in let (rs, end) = answers calls t in (r ∷ rs, end)
