-- ===== src/Invoker.antt =====
-- readRegister of service/invoker/read.go. A string is the list of its bytes. The cache, the conversion
-- of a register to its path and the index are parameters.
pub mod Keys
pub mod Caching
pub mod Calls
pub mod Uncached
use flow_dps.Base.{
  ℕ, zero, suc, ◌+◌, ◌/◌, ◌%◌, ltb, Option, some, none, List, [], ◌∷◌, ◌++◌, if◌then◌else◌,
}
use flow_dps.Base.Outcome.{panic, Result, ok, err, Exec}

pub record Request : Type 0 where
  pub height : ℕ
  pub owner : List ℕ
  pub controller : List ℕ
  pub key : List ℕ

-- fmt's %d of a uint64, which has at most twenty digits.
unfoldable pub digits : ℕ → ℕ → List ℕ
digits zero n = []
digits (suc fuel) n =
    let more = digits fuel (n / 10) ++ (48 + n % 10) ∷ [] in
    if ltb n 10 then (48 + n) ∷ [] else more

abbrev pub hex_digit : ℕ → ℕ
hex_digit d = if ltb d 10 then 48 + d else 87 + d

-- fmt's %x of a string.
unfoldable pub hex : List ℕ → List ℕ
hex [] = []
hex (b ∷ bs) = hex_digit (b / 16) ∷ hex_digit (b % 16) ∷ hex bs

-- fmt.Sprintf("%d/%x/%x/%s", height, owner, controller, key)
unfoldable pub cache_key : Request → List ℕ
unfolding digits hex
cache_key r =
    digits 20 r.height ++ (47 ∷ (hex r.owner ++ (47 ∷ (hex r.controller ++ (47 ∷ r.key)))))

module _ {C V : Type 0} (get : List ℕ → C → Option V) (set : List ℕ → V → C → C)
    (key_to_path : Request → Result ℕ) (values : ℕ → List ℕ → Result (List V)) where
  abbrev first_value : Result (List V) → Result V
  first_value (ok []) = err panic
  first_value (ok (v ∷ vs)) = ok v
  first_value (err e) = err e

  abbrev value_at : ℕ → Result ℕ → Result V
  value_at height (ok path) = first_value (values height (path ∷ []))
  value_at height (err e) = err e

  -- The read of the index, past the cache.
  unfoldable pub read_index : Request → Result V
  read_index r = value_at r.height (key_to_path r)

  abbrev pub stored : List ℕ → Result V → Exec C V
  stored key (ok value) cache = (ok value, set key value cache)
  stored key (err e) cache = (err e, cache)

  abbrev pub answered : Option V → List ℕ → Result V → Exec C V
  answered (some value) key fresh cache = (ok value, cache)
  answered none key fresh cache = stored key fresh cache

  unfoldable pub read_register : Request → Exec C V
  unfolding cache_key read_index
  read_register r cache = answered (get (cache_key r) cache) (cache_key r) (read_index r) cache

  abbrev pub answer_first : Result V × C → (C → List (Result V) × C) → List (Result V) × C
  answer_first (a, cache) rest = let (answers, end) = rest cache in (a ∷ answers, end)

  -- Several reads, one after another.
  unfoldable pub read_registers : List Request → C → List (Result V) × C
  unfolding read_register
  read_registers [] cache = ([], cache)
  read_registers (r ∷ rs) cache = answer_first (read_register r cache) (read_registers rs)
