-- ===== src/Base/Outcome.antt =====
-- Go's `(value, error)`: a result, and stateful calls that may fail. Wrapping by `%w` keeps what
-- `errors.Is` sees, so a wrapped error is the same value here.
pub mod Steps
use mathlib.Core.Path.{◌≡◌}
use Prim.Native.Nat.{ℕ}

-- The errors that the code tells apart. `other` is any error of a dependency that no test names.
pub data Err : Type 0 where
  unavailable : Err  -- dps.ErrUnavailable
  finished : Err  -- dps.ErrFinished
  not_found : Err  -- badger.ErrKeyNotFound and storage.ErrNotFound
  invalid_status : Err
  invalid_height : Err
  hash_mismatch : Err
  missing_tree : Err
  missing_transition : Err
  duplicate_record : Err
  bad_length : Err
  size_mismatch : Err
  too_big : Err  -- badger.ErrTxnTooBig
  blocked : Err  -- not an error of the source: the call waits for ever
  panic : Err  -- a run-time panic of Go
  out_of_fuel : Err  -- not an error of the source: the model's fuel ran out
  other : ℕ → Err

pub data Result {ℓ} (A : Type ℓ) : Type ℓ where
  ok : A → Result A
  err : Err → Result A

pub ok-injective {ℓ} : {A : Type ℓ} {a b : A} → ok a ≡ ok b → a ≡ b
ok-injective e = cc

-- A method over the state `S`. What was changed before an error stays changed.
abbrev pub Exec {ℓ} : Type ℓ → Type ℓ → Type ℓ
Exec S A = S → Result A × S

module _ {ℓ} {S A : Type ℓ} where
  abbrev pub pure : A → Exec S A
  pure a s = (ok a, s)

  abbrev pub raise : Err → Exec S A
  raise e s = (err e, s)

  abbrev pub from : Result A → Exec S A
  from r s = (r, s)

module _ {ℓ} {S A B : Type ℓ} where
  abbrev pub after : Result A → (A → Exec S B) → Exec S B
  after (ok a) f s = f a s
  after (err e) f s = (err e, s)

  infixl 5 ◌>>=◌ ◌>>◌
  abbrev pub ◌>>=◌ : Exec S A → (A → Exec S B) → Exec S B
  ◌>>=◌ m f s = let (r, t) = m s in after r f t

  abbrev pub ◌>>◌ : Exec S A → Exec S B → Exec S B
  ◌>>◌ m n s = let (r, t) = m s in after r (λ _. n) t
