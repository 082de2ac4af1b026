-- ===== src/Base/Outcome/Steps.antt =====
-- Chains of calls without a state, up to the first error.
use flow_dps.Base.Outcome.{Result, ok, err}

module _ {ℓ κ} {A : Type ℓ} {B : Type κ} where
  infixl 5 ◌>>=◌ ◌>>◌
  abbrev pub ◌>>=◌ : Result A → (A → Result B) → Result B
  ok a >>= f = f a
  err e >>= f = err e

  abbrev pub ◌>>◌ : Result A → Result B → Result B
  ok a >> r = r
  err e >> r = err e
