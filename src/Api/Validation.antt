-- ===== src/Api/Validation.antt =====
-- The request validation of api/dps/server.go: the fields of a request with their `validate` tags in
-- api/dps/api.proto. The validator is a library.
use flow_dps.Base.{ℕ, ◌≡◌, ◌≢◌, ◌⊎◌, List, [], ◌∷◌, length, All}
use flow_dps.Base.Outcome.{Result, ok, err, Err}

-- A field with its tag.
pub data Field : Type 0 where
  required : ℕ → Field  -- "required" on a uint64
  required_len : ℕ → List ℕ → Field  -- "required,len=n" on bytes
  required_dive_len : ℕ → List (List ℕ) → Field  -- "required,dive,len=n" on a list of bytes

pub record Validator : Type 0 where
  pub struct : List Field → Result (Unit {0})

-- What the tags ask for. Of an empty list nothing is said: `required` accepts it if it is not nil.
abbrev pub Meets : Field → Type 0
Meets (required n) = n ≢ 0
Meets (required_len n b) = length b ≡ n
Meets (required_dive_len n bs) = (bs ≢ []) × All (λ b. length b ≡ n) bs

-- The tags that refuse a value: a zero, and a length other than the one asked for.
abbrev pub Refused : Field → Type 0
Refused (required n) = n ≡ 0
Refused (required_len n b) = length b ≢ n
Refused (required_dive_len n bs) = ¬ All (λ b. length b ≡ n) bs

abbrev pub SomeRefused : List Field → Type 0
SomeRefused [] = ⊥
SomeRefused (f ∷ fs) = Refused f ⊎ SomeRefused fs

-- The documented behaviour of the validator.
pub record IsValidator (validator : Validator) : Type 0 where
  pub accepts : (fs : List Field) → All Meets fs → validator.struct fs ≡ ok tt
  pub refuses : (fs : List Field) → SomeRefused fs → (e : Err) × (validator.struct fs ≡ err e)
