-- ===== src/Base/Store.antt =====
-- A Go map whose keys are fixed-size byte arrays, read as numbers: an association list.
use flow_dps.Base.Tests.{◌==◌, if◌then◌else◌, Bool-cases, ==_iff}
use Prim.Native.Nat.{ℕ, ◌+◌, ◌≤◌}
use mathlib.Core.Path.{◌≡◌, refl, sym, subst}
use mathlib.Core.Logic.{inl, inr}
use mathlib.Core.Bool.{Bool}
use mathlib.Core.Option.{Option, none, some}
use mathlib.Core.List.{List, [], ◌∷◌}
use native.Mathlib.Omega.{arith}
use flow_dps.Base.Lists.{length}

abbrev pub Store {ℓ} : Type ℓ → Type ℓ
Store V = List (ℕ × V)

module _ {ℓ} {V : Type ℓ} where
  -- m[k], with the flag of the two-value form
  unfoldable pub lookup : ℕ → Store V → Option V
  lookup k [] = none
  lookup k ((j, v) ∷ m) = if j == k then some v else lookup k m

  -- m[key] = value
  unfoldable pub insert : ℕ → V → Store V → Store V
  insert key value [] = (key, value) ∷ []
  insert key value ((c, x) ∷ rest) =
      let kept = insert key value rest in if c == key then (key, value) ∷ rest else (c, x) ∷ kept

  -- delete(m, k) of each key that fails the test
  unfoldable pub keep : (ℕ → V → Bool) → Store V → Store V
  keep p [] = []
  keep p ((j, v) ∷ m) = let rest = keep p m in if p j v then (j, v) ∷ rest else rest

  pub length-insert : (k : ℕ) (v : V) (m : Store V) → length (insert k v m) ≤ length m + 1
  unfolding insert
  length-insert k v [] = omega arith
  length-insert k v ((j, w) ∷ m) = ground (arith, length-insert k v m)

  pub lookup-insert :
      (key asked : ℕ) (value : V) (m : Store V)
      → lookup asked (insert key value m) ≡ (if key == asked then some value else lookup asked m)
  unfolding lookup insert
  lookup-insert key asked value [] = refl
  lookup-insert key asked value ((c, x) ∷ rest) = ground (arith, lookup-insert key asked value rest)

  pub lookup-keep :
      (p : ℕ → Bool) (k : ℕ) (m : Store V)
      → lookup k (keep (λ j _. p j) m) ≡ (if p k then lookup k m else none)
  unfolding lookup keep
  lookup-keep p k [] = ground arith
  lookup-keep p k ((j, v) ∷ m) = elim (Bool-cases (j == k)) [
    | inl e ↦
        subst
          (λ i.
            lookup k (keep (λ j _. p j) ((i, v) ∷ m))
            ≡ (if p k then lookup k ((i, v) ∷ m) else none))
          (sym ((==_iff j k).0 e)) (ground (arith, lookup-keep p k m))
    | inr e ↦ ground (arith, lookup-keep p k m)
  ]
