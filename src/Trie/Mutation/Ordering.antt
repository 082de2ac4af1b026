-- ===== src/Trie/Mutation/Ordering.antt =====
-- Groups of ascending paths in Mutate of ledger/trie, and how a pivot parts them.
use flow_dps.Base.{
  ℕ, zero, suc, ◌+◌, ◌*◌, ◌^◌, ◌<◌, Bool, true, false, Option, none, some, [], ◌∷◌, if◌then◌else◌,
  ◌≡◌, refl, if_split, arith,
}
use flow_dps.Base.Store.{lookup}
use flow_dps.Trie.{shr, bit}
use flow_dps.Trie.Bits.{shr_le, shr_small, shr-bit, common_all}
use flow_dps.Trie.Mutation.{Group, zeros, ones}
use flow_dps.Trie.Mutation.Grouping.{find, AllOnes, Grouped}

module _ {P : Type 0} where
  -- The paths are above a number, and each is above the one before it.
  unfoldable pub Above : ℕ → Group P → Type 0
  Above p [] = Unit
  Above p ((q, v) ∷ g) = (p < q) × Above q g

  unfoldable pub Ascending : Group P → Type 0
  unfolding Above
  Ascending [] = Unit
  Ascending ((p, v) ∷ g) = Above p g

  -- The paths agree above a height.
  unfoldable pub Shared : ℕ → ℕ → Group P → Type 0
  Shared h a [] = Unit
  Shared h a ((q, v) ∷ g) = (shr q h ≡ a) × Shared h a g

  Ascending-Above : (p : ℕ) (g : Group P) → Above p g → Ascending g
  unfolding Ascending Above
  Ascending-Above p [] a = tt
  Ascending-Above p (x ∷ g) a = a.1

  -- From the first path with the bit 1 on, all have it.
  ones_share :
      (h a p : ℕ) (g : Group P)
      → Above p g
      → shr p h ≡ 2 * a + 1
      → Shared (suc h) a g
      → Shared h (2 * a + 1) g × AllOnes h g
  unfolding Above Shared AllOnes
  ones_share h a p [] above e s = (tt, tt)
  ones_share h a p ((q, v) ∷ g) above e s =
      let on : bit q h ≡ true =
        ground (arith, shr-bit q h, shr_le p q h (omega (arith, above.0)), s.0) in
      let here : shr q h ≡ 2 * a + 1 = ground (arith, shr-bit q h, s.0) in
      let rest = ones_share h a q g above.1 here s.1 in ((here, rest.0), (on, rest.1))

  zeros-Above : (p h : ℕ) (g : Group P) → Above p g → Above p (zeros h g)
  unfolding Above zeros
  zeros-Above p h [] a = tt
  zeros-Above p h ((q, v) ∷ g) a =
      if_split (Above p) (bit q h) [] ((q, v) ∷ zeros h g) (λ e. tt)
        (λ e. (a.0, zeros-Above q h g a.1))

  abbrev Halves : ℕ → ℕ → Group P → Group P → Type 0
  Halves h a zs os =
      Shared h (2 * a) zs × Ascending zs × Shared h (2 * a + 1) os × Ascending os × AllOnes h os

  if_Halves :
      (h a : ℕ) (b : Bool) (zs os ys ns : Group P)
      → (b ≡ true → Halves h a zs os)
      → (b ≡ false → Halves h a ys ns)
      → Halves h a (if b then zs else ys) (if b then os else ns)
  if_Halves h a true zs os ys ns t f = t refl
  if_Halves h a false zs os ys ns t f = f refl

  halves :
      (h a : ℕ) (g : Group P) → Ascending g → Shared (suc h) a g → Halves h a (zeros h g) (ones h g)
  unfolding Shared Ascending zeros ones AllOnes
  halves h a [] asc s = (tt, tt, tt, tt, tt)
  halves h a ((q, v) ∷ g) asc s =
      let rest = halves h a g (Ascending-Above q g asc) s.1 in
      if_Halves h a (bit q h) [] ((q, v) ∷ g) ((q, v) ∷ zeros h g) (ones h g)
        (λ e.
          let here : shr q h ≡ 2 * a + 1 = ground (arith, shr-bit q h, s.0) in
          let more = ones_share h a q g asc here s.1 in (tt, tt, (here, more.0), asc, (e, more.1)))
        (λ e.
          let here : shr q h ≡ 2 * a = ground (arith, shr-bit q h, s.0) in
          ((here, rest.0), zeros-Above q h g asc, rest.2, rest.3, rest.4))

  Shared-Grouped : (h a : ℕ) (g : Group P) → Ascending g → Shared h a g → Grouped h g
  unfolding Grouped Ascending Above Shared shr
  Shared-Grouped zero a [] asc s = tt
  Shared-Grouped zero a (x ∷ []) asc s = tt
  Shared-Grouped zero a ((p, v) ∷ (q, w) ∷ g) asc s = omega (arith, asc.0, s.0, s.1.0)
  Shared-Grouped (suc h) a g asc s =
      let both = halves h a g asc s in
      (
        both.4,
        Shared-Grouped h (2 * a) (zeros h g) both.1 both.0,
        Shared-Grouped h (2 * a + 1) (ones h g) both.3 both.2,
      )

  -- The paths are 32 bytes.
  unfoldable pub Bounded : Group P → Type 0
  Bounded [] = Unit
  Bounded ((p, v) ∷ g) = (p < 2 ^ 256) × Bounded g

  Bounded-Shared : (g : Group P) → Bounded g → Shared 256 0 g
  unfolding Bounded Shared
  Bounded-Shared [] b = tt
  Bounded-Shared ((p, v) ∷ g) b = (shr_small p 256 b.0, Bounded-Shared g b.1)

  pub Ascending-Grouped : (g : Group P) → Ascending g → Bounded g → Grouped 256 g
  Ascending-Grouped g asc b = Shared-Grouped 256 0 g asc (Bounded-Shared g b)

  -- A payload with its path.
  abbrev pub named : ℕ → Option P → Option (ℕ × P)
  named p (some v) = some (p, v)
  named p none = none

  pub find-lookup :
      (p : ℕ) (g : Group P) → p < 2 ^ 256 → Bounded g → find 256 p g ≡ named p (lookup p g)
  unfolding find lookup Bounded
  find-lookup p [] lt b = refl
  find-lookup p ((q, v) ∷ g) lt b = ground (arith, common_all p q lt b.0, find-lookup p g lt b.1)
