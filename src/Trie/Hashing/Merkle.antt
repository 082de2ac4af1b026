-- ===== src/Trie/Hashing/Merkle.antt =====
-- The complete binary tree over all paths, the reference for the hashes of ledger/trie.
use flow_dps.Base.{
  Bool, false, sym, ℕ, zero, suc, ◌+◌, ◌-◌, ◌*◌, true, false, Option, none, some, if◌then◌else◌,
  ◌≡◌, refl, ap, ◌∙◌, arith,
}
use flow_dps.Trie.{Node, leaf, extension, bit, shr}
use flow_dps.Trie.Lookup.{common, get, left_of, right_of, get-sides}
use flow_dps.Trie.Bits.{shr-bit}
use flow_dps.Trie.Reads.{payload_of}

-- A number with given bits above a height, and those of a path below it.
unfoldable mixed : ℕ → ℕ → ℕ → ℕ
mixed zero a q = a
mixed (suc h) a q = mixed h (2 * a + (if bit q h then 1 else 0)) q

shr-mixed : (h a q : ℕ) → shr (mixed h a q) h ≡ a
unfolding mixed shr
shr-mixed zero a q = refl
shr-mixed (suc h) a q = ground (
  arith,
  shr-mixed h (2 * a + (if bit q h then 1 else 0)) q,
  shr-bit (mixed h (2 * a + (if bit q h then 1 else 0)) q) h,
)

common-mixed : (h a q : ℕ) → common h h (mixed h a q) q ≡ true
unfolding mixed common
common-mixed zero a q = refl
common-mixed (suc h) a q = ground (
  arith,
  shr-mixed h (2 * a + (if bit q h then 1 else 0)) q,
  shr-bit (mixed h (2 * a + (if bit q h then 1 else 0)) q) h,
  shr-mixed (suc h) a q,
  common-mixed h (2 * a + (if bit q h then 1 else 0)) q,
)

module _ {P : Type 0} where
  -- Each leaf below a height has the path that leads to it.
  abbrev pub Placed : Node P → ℕ → ℕ → Type 0
  Placed t h a = (p q : ℕ) (v : P) → shr p h ≡ a → get t h p ≡ some (q, v) → q ≡ p

  abbrev pub holds : Node P → ℕ → ℕ → Option P
  holds t h p = payload_of (get t h p)

  pub left-Placed : (t : Node P) (h a : ℕ) → Placed t (suc h) a → Placed (left_of h t) h (2 * a)
  left-Placed t h a f p q v e g =
      let off : bit p h ≡ false = ground (arith, shr-bit p h) in
      f p q v (ground (arith, shr-bit p h)) (
        get-sides t h p
        ∙ ap (λ b. if b then get (right_of h t) h p else get (left_of h t) h p) off
        ∙ g)

  pub right-Placed :
      (t : Node P) (h a : ℕ) → Placed t (suc h) a → Placed (right_of h t) h (2 * a + 1)
  right-Placed t h a f p q v e g =
      let on : bit p h ≡ true = ground (arith, shr-bit p h) in
      f p q v (ground (arith, shr-bit p h)) (
        get-sides t h p
        ∙ ap (λ b. if b then get (right_of h t) h p else get (left_of h t) h p) on
        ∙ g)

  pub holds-side :
      (t : Node P) (h p : ℕ) (b : Bool)
      → bit p h ≡ b
      → holds (if b then right_of h t else left_of h t) h p ≡ holds t (suc h) p
  holds-side t h p true e = ap payload_of (
      sym
        (get-sides t h p ∙ ap (λ b. if b then get (right_of h t) h p else get (left_of h t) h p) e))
  holds-side t h p false e = ap payload_of (
      sym
        (get-sides t h p ∙ ap (λ b. if b then get (right_of h t) h p else get (left_of h t) h p) e))

  -- The leaf below an extension has the extension's bits.
  pub leaf_bit :
      (q q' h a : ℕ) (v : P) → Placed (extension q h (leaf q' v)) (suc h) a → bit q' h ≡ bit q h
  unfolding get common
  leaf_bit q q' h a v f =
      let p = mixed (suc h) a q in
      let bottom : suc h - suc h ≡ 0 = omega arith in
      let here : get (extension q h (leaf q' v)) (suc h) p ≡ some (q', v) =
        ap (λ b. if b then get (leaf q' v) (suc h - suc h) p else none) (common-mixed (suc h) a q)
        ∙ ap (λ k. get (leaf q' v) k p) bottom in
      ap (λ x. bit x h) (f p q' v (shr-mixed (suc h) a q) here)
      ∙ ground (arith, common-mixed (suc h) a q)

module _ {P H : Type 0} (inter : H → H → H) (default : ℕ → H) (compact : ℕ → P → ℕ → H) where
  abbrev pub value : ℕ → Option P → H
  value p (some v) = compact p v 0
  value p none = default 0

  -- The root of the complete tree of a height over the paths that begin with the bits `a`.
  unfoldable pub merkle : (ℕ → Option P) → ℕ → ℕ → H
  merkle f zero a = value a (f a)
  merkle f (suc h) a = inter (merkle f h (2 * a)) (merkle f h (2 * a + 1))

  pub merkle_eq :
      (f g : ℕ → Option P) (h a : ℕ)
      → ((p : ℕ) → shr p h ≡ a → f p ≡ g p)
      → merkle f h a ≡ merkle g h a
  unfolding merkle shr
  merkle_eq f g zero a e = λ i. value a (e a refl i)
  merkle_eq f g (suc h) a e = λ i.
      inter (merkle_eq f g h (2 * a) (λ p s. e p (ground (arith, shr-bit p h, s))) i)
        (merkle_eq f g h (2 * a + 1) (λ p s. e p (ground (arith, shr-bit p h, s))) i)
