-- ===== src/Trie/Bits.antt =====
-- The bits of a path, as bitutils.Bit of the tries in ledger/trie reads them, and the number that
-- they spell.
use flow_dps.Base.{
  ℕ, zero, suc, ◌+◌, ◌*◌, ◌/◌, ◌^◌, ◌≤◌, ◌<◌, ◌==◌, true, ◌≡◌, refl, sym, ◌∙◌, subst, arith, ==_iff,
  Bool-cases, inl, inr, if◌then◌else◌,
}
use native.Mathlib.Nat.{pow-suc}
use flow_dps.Trie.{shr, bit}
use flow_dps.Trie.Lookup.{common}

pub shr_half : (p h : ℕ) → shr (p / 2) h ≡ shr p h / 2
unfolding shr
shr_half p zero = refl
shr_half p (suc h) = shr_half (p / 2) h

pub shr_le : (p q h : ℕ) → p ≤ q → shr p h ≤ shr q h
unfolding shr
shr_le p q zero le = le
shr_le p q (suc h) le = shr_le (p / 2) (q / 2) h (omega arith)

pub shr_small : (p h : ℕ) → p < 2 ^ h → shr p h ≡ 0
unfolding shr
shr_small p zero lt = omega arith
shr_small p (suc h) lt = shr_small (p / 2) h (omega (arith, pow-suc 2 h))

pub shr_bound : (p h : ℕ) → shr p h ≡ 0 → p < 2 ^ h
unfolding shr
shr_bound p zero e = omega arith
shr_bound p (suc h) e = omega (arith, pow-suc 2 h, shr_bound (p / 2) h e)

pub shr-bit : (p h : ℕ) → shr p h ≡ 2 * shr p (suc h) + (if bit p h then 1 else 0)
unfolding shr bit
shr-bit p h = ground (arith, shr_half p h)

-- Paths with the same bits are the same.
pub common_eq : (h p q : ℕ) → shr p h ≡ shr q h → common h h p q ≡ true → p ≡ q
unfolding common shr
common_eq zero p q e c = e
common_eq (suc h) p q e c =
    common_eq h p q (ground (arith, shr-bit p h, shr-bit q h)) (ground arith)

common_refl : (h p : ℕ) → common h h p p ≡ true
unfolding common
common_refl zero p = refl
common_refl (suc h) p = ground (arith, common_refl h p)

pub common_all : (p q : ℕ) → p < 2 ^ 256 → q < 2 ^ 256 → common 256 256 p q ≡ (q == p)
common_all p q hp hq =
    let top : shr p 256 ≡ shr q 256 = shr_small p 256 hp ∙ sym (shr_small q 256 hq) in
    elim (Bool-cases (common 256 256 p q)) [
      | inl e ↦ e ∙ sym ((==_iff q p).1 (sym (common_eq 256 p q top e)))
      | inr e ↦ elim (Bool-cases (q == p)) [
        | inl f ↦
            let again : common 256 256 p q ≡ true =
              subst (λ x. common 256 256 p x ≡ true) (sym ((==_iff q p).0 f)) (common_refl 256 p) in
            again ∙ sym f
        | inr f ↦ e ∙ sym f
      ]
    ]
