-- ===== src/Trie/Reads.antt =====
-- The reads of ledger/trie/trie.go against the bit-by-bit lookup.
use flow_dps.Base.{
  ℕ, zero, suc, ◌+◌, ◌-◌, ◌%◌, ◌≤◌, ◌==◌, Option, none, some, List, [], ◌∷◌, map, ◌≡◌, refl, subst,
  sym, arith,
}
use flow_dps.Base.Outcome.{not_found, Result, ok, err}
use flow_dps.Trie.{Node, nil, leaf, branch, extension, common_bits, read, read_root, unsafe_read}
use flow_dps.Trie.Lookup.{common, get, Shape, Side}

-- A missing path is the error that UnsafeRead tells apart.
abbrev pub found : {P : Type 0} → Option (ℕ × P) → Result P
found (some (q, v)) = ok v
found none = err not_found

-- The loop counts all bits of the extension exactly if they are all in common.
common_bits_lem :
    (n h i limit p q : ℕ)
    → n ≤ h
    → limit + 1 ≡ i + n
    → (common_bits h i limit p q == n) ≡ common n h p q
unfolding common_bits common
common_bits_lem zero zero i limit p q le e = ground arith
common_bits_lem zero (suc h) i limit p q le e = ground arith
common_bits_lem (suc n) zero i limit p q le e = elim le [ ]
common_bits_lem (suc n) (suc h) i limit p q le e =
    ground (arith, common_bits_lem n h (i + 1) limit p q (omega arith) (omega arith))

abbrev pub payload_of : {P : Type 0} → Option (ℕ × P) → Option P
payload_of (some (q, v)) = some v
payload_of none = none

module _ {P : Type 0} where
  pub read-get : (t : Node P) (h p : ℕ) → h ≤ 256 → Shape t h → read t h p ≡ found (get t h p)
  unfolding read get Shape
  read-get nil h p le s = elim s [ ]
  read-get (leaf q v) zero p le s = refl
  read-get (leaf q v) (suc h) p le s = elim s [ ]
  read-get (branch l r) zero p le s = elim s [ ]
  read-get (branch l r) (suc h) p le s =
      ground (arith, read-get l h p (omega arith) s.0, read-get r h p (omega arith) s.1)
  read-get (extension q n c) zero p le s = elim s.0 [ ]
  read-get (extension q n c) (suc h) p le s =
      let down : h - n ≡ suc h - suc n = omega arith in
      let e : read c (h - n) p ≡ found (get c (suc h - suc n) p) =
        subst (λ k. read c (h - n) p ≡ found (get c k p)) down
          (read-get c (h - n) p (omega arith) (subst (Shape c) (sym down) s.1)) in
      ground (
        arith,
        e,
        common_bits_lem n h (255 - h + 1) ((255 - h + n) % 256) p q (omega (arith, s.0))
            (omega (arith, s.0)),
      )

  pub read_root-get : (t : Node P) (p : ℕ) → Side t 256 → read_root t p ≡ found (get t 256 p)
  unfolding read_root read get Shape
  read_root-get nil p s = refl
  read_root-get (leaf q v) p s = elim s [ ]
  read_root-get (branch l r) p s = read-get (branch l r) 256 p (omega arith) s
  read_root-get (extension q n c) p s = read-get (extension q n c) 256 p (omega arith) s

  -- UnsafeRead of a trie that is empty or well formed never panics: it answers each path with the
  -- payload that the bit-by-bit lookup finds there, or nil if there is none.
  pub unsafe_read-get :
      (t : Node P) (ps : List ℕ)
      → Side t 256
      → unsafe_read t ps ≡ ok (map (λ p. payload_of (get t 256 p)) ps)
  unfolding unsafe_read
  unsafe_read-get t [] s = refl
  unsafe_read-get t (p ∷ ps) s = ground (arith, read_root-get t p s, unsafe_read-get t ps s)
