-- ===== src/Trie/Mutation/Placing.antt =====
-- A group of Mutate of ledger/trie/trie.go at a nil slot of the target.
use flow_dps.Base.{
  ℕ, suc, ◌-◌, ◌≤◌, Bool, true, false, not, ◌&&◌, [], ◌∷◌, if◌then◌else◌, ◌≡◌, ◌≢◌, refl, ap,
  if_split, arith,
}
use flow_dps.Trie.{Node, nil, leaf, branch, extension, bit, sub8}
use flow_dps.Trie.Lookup.{Shape, left_of, right_of}
use flow_dps.Trie.Mutation.{
  Group, Rec, go_left, go_right, at, fork, along, place, follows, is_empty, path_of, rest_of,
}
use flow_dps.Trie.Mutation.Pointers.{view, Source, at_start, rest_of-below}
use flow_dps.Trie.Mutation.Outcomes.{Done, Aligned, Places, Crosses, Parted}
use flow_dps.Trie.Mutation.Forking.{fork_lem, leaving, split-Points}
use flow_dps.Trie.Mutation.Steps.{along_lem, from_start}

module _ {P : Type 0} where
  -- A group that goes both ways, where the source has nothing.
  pub both_ways :
      (rec : Rec P) (h k : ℕ) (l r : Node P) (g zs os : Group P)
      → h ≤ 255
      → Places rec h
      → g ≢ []
      → Parted h g zs os
      → zs ≢ []
      → os ≢ []
      → Done (suc h) g nil (fork rec h (at nil k) l r zs os)
  unfolding Source view
  both_ways rec h k l r g zs os le places ne parts z_some o_some =
      fork_lem rec h (at nil k) nil l r g zs os places ne parts (split-Points nil k h le tt)
        (λ e. elim (z_some e) [ ]) (λ e. elim (o_some e) [ ])

  -- Where the source has nothing, the target's extension is the first path's: a group follows it, or
  -- else goes both ways.
  follows_first :
      (b : Bool) (zs os : Group P)
      → (b ≡ true → zs ≡ [])
      → (b ≡ false → zs ≢ [])
      → (not (is_empty zs) && not (is_empty os)) ≡ false
      → follows b zs os ≡ true
  follows_first true zs os f1 f0 e = ap is_empty (f1 refl)
  follows_first false [] os f1 f0 e = elim (f0 refl refl) [ ]
  follows_first false (x ∷ zs) [] f1 f0 e = refl
  follows_first false (x ∷ zs) (y ∷ os) f1 f0 e = ground arith

  pub leaves_first :
      (b : Bool) (zs os : Group P)
      → (b ≡ true → zs ≡ [])
      → (b ≡ false → zs ≢ [])
      → follows b zs os ≡ false
      → (zs ≢ []) × (os ≢ [])
  leaves_first true zs os f1 f0 e =
      let no_case : ⊥ = ground (arith, ap is_empty (f1 refl)) in elim no_case [ ]
  leaves_first false zs os f1 f0 e = (f0 refl, λ z. ground (arith, ap is_empty z))

  pub place_lem :
      (rec : Rec P) (h : ℕ) (g zs os : Group P) (t : Node P) (k : ℕ)
      → h ≤ 255
      → Places rec h
      → Crosses rec h
      → g ≢ []
      → Parted h g zs os
      → (bit (path_of g) h ≡ true → zs ≡ [])
      → (bit (path_of g) h ≡ false → zs ≢ [])
      → Source t k (suc h)
      → Done (suc h) g (view t k) (place rec h g t k zs os)
  unfolding place Source view Aligned Shape left_of right_of go_left go_right
  place_lem rec h g zs os nil k le places crosses ne parts f1 f0 s =
      if_split (Done (suc h) g nil) (not (is_empty zs) && not (is_empty os))
        (fork rec h (at nil k) nil nil zs os) (along rec g (at nil k) (path_of g) h 0)
        (λ e.
          both_ways rec h k nil nil g zs os le places ne parts (λ z. ground (arith, ap is_empty z))
            (λ z. ground (arith, ap is_empty z)))
        (λ e. from_start (path_of g) (suc h) g nil (along rec g (at nil k) (path_of g) h 0) (
          along_lem rec h g zs os (at nil k) nil (path_of g) h 0 le places crosses ne parts
            (follows_first (bit (path_of g) h) zs os f1 f0 e) (tt, refl) (omega arith) le
            (omega arith, refl)))
  place_lem rec h g zs os (leaf q v) k le places crosses ne parts f1 f0 s = elim s [ ]
  place_lem rec h g zs os (branch l r) k le places crosses ne parts f1 f0 s =
      fork_lem rec h (at (branch l r) k) (branch l r) (if is_empty zs then l else nil)
        (if is_empty os then r else nil) g zs os places ne parts
        (split-Points (branch l r) k h le s)
        (λ z. (ground (arith, ap is_empty z), s.0, at_start r h le s.1))
        (λ z. (ground (arith, ap is_empty z), s.1, at_start l h le s.0))
  place_lem rec h g zs os (extension q n c) k le places crosses ne parts f1 f0 s =
      let b = follows (bit q h) zs os in
      let keep = rest_of q n k c in
      let src = at (extension q n c) k in
      if_split (Done (suc h) g (extension q (n - k) c)) b (along rec g src q (sub8 n k) 0)
        (fork rec h src (if not (bit q h) && is_empty zs then keep else nil)
          (if bit q h && is_empty os then keep else nil) zs os)
        (λ e. from_start q (suc h) g (extension q (n - k) c) (along rec g src q (sub8 n k) 0) (
          along_lem rec h g zs os src (extension q (n - k) c) q (sub8 n k) 0 le places crosses ne
            parts e (s, refl) (omega arith) (omega (arith, s.0, s.1))
            (refl, omega (arith, s.0, s.1))))
        (λ e.
          leaving rec h q n k c keep g zs os le places ne parts s (rest_of-below q n k c s.1 s.0) e)
