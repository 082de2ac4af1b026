-- ===== src/Trie/Mutation/Crossing.antt =====
-- A group of Mutate of ledger/trie/trie.go within an extension of the target.
use flow_dps.Base.{
  ℕ, suc, ◌-◌, ◌≤◌, true, false, not, ◌&&◌, [], if◌then◌else◌, ◌≡◌, ◌≢◌, refl, sym, ◌∙◌, subst,
  if_split, arith,
}
use flow_dps.Trie.{Node, nil, leaf, branch, extension, bit, sub8}
use flow_dps.Trie.Lookup.{Shape, below}
use flow_dps.Trie.Mutation.{
  Group, Pointer, Rec, at, fork, along, cross, follows, is_empty, map_node, path_of, cut_rest,
}
use flow_dps.Trie.Mutation.Pointers.{view, Source, cut_rest-below}
use flow_dps.Trie.Mutation.Outcomes.{Done, Split, Aligned, Places, Crosses, Parted}
use flow_dps.Trie.Mutation.Forking.{leaving}
use flow_dps.Trie.Mutation.Steps.{along_lem, cut_off}
use flow_dps.Trie.Mutation.Placing.{both_ways, leaves_first}

module _ {P : Type 0} where
  cross_cases :
      (rec : Rec P) (h : ℕ) (g zs os : Group P) (s : Pointer P) (o : Node P) (q n c : ℕ)
      → 1 ≤ c
      → c ≤ 255
      → (follows (bit q h) zs os ≡ true → Split q c (suc h) g o (along rec g s q n c))
      → (follows (bit q h) zs os ≡ false
          → Done (suc h) g o (
              fork rec h s
                (if not (bit q h) && is_empty zs then cut_rest q n c s.node else nil)
                (if bit q h && is_empty os then cut_rest q n c s.node else nil)
                zs
                os))
      → Split q c (suc h) g o (cross rec h g s q n c zs os)
  unfolding cross
  cross_cases rec h g zs os s o q n c c1 c255 stay leave =
      let l = if not (bit q h) && is_empty zs then cut_rest q n c s.node else nil in
      let r = if bit q h && is_empty os then cut_rest q n c s.node else nil in
      if_split (Split q c (suc h) g o) (follows (bit q h) zs os) (along rec g s q n c)
        (map_node (extension q (sub8 c 1)) (fork rec h s l r zs os)) stay
        (λ e. cut_off q c (suc h) g o (fork rec h s l r zs os) c1 c255 (leave e))

  pub cross_lem :
      (rec : Rec P) (h : ℕ) (g zs os : Group P) (t : Node P) (k q n c : ℕ)
      → h ≤ 255
      → Places rec h
      → Crosses rec h
      → g ≢ []
      → Parted h g zs os
      → (bit (path_of g) h ≡ true → zs ≡ [])
      → (bit (path_of g) h ≡ false → zs ≢ [])
      → Source t k (suc h)
      → 1 ≤ c
      → c ≤ n
      → n ≤ 255
      → Aligned q n c (suc h) g t k
      → Split q c (suc h) g (view t k) (cross rec h g (at t k) q n c zs os)
  unfolding Source view Aligned Shape
  cross_lem rec h g zs os nil k q n c le places crosses ne parts f1 f0 s c1 cn n255 a =
      cross_cases rec h g zs os (at nil k) nil q n c c1 (omega arith)
        (λ e.
          along_lem rec h g zs os (at nil k) nil q n c le places crosses ne parts e (tt, refl) cn
            n255 a)
        (λ e.
          let (z_some, o_some) =
            leaves_first (bit (path_of g) h) zs os f1 f0
              (subst (λ x. follows (bit x h) zs os ≡ false) a.1 e) in
          both_ways rec h k (if not (bit q h) && is_empty zs then cut_rest q n c nil else nil)
            (if bit q h && is_empty os then cut_rest q n c nil else nil) g zs os le places ne parts
            z_some o_some)
  cross_lem rec h g zs os (leaf q' v) k q n c le places crosses ne parts f1 f0 s c1 cn n255 a =
      elim s [ ]
  cross_lem rec h g zs os (branch l r) k q n c le places crosses ne parts f1 f0 s c1 cn n255 a =
      elim a [ ]
  cross_lem rec h g zs os (extension q' m t) k q n c le places crosses ne parts f1 f0 s c1 cn n255
        a =
      let src = at (extension q' m t) k in
      cross_cases rec h g zs os src (extension q' (m - k) t) q n c c1 (omega arith)
        (λ e.
          along_lem rec h g zs os src (extension q' (m - k) t) q n c le places crosses ne parts e
            (s, refl) cn n255 a)
        (λ e.
          let b = cut_rest q n c (extension q' m t) in
          subst
            (λ x. Done (suc h) g (extension q' (m - k) t) (
              fork rec h src (if not (bit x h) && is_empty zs then b else nil)
                (if bit x h && is_empty os then b else nil) zs os))
            a.0
            (leaving rec h q' m k t b g zs os le places ne parts s
              (cut_rest-below q n c q' m t cn n255 ∙ (λ i. below (sym a.0 i) (sym a.1 i) t))
              (subst (λ x. follows (bit x h) zs os ≡ false) (sym a.0) e)))
