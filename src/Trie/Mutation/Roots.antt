-- ===== src/Trie/Mutation/Roots.antt =====
-- Mutate of ledger/trie/trie.go at the root: what the new trie holds, and the shape that its root has.
use flow_dps.Base.{
  ℕ, zero, suc, ◌-◌, ◌^◌, ◌≤◌, ◌<◌, ◌==◌, not, ◌&&◌, List, [], ◌∷◌, if◌then◌else◌, ◌≡◌, ◌≢◌, refl,
  ap, ◌∙◌, subst, if_split, ==_iff, All, length, arith,
}
use flow_dps.Base.Outcome.{size_mismatch, Result, ok, err}
use flow_dps.Base.Store.{lookup}
use flow_dps.Trie.{Node, nil, leaf, branch, extension, bit, inc8, sub8}
use flow_dps.Trie.Lookup.{get, Shape}
use flow_dps.Trie.Mutation.{
  Group, Pointer, Rec, at, empty, within, forward, fork, along, place, cross, advance, grow,
  insert_leaf, mutate, map_node, join, insert_sorted, zeros, ones, zip, sort_group, follows,
  is_empty, rest_of, cut_rest,
}
use flow_dps.Trie.Mutation.Pointers.{view, Source, Points}
use flow_dps.Trie.Mutation.Outcomes.{updated}
use flow_dps.Trie.Mutation.Growing.{grow_lem}
use flow_dps.Trie.Mutation.Ordering.{Ascending-Grouped, named, find-lookup}
use flow_dps.Trie.Mutation.Sorting.{Distinct, sort_group-zip}

module _ {P : Type 0} where
  -- A trie that is empty, or whose root is not the one extension to a single leaf.
  unfoldable pub Root : Node P → Type 0
  Root nil = Unit
  Root (leaf q v) = ⊥
  Root (branch l r) = Shape (branch l r) 256
  Root (extension q n c) = (n < 255) × Shape (extension q n c) 256

  -- A root whose extension has at most `b + 1` bits.
  abbrev Narrow : ℕ → Node P → Type 0
  Narrow b (extension q n c) = n ≤ b
  Narrow b _ = Unit

  abbrev Narrows : ℕ → Result (Node P) → Type 0
  Narrows b (ok t) = Narrow b t
  Narrows b (err e) = Unit

  Narrows-map_node :
      (b : ℕ) (f : Node P → Node P) (r : Result (Node P))
      → ((t : Node P) → Narrow b (f t))
      → Narrows b (map_node f r)
  Narrows-map_node b f (ok t) h = h t
  Narrows-map_node b f (err e) h = tt

  Narrows-join : (b : ℕ) (l r : Result (Node P)) → Narrows b (join l r)
  Narrows-join b (ok l) (ok r) = tt
  Narrows-join b (ok l) (err e) = tt
  Narrows-join b (err e) r = tt

  fork-Narrows :
      (b : ℕ) (rec : Rec P) (h : ℕ) (s : Pointer P) (l r : Node P) (zs os : Group P)
      → Narrows b (fork rec h s l r zs os)
  unfolding fork
  fork-Narrows b rec h s l r zs [] = Narrows-map_node b (λ t. branch t r) (rec empty zs _) (λ t. tt)
  fork-Narrows b rec h s l r [] (y ∷ os) =
      Narrows-map_node b (λ t. branch l t) (rec empty (y ∷ os) _) (λ t. tt)
  fork-Narrows b rec h s l r (z ∷ zs) (y ∷ os) =
      Narrows-join b (rec empty (z ∷ zs) _) (rec empty (y ∷ os) _)

  -- An extension of the target is never made longer.
  abbrev Within : ℕ → Rec P → Type 0
  Within b rec =
      (g : Group P) (s : Pointer P) (q n c : ℕ)
      → n ≤ b
      → 1 ≤ c
      → c ≤ n
      → Narrows b (rec (within q n c) g s)

  along-Narrows :
      (b : ℕ) (rec : Rec P) (g : Group P) (s : Pointer P) (q n c : ℕ)
      → b ≤ 255
      → Within b rec
      → n ≤ b
      → c ≤ n
      → Narrows b (along rec g s q n c)
  unfolding along
  along-Narrows b rec g s q n c le rest nb cn =
      let next = forward s.node s.count in
      if_split (Narrows b) (c == n) (map_node (extension q n) (rec empty g next))
        (rec (within q n (inc8 c)) g next)
        (λ e. Narrows-map_node b (extension q n) (rec empty g next) (λ t. nb))
        (λ e.
          let lt : c < n = ground arith in rest g next q n (inc8 c) nb (omega arith) (omega arith))

  grow-Within : (b h : ℕ) → b ≤ 255 → Within b (grow h)
  unfolding grow advance cross insert_leaf
  grow-Within b zero le [] s q n c nb c1 cn = tt
  grow-Within b zero le (x ∷ []) s q n c nb c1 cn = tt
  grow-Within b zero le (x ∷ y ∷ g) s q n c nb c1 cn = tt
  grow-Within b (suc h) le g s q n c nb c1 cn =
      let zs = zeros h g in
      let os = ones h g in
      let l = if not (bit q h) && is_empty zs then cut_rest q n c s.node else nil in
      let r = if bit q h && is_empty os then cut_rest q n c s.node else nil in
      if_split (Narrows b) (follows (bit q h) zs os) (along (grow h) g s q n c)
        (map_node (extension q (sub8 c 1)) (fork (grow h) h s l r zs os))
        (λ e. along-Narrows b (grow h) g s q n c le (grow-Within b h le) nb cn)
        (λ e.
          Narrows-map_node b (extension q (sub8 c 1)) (fork (grow h) h s l r zs os)
            (λ t. omega arith))

  place-Narrows :
      (rec : Rec P) (h : ℕ) (g : Group P) (t : Node P) (zs os : Group P)
      → Within 254 rec
      → t ≢ nil
      → Root t
      → Narrows 254 (place rec h g t 0 zs os)
  unfolding place Root
  place-Narrows rec h g nil zs os w full root = elim (full refl) [ ]
  place-Narrows rec h g (leaf q v) zs os w full root = elim root [ ]
  place-Narrows rec h g (branch l r) zs os w full root =
      fork-Narrows 254 rec h (at (branch l r) 0) (if is_empty zs then l else nil)
        (if is_empty os then r else nil) zs os
  place-Narrows rec h g (extension q n c) zs os w full root =
      let s = at (extension q n c) 0 in
      let l = if not (bit q h) && is_empty zs then rest_of q n 0 c else nil in
      let r = if bit q h && is_empty os then rest_of q n 0 c else nil in
      if_split (Narrows 254) (follows (bit q h) zs os) (along rec g s q (sub8 n 0) 0)
        (fork rec h s l r zs os)
        (λ e.
          along-Narrows 254 rec g s q (sub8 n 0) 0 (omega arith) w (omega (arith, root.0))
            (omega arith))
        (λ e. fork-Narrows 254 rec h s l r zs os)

  -- The new trie holds the written payloads, and else what the old one held; it is no single leaf
  -- below an extension if the old one was not.
  abbrev pub Written : Node P → Group P → Node P → Type 0
  Written t g u =
      Shape u 256
      × ((p : ℕ) → p < 2 ^ 256 → get u 256 p ≡ updated (named p (lookup p g)) (get t 256 p))
      × (t ≢ nil → Root u)

  Root-Points : (t : Node P) → Root t → Points (at t 0) 256 t
  unfolding Root Source view Shape
  Root-Points nil r = (tt, refl)
  Root-Points (leaf q v) r = elim r [ ]
  Root-Points (branch l r) s = (s, refl)
  Root-Points (extension q n c) s =
      let e : n ≡ n - 0 = omega arith in
      (
        (s.0, omega arith, subst (λ m. Shape (extension q m c) 256) e s.1),
        subst (λ m. extension q m c ≡ extension q n c) e refl,
      )

  Narrow-Root : (u : Node P) → Shape u 256 → Narrow 254 u → Root u
  unfolding Root Shape
  Narrow-Root nil s n = tt
  Narrow-Root (leaf q v) s n = s
  Narrow-Root (branch l r) s n = s
  Narrow-Root (extension q m c) s n = (omega arith, s)

  sort_group-some : (p : ℕ) (v : P) (g : Group P) → insert_sorted p v g ≢ []
  unfolding insert_sorted
  sort_group-some p v [] e = ground arith
  sort_group-some p v ((q, w) ∷ g) e = ground arith

  mutate-grow :
      (t : Node P) (p : ℕ) (ps : List ℕ) (v : P) (vs : List P)
      → length ps ≡ length vs
      → mutate t (p ∷ ps) (v ∷ vs) ≡ grow 256 empty (sort_group (zip (p ∷ ps) (v ∷ vs))) (at t 0)
  unfolding mutate
  mutate-grow t p ps v vs len =
      ap
        (λ b.
          if b
          then grow 256 empty (sort_group (zip (p ∷ ps) (v ∷ vs))) (at t 0)
          else err size_mismatch)
        ((==_iff (suc (length ps)) (suc (length vs))).1 (omega arith))

  pub mutate_lem :
      (t : Node P) (p : ℕ) (ps : List ℕ) (v : P) (vs : List P)
      → Root t
      → Distinct (p ∷ ps)
      → All (λ p. p < 2 ^ 256) (p ∷ ps)
      → length ps ≡ length vs
      → (u : Node P) × (mutate t (p ∷ ps) (v ∷ vs) ≡ ok u) × Written t (zip (p ∷ ps) (v ∷ vs)) u
  unfolding sort_group grow advance
  mutate_lem t p ps v vs root d b len =
      let g = sort_group (zip (p ∷ ps) (v ∷ vs)) in
      let (asc, bound, same_keys) = sort_group-zip (p ∷ ps) (v ∷ vs) d b in
      let (u, e, (shape, reads)) =
        (grow_lem 256 (omega arith)).0 g (sort_group-some p v (sort_group (zip ps vs)))
          (Ascending-Grouped g asc bound) (at t 0) t (Root-Points t root) in
      (
        u,
        mutate-grow t p ps v vs len ∙ e,
        (
          shape,
          λ k lt. reads k ∙ (λ i.
              updated ((find-lookup k g lt bound ∙ ap (named k) (same_keys k)) i) (get t 256 k)),
          λ full. Narrow-Root u shape (
              subst (Narrows 254) e (
                place-Narrows (grow 255) 255 g t (zeros 255 g) (ones 255 g)
                  (grow-Within 254 255 (omega arith)) full root)),
        ),
      )
