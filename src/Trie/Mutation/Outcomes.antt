-- ===== src/Trie/Mutation/Outcomes.antt =====
-- What Mutate of ledger/trie/trie.go owes to a group at a height, and how the parts of a subtree make
-- up the whole.
use flow_dps.Base.{
  ℕ, suc, ◌+◌, ◌-◌, ◌≤◌, Bool, true, false, Option, none, some, [], ◌∷◌, if◌then◌else◌, ◌≡◌, ◌≢◌,
  refl, ap, subst, arith,
}
use flow_dps.Base.Outcome.{Result, ok}
use flow_dps.Trie.{Node, nil, branch, extension, bit, same}
use flow_dps.Trie.Lookup.{
  get, Shape, below, left_of, right_of, get-sides, get-extension, extension-Shape,
}
use flow_dps.Trie.Mutation.{Group, Pointer, Rec, empty, within, path_of, follows}
use flow_dps.Trie.Mutation.Grouping.{find, Grouped}
use flow_dps.Trie.Mutation.Pointers.{Points}

-- A new payload, or else the old one.
abbrev pub updated : {A : Type 0} → Option A → Option A → Option A
updated (some v) o = some v
updated none o = o

module _ {P : Type 0} where
  -- The new subtree has the payloads of the group, and the old ones elsewhere.
  abbrev pub Correct : ℕ → Group P → Node P → Node P → Type 0
  Correct h g o t = Shape t h × ((p : ℕ) → get t h p ≡ updated (find h p g) (get o h p))

  abbrev pub Done : ℕ → Group P → Node P → Result (Node P) → Type 0
  Done h g o r = (t : Node P) × (r ≡ ok t) × Correct h g o t

  -- The same within an extension of the target whose first `c` bits are above the height.
  abbrev pub Split : ℕ → ℕ → ℕ → Group P → Node P → Result (Node P) → Type 0
  Split q c h g o r =
      (m : ℕ) × (t : Node P) × (r ≡ ok (extension q m t))
      × (c ≤ suc m)
      × Correct h g o (below q (suc m - c) t)

  -- How a pointer into the source stands to an extension of the target that is `c` bits long so far.
  unfoldable pub Aligned : ℕ → ℕ → ℕ → ℕ → Group P → Node P → ℕ → Type 0
  Aligned q n c h g nil k = (suc n ≡ c + h) × (q ≡ path_of g)
  Aligned q n c h g (extension q' m t) k = (q' ≡ q) × (m - k ≡ n - c)
  Aligned q n c h g _ k = ⊥

  abbrev pub Places : Rec P → ℕ → Type 0
  Places rec h =
      (g : Group P)
      → g ≢ []
      → Grouped h g
      → (s : Pointer P) (o : Node P) → Points s h o
      → Done h g o (rec empty g s)

  abbrev pub Crosses : Rec P → ℕ → Type 0
  Crosses rec h =
      (g : Group P)
      → g ≢ []
      → Grouped h g
      → (s : Pointer P) (o : Node P) → Points s h o
      → (q n c : ℕ) → 1 ≤ c
      → c ≤ n
      → n ≤ 255
      → Aligned q n c h g s.node s.count
      → Split q c h g o (rec (within q n c) g s)

  -- The two sides of a group.
  abbrev pub Parted : ℕ → Group P → Group P → Group P → Type 0
  Parted h g zs os =
      ((p : ℕ) → find (suc h) p g ≡ (if bit p h then find h p os else find h p zs))
      × Grouped h zs
      × Grouped h os
      × (os ≡ [] → zs ≡ g)
      × (zs ≡ [] → os ≡ g)

  pub unchanged : (h : ℕ) (t : Node P) → Shape t h → Correct h [] t t
  unfolding find
  unchanged h t s = (s, λ p. refl)

  pub branch-Correct :
      (h : ℕ) (g zs os : Group P) (o l r : Node P)
      → Parted h g zs os
      → Correct h zs (left_of h o) l
      → Correct h os (right_of h o) r
      → Correct (suc h) g o (branch l r)
  unfolding Shape get
  branch-Correct h g zs os o l r parts L R =
      ((L.0, R.0), λ p. ground (arith, L.1 p, R.1 p, parts.0 p, get-sides o h p))

  -- The part of a payload that an extension's next bit lets through.
  abbrev pub On : ℕ → ℕ → ℕ → Option (ℕ × P) → Option (ℕ × P)
  On q h p x = if same (bit p h) (bit q h) then x else none

  pub extension-Correct :
      (h : ℕ) (g : Group P) (o o' : Node P) (q n : ℕ) (t : Node P)
      → ((p : ℕ) → get o (suc h) p ≡ On q h p (get o' h p))
      → ((p : ℕ) → find (suc h) p g ≡ On q h p (find h p g))
      → Correct h g o' (below q n t)
      → Correct (suc h) g o (below q (suc n) t)
  unfolding below
  extension-Correct h g o o' q n t old new c = (
    extension-Shape q n t h c.0,
    λ p. ground (arith, c.1 p, old p, new p, get-extension q n t h p),
  )

  pub follows_all :
      (b : Bool) (h p : ℕ) (g zs os : Group P)
      → Parted h g zs os
      → follows b zs os ≡ true
      → find (suc h) p g ≡ (if same (bit p h) b then find h p g else none)
  unfolding find
  follows_all false h p g zs [] parts e = ground (arith, parts.0 p, ap (find h p) (parts.3 refl))
  follows_all false h p g zs (x ∷ os) parts e = ground arith
  follows_all true h p g [] os parts e = ground (arith, parts.0 p, ap (find h p) (parts.4 refl))
  follows_all true h p g (x ∷ zs) os parts e = ground arith

  pub follows-Grouped :
      (b : Bool) (h : ℕ) (g zs os : Group P)
      → Parted h g zs os
      → follows b zs os ≡ true
      → Grouped h g
  follows-Grouped false h g zs [] parts e = subst (Grouped h) (parts.3 refl) parts.1
  follows-Grouped false h g zs (x ∷ os) parts e = ground arith
  follows-Grouped true h g [] os parts e = subst (Grouped h) (parts.4 refl) parts.2
  follows-Grouped true h g (x ∷ zs) os parts e = ground arith
