-- ===== src/Checkpoint/Flatten/Sound.antt =====
-- When flattened nodes stand for the nodes that they were made of.
use flow_dps.Base.{
  ℕ, zero, suc, ◌+◌, ◌<◌, ◌==◌, leb, ◌≡◌, ◌≢◌, ◌⊎◌, inl, inr, refl, sym, ap, ◌∙◌, Bool, true, false,
  ◌||◌, Option, none, some, List, [], ◌∷◌, ◌++◌, length, All, if◌then◌else◌, arith, Bool-cases,
  ==_iff,
}
use flow_dps.Base.Outcome.{Result, ok, err, other, ok-injective}
use flow_dps.Base.Outcome.Steps.{◌>>=◌}
use flow_dps.Base.Store.{Store, lookup, insert, lookup-insert}
use flow_dps.Storage.Encoding.{big_endian}
use flow_dps.Storage.Entries.{IsArray}
use flow_dps.Checkpoint.Light.{Formats, LightNode}
use flow_dps.Checkpoint.Rebuild.{
  HashedNode, nil, leaf, branch, extension, at, Arrays, from_light_node, rebuild_from,
  rebuild_nodes, disordered,
}
use flow_dps.Checkpoint.Flatten.{Object, leaf_at, branch_at, extension_at, Flattening}

-- The bytes of an array are read as the array, and payloads decode to what was encoded.
pub record Restores {P : Type 0} (F : Formats P) (R : Arrays) : Type 0 where
  pub hash_of_bytes : (x : ℕ) → IsArray x → R.to_hash (big_endian 32 x) ≡ ok x
  pub path_of_bytes : (x : ℕ) → IsArray x → R.to_path (big_endian 32 x) ≡ ok x
  pub payload : (p : P) → F.decode_payload (F.encode_payload p) ≡ ok p

module _ {A : Type 0} where
  pub at-append : (xs ys : List A) (j : ℕ) (a : A) → at xs j ≡ ok a → at (xs ++ ys) j ≡ ok a
  at-append [] ys j a e = ground arith
  at-append (x ∷ xs) ys zero a e = e
  at-append (x ∷ xs) ys (suc j) a e = at-append xs ys j a e

  pub at-snoc : (xs : List A) (y : A) → at (xs ++ y ∷ []) (length xs) ≡ ok y
  at-snoc [] y = refl
  at-snoc (x ∷ xs) y = at-snoc xs y

  pub at_bound : (xs : List A) (j : ℕ) (a : A) → at xs j ≡ ok a → j < length xs
  at_bound [] j a e = ground arith
  at_bound (x ∷ xs) zero a e = omega arith
  at_bound (x ∷ xs) (suc j) a e = omega (arith, at_bound xs j a e)

module _ {P : Type 0} (F : Formats P) (R : Arrays) where
  pub rebuild_from-snoc :
      (ls : List (Option LightNode)) (i : ℕ) (ns ms : List (HashedNode P)) (l : LightNode)
      (node : HashedNode P)
      → rebuild_from F R i ns ls ≡ ok ms
      → l.l_index < i + length ls
      → l.r_index < i + length ls
      → from_light_node F R l ms ≡ ok node
      → rebuild_from F R i ns (ls ++ some l ∷ []) ≡ ok (ms ++ node ∷ [])
  unfolding rebuild_from
  rebuild_from-snoc [] i ns ms l node e hl hr h =
      let low : (leb i l.l_index || leb i l.r_index) ≡ false = ground arith in
      rw (low, ok-injective e, h)
  rebuild_from-snoc (none ∷ ls) i ns ms l node e hl hr h =
      rebuild_from-snoc ls (suc i) (ns ++ nil ∷ []) ms l node e (omega arith) (omega arith) h
  rebuild_from-snoc (some x ∷ ls) i ns ms l node e hl hr h =
      go (leb i x.l_index || leb i x.r_index) (from_light_node F R x ns) e (λ y q.
        rebuild_from-snoc ls (suc i) (ns ++ y ∷ []) ms l node q (omega arith) (omega arith) h)
    where
      go :
          (b : Bool) (r : Result (HashedNode P))
          → (if b
              then err (other disordered)
              else (r >>= (λ y. rebuild_from F R (suc i) (ns ++ y ∷ []) ls)))
            ≡ ok ms
          → ((y : HashedNode P)
              → rebuild_from F R (suc i) (ns ++ y ∷ []) ls ≡ ok ms
              → rebuild_from F R (suc i) (ns ++ y ∷ []) (ls ++ some l ∷ []) ≡ ok (ms ++ node ∷ []))
          → (if b
              then err (other disordered)
              else (r >>= (λ y. rebuild_from F R (suc i) (ns ++ y ∷ []) (ls ++ some l ∷ []))))
            ≡ ok (ms ++ node ∷ [])
      go true r q k = ground arith
      go false (ok y) q k = k y q
      go false (err x) q k = ground arith

-- The tree that stands at an address.
abbrev pub Represents : {P : Type 0} → (ℕ → Object P) → ℕ → HashedNode P → Type 0
Represents heap a nil = a ≡ 0
Represents heap a (leaf q v h) = (a ≢ 0) × (heap a ≡ leaf_at q v h true)
Represents heap a (branch l r h) =
    (a ≢ 0)
    × (x : ℕ) × (y : ℕ) × (heap a ≡ branch_at x y h true)
    × Represents heap x l
    × Represents heap y r
Represents heap a (extension q n c h) =
    (a ≢ 0) × (x : ℕ) × (heap a ≡ extension_at q n x h true) × Represents heap x c

-- Where the nodes that are rebuilt from the flattened ones are the trees at the indexed addresses.
pub record IsSound {P : Type 0} (F : Formats P) (R : Arrays) (heap : ℕ → Object P) (f : Flattening)
    (nodes : List (HashedNode P)) : Type 0 where
  pub built : rebuild_nodes F R f.nodes ≡ ok nodes
  pub size : length nodes ≡ f.count
  pub positive : 0 < f.count
  pub light_size : length f.nodes ≡ f.count
  pub tree_at :
      (a j : ℕ)
      → lookup a f.index ≡ some j
      → (t : HashedNode P) × (at nodes j ≡ ok t) × Represents heap a t × (a ≢ 0 → j ≢ 0)

module _ {P : Type 0} (heap : ℕ → Object P) where
  -- A child that is not nil and stands among the addresses seen.
  abbrev pub IsSeen : List ℕ → ℕ → Type 0
  IsSeen [] x = ⊥
  IsSeen (a ∷ seen) x = (a ≡ x) ⊎ IsSeen seen x

  -- A clean node with its arrays in range, whose children were seen.
  abbrev pub IsReady : List ℕ → Object P → Type 0
  IsReady seen (leaf_at q v h clean) = (clean ≡ true) × IsArray q × IsArray h
  IsReady seen (branch_at x y h clean) =
      (clean ≡ true) × IsArray h × (x ≢ 0) × (y ≢ 0) × IsSeen seen x × IsSeen seen y
  IsReady seen (extension_at q n x h clean) =
      (clean ≡ true) × IsArray q × IsArray h × (x ≢ 0) × IsSeen seen x

  -- Descendants first: each node comes after its children.
  abbrev pub DescendantsFirst : List ℕ → List ℕ → Type 0
  DescendantsFirst seen [] = Unit
  DescendantsFirst seen (a ∷ order) =
      (a ≢ 0) × IsReady seen (heap a) × DescendantsFirst (a ∷ seen) order

  -- The addresses seen after an order.
  abbrev pub onto : List ℕ → List ℕ → List ℕ
  onto [] seen = seen
  onto (a ∷ order) seen = onto order (a ∷ seen)

  abbrev pub Indexed : Store ℕ → List ℕ → Type 0
  Indexed index seen = All (λ a. (j : ℕ) × (lookup a index ≡ some j)) seen

  pub seen_index :
      (index : Store ℕ) (seen : List ℕ) (x : ℕ)
      → Indexed index seen
      → IsSeen seen x
      → (j : ℕ) × (lookup x index ≡ some j)
  seen_index index [] x h s = absurd s
  seen_index index (a ∷ seen) x h (inl e) = (h.0.0, ap (λ b. lookup b index) (sym e) ∙ h.0.1)
  seen_index index (a ∷ seen) x h (inr s) = seen_index index seen x h.1 s

  pub lookup_kept :
      (index : Store ℕ) (x a c j : ℕ)
      → lookup a index ≡ none
      → lookup x index ≡ some j
      → lookup x (insert a c index) ≡ some j
  lookup_kept index x a c j n e = elim (Bool-cases (a == x)) [
    | inl q ↦ ground (arith, ap (λ b. lookup b index) ((==_iff a x).0 q))
    | inr q ↦ (rw (lookup-insert a x c index, q)) ∙ e
  ]

  pub Indexed-insert :
      (index : Store ℕ) (seen : List ℕ) (a c : ℕ)
      → lookup a index ≡ none
      → Indexed index seen
      → Indexed (insert a c index) seen
  Indexed-insert index [] a c n h = tt
  Indexed-insert index (x ∷ seen) a c n h =
      ((h.0.0, lookup_kept index x a c h.0.0 n h.0.1), Indexed-insert index seen a c n h.1)
