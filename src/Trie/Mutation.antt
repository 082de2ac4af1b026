-- ===== src/Trie/Mutation.antt =====
-- Mutate of ledger/trie/trie.go. The groups in the queue build disjoint parts of the target trie, so
-- each group is a call of `grow`, which returns the node for the slot of its target pointer. A slot
-- that a group moves to is always nil: the sides of a branch and the children of an extension
-- are set in advance only where no path of the group goes. So the cases of the source for a leaf or a
-- payload that the target already has are never met.
pub mod Grouping
pub mod Pointers
pub mod Outcomes
pub mod Forking
pub mod Steps
pub mod Placing
pub mod Crossing
pub mod Growing
pub mod Ordering
pub mod Sorting
pub mod Roots
pub mod Updates
use flow_dps.Base.{
  ℕ, zero, suc, ◌==◌, leb, ltb, Bool, true, false, not, ◌&&◌, List, [], ◌∷◌, length, if◌then◌else◌,
}
use flow_dps.Base.Outcome.{duplicate_record, size_mismatch, panic, Result, ok, err}
use flow_dps.Trie.{Node, nil, leaf, branch, extension, bit, inc8, sub8}

-- A pointer into the source trie.
pub record Pointer (P : Type 0) : Type 0 where
  pub node : Node P
  pub count : ℕ

-- The target pointer of a group: a nil slot, or a place within the extension that was put there.
pub data Target : Type 0 where
  empty : Target
  within : ℕ → ℕ → ℕ → Target

-- The paths of a group, with their payloads.
abbrev pub Group : Type 0 → Type 0
Group P = List (ℕ × P)

-- How the rest of a group is processed.
abbrev pub Rec : Type 0 → Type 0
Rec P = Target → Group P → Pointer P → Result (Node P)

module _ {P : Type 0} where
  abbrev pub at : Node P → ℕ → Pointer P
  at s k = record { node = s; count = k }

  -- The part of a group before the pivot, and the part from there on.
  unfoldable pub zeros : ℕ → Group P → Group P
  zeros h [] = []
  zeros h ((p, v) ∷ g) = let rest = zeros h g in if bit p h then [] else (p, v) ∷ rest

  unfoldable pub ones : ℕ → Group P → Group P
  ones h [] = []
  ones h ((p, v) ∷ g) = let rest = ones h g in if bit p h then (p, v) ∷ g else rest

  abbrev pub is_empty : Group P → Bool
  is_empty [] = true
  is_empty (x ∷ g) = false

  -- The source pointer after one more bit of an extension of the target.
  unfoldable pub forward : Node P → ℕ → Pointer P
  forward (extension q n c) k = if k == n then at c 0 else at (extension q n c) (inc8 k)
  forward _ k = at nil k

  -- The source pointers left and right of a branch of the target that the group follows one way …
  unfoldable pub go_left : Node P → ℕ → Pointer P
  go_left (branch l r) k = at l 0
  go_left _ k = at nil k

  unfoldable pub go_right : Node P → ℕ → Pointer P
  go_right (branch l r) k = at r 0
  go_right _ k = at nil k

  -- … and both ways.
  unfoldable pub split_left : ℕ → Node P → ℕ → Pointer P
  unfolding forward
  split_left h (branch l r) k = at l 0
  split_left h (extension q n c) k = if bit q h then at nil k else forward (extension q n c) k
  split_left h _ k = at nil k

  unfoldable pub split_right : ℕ → Node P → ℕ → Pointer P
  unfolding forward
  split_right h (branch l r) k = at r 0
  split_right h (extension q n c) k = if bit q h then forward (extension q n c) k else at nil k
  split_right h _ k = at nil k

  -- A group that has arrived at the leaves.
  unfoldable pub insert_leaf : Group P → Result (Node P)
  insert_leaf [] = err panic
  insert_leaf ((p, v) ∷ []) = ok (leaf p v)
  insert_leaf (x ∷ y ∷ g) = err duplicate_record

  abbrev pub map_node : (Node P → Node P) → Result (Node P) → Result (Node P)
  map_node f (ok t) = ok (f t)
  map_node f (err e) = err e

  abbrev pub join : Result (Node P) → Result (Node P) → Result (Node P)
  join (ok l) (ok r) = ok (branch l r)
  join (ok l) (err e) = err e
  join (err e) r = err e

  -- At a branch of the target whose sides are `l` and `r` where the group does not go.
  unfoldable pub fork :
      Rec P → ℕ → Pointer P → Node P → Node P → Group P → Group P → Result (Node P)
  unfolding go_left go_right split_left split_right
  fork rec h s l r zs [] = map_node (λ t. branch t r) (rec empty zs (go_left s.node s.count))
  fork rec h s l r [] (o ∷ os) =
      map_node (λ t. branch l t) (rec empty (o ∷ os) (go_right s.node s.count))
  fork rec h s l r (z ∷ zs) (o ∷ os) =
      join (rec empty (z ∷ zs) (split_left h s.node s.count))
        (rec empty (o ∷ os) (split_right h s.node s.count))

  -- At an extension of the target, `c` bits into it.
  unfoldable pub along : Rec P → Group P → Pointer P → ℕ → ℕ → ℕ → Result (Node P)
  unfolding forward
  along rec g s q n c =
      let next = forward s.node s.count in
      if c == n
      then map_node (extension q n) (rec empty g next)
      else rec (within q n (inc8 c)) g next

  -- Whether all paths of a group go the way of an extension's bit.
  abbrev pub follows : Bool → Group P → Group P → Bool
  follows false zs os = is_empty os
  follows true zs os = is_empty zs

  -- What is left of a source extension below a branch that replaces its next bit.
  unfoldable pub rest_of : ℕ → ℕ → ℕ → Node P → Node P
  rest_of q n k c = if leb (inc8 k) n then extension q (sub8 n (inc8 k)) c else c

  abbrev pub path_of : Group P → ℕ
  path_of [] = 0
  path_of ((p, v) ∷ g) = p

  -- A nil slot: what is put there depends on the source.
  unfoldable pub place : Rec P → ℕ → Group P → Node P → ℕ → Group P → Group P → Result (Node P)
  unfolding fork along rest_of
  place rec h g (leaf q v) k zs os = ok (leaf q v)
  place rec h g (branch l r) k zs os =
      fork rec h (at (branch l r) k) (if is_empty zs then l else nil)
        (if is_empty os then r else nil) zs os
  place rec h g (extension q n c) k zs os =
      if follows (bit q h) zs os
      then along rec g (at (extension q n c) k) q (sub8 n k) 0
      else fork rec h (at (extension q n c) k)
          (if not (bit q h) && is_empty zs then rest_of q n k c else nil)
          (if bit q h && is_empty os then rest_of q n k c else nil) zs os
  place rec h g nil k zs os =
      if not (is_empty zs) && not (is_empty os)
      then fork rec h (at nil k) nil nil zs os
      else along rec g (at nil k) (path_of g) h 0

  -- What a source extension leaves at the side of a branch that cuts the target extension `q`.
  unfoldable pub cut_rest : ℕ → ℕ → ℕ → Node P → Node P
  cut_rest q n c (extension _ _ child) =
      if c == n then child else extension q (sub8 (sub8 n c) 1) child
  cut_rest q n c _ = nil

  -- Within an extension of the target: it is cut where the group leaves it.
  unfoldable pub cross :
      Rec P → ℕ → Group P → Pointer P → ℕ → ℕ → ℕ → Group P → Group P → Result (Node P)
  unfolding fork along cut_rest
  cross rec h g s q n c zs os =
      if follows (bit q h) zs os
      then along rec g s q n c
      else map_node (extension q (sub8 c 1)) (
          fork rec h s (if not (bit q h) && is_empty zs then cut_rest q n c s.node else nil)
            (if bit q h && is_empty os then cut_rest q n c s.node else nil) zs os)

  unfoldable pub advance : Rec P → ℕ → Target → Group P → Pointer P → Result (Node P)
  unfolding place cross zeros ones
  advance rec h empty g s = place rec h g s.node s.count (zeros h g) (ones h g)
  advance rec h (within q n c) g s = cross rec h g s q n c (zeros h g) (ones h g)

  -- A group, with its target and source pointers, at a height.
  unfoldable pub grow : ℕ → Target → Group P → Pointer P → Result (Node P)
  unfolding insert_leaf advance
  grow zero t g s = insert_leaf g
  grow (suc h) t g s = advance (grow h) h t g s

  abbrev pub zip : List ℕ → List P → Group P
  zip (p ∷ ps) (v ∷ vs) = (p, v) ∷ zip ps vs
  zip _ _ = []

  -- sort.Sort(sortByPath{paths, payloads})
  unfoldable pub insert_sorted : ℕ → P → Group P → Group P
  insert_sorted p v [] = (p, v) ∷ []
  insert_sorted p v ((q, w) ∷ g) =
      let rest = insert_sorted p v g in if ltb q p then (q, w) ∷ rest else (p, v) ∷ (q, w) ∷ g

  unfoldable pub sort_group : Group P → Group P
  unfolding insert_sorted
  sort_group [] = []
  sort_group ((p, v) ∷ g) = insert_sorted p v (sort_group g)

  unfoldable pub mutate : Node P → List ℕ → List P → Result (Node P)
  unfolding grow sort_group
  mutate root [] vs = ok root
  mutate root (p ∷ ps) vs =
      if length (p ∷ ps) == length vs
      then grow 256 empty (sort_group (zip (p ∷ ps) vs)) (at root 0)
      else err size_mismatch
