-- ===== src/Scenarios/Tries.antt =====
-- Tries of ledger/trie: one with a leaf at the path 0 and one at the path 2 ^ 255, and what Mutate,
-- the reads and the root hash make of it. The hashes are sums.
use flow_dps.Base.{
  ℕ, zero, suc, ◌+◌, ◌-◌, if◌then◌else◌, ◌*◌, ◌^◌, ◌≡◌, ◌≢◌, refl, sym, ap, ◌∙◌, arith, Option,
  some, none, List, [], ◌∷◌, Bool-cases, inl, inr,
}
use flow_dps.Base.Outcome.{ok, err, panic, Result}
use flow_dps.Base.Store.{lookup}
use flow_dps.Trie.{Node, nil, leaf, branch, extension, bit, shr, read_root, unsafe_read, read}
use flow_dps.Trie.Lookup.{common, get, below, get-extension, Shape, Side}
use flow_dps.Trie.Bits.{shr-bit, common_eq}
use flow_dps.Trie.Reads.{unsafe_read-get}
use flow_dps.Trie.Mutation.{
  mutate, sort_group, grow, advance, place, cross, fork, along, rest_of, cut_rest, zeros, ones,
  forward, split_left, split_right,
}
use flow_dps.Trie.Mutation.Sorting.{Distinct}
use flow_dps.Trie.Mutation.Roots.{Root}
use flow_dps.Trie.Mutation.Updates.{mutate-read_root, mutate-Root}
use flow_dps.Trie.Hashing.{one_sided, root_hash}
use flow_dps.Trie.Hashing.Merkle.{Placed, holds, merkle}
use flow_dps.Trie.Hashing.Canonical.{root_hash-merkle}
use flow_dps.Trie.Leaves.{leaves, size}
use flow_dps.Trie.Leaves.Complete.{listed, leaves-read_root}
use flow_dps.Trie.Orders.{and_mutate, mutate-either_order}

abbrev high : ℕ
high = 2 ^ 255

abbrev two_leaves : Node ℕ
two_leaves = branch (extension 0 254 (leaf 0 7)) (extension high 254 (leaf high 8))

two_leaves-Root : Root two_leaves
unfolding Root Shape
two_leaves-Root = ((omega arith, tt), (omega arith, tt))

two_leaves-some : two_leaves ≢ nil
two_leaves-some e = ground arith

leaf-Placed :
    (q v h a : ℕ) → shr q (suc h) ≡ a → Placed {P = ℕ} (extension q h (leaf q v)) (suc h) a
unfolding get
leaf-Placed q v h a e p r w f g =
    let bottom : suc h - suc h ≡ 0 = omega arith in
    let there : get (leaf q v) (suc h - suc h) p ≡ some (q, v) =
      ap (λ k. get (leaf q v) k p) bottom in
    elim (Bool-cases (common (suc h) (suc h) p q)) [
      | inl c ↦
          let here = ap (λ b. if b then get (leaf q v) (suc h - suc h) p else none) c ∙ there in
          let same_leaf : ◌≡◌ {A = Option (ℕ × ℕ)} (some (q, v)) (some (r, w)) = sym here ∙ g in
          let first : q ≡ r = ground arith in sym first ∙ sym (common_eq (suc h) p q (f ∙ sym e) c)
      | inr c ↦
          let gone : ◌≡◌ {A = Option (ℕ × ℕ)} none (some (r, w)) =
            sym (ap (λ b. if b then get (leaf q v) (suc h - suc h) p else none) c) ∙ g in
          ground arith
    ]

branch-Placed :
    (l r : Node ℕ) (h a : ℕ)
    → Placed l h (2 * a)
    → Placed r h (2 * a + 1)
    → Placed (branch l r) (suc h) a
unfolding get
branch-Placed l r h a L R p q v e g = elim (Bool-cases (bit p h)) [
  | inl f ↦
      R p q v (ground (arith, shr-bit p h))
        (sym (ap (λ b. if b then get r h p else get l h p) f) ∙ g)
  | inr f ↦
      L p q v (ground (arith, shr-bit p h))
        (sym (ap (λ b. if b then get r h p else get l h p) f) ∙ g)
]

two_leaves-Placed : Placed two_leaves 256 0
unfolding shr
two_leaves-Placed =
    branch-Placed (extension 0 254 (leaf 0 7)) (extension high 254 (leaf high 8)) 255 0
      (leaf-Placed 0 7 254 0 refl) (leaf-Placed high 8 254 1 refl)

two_leaves-Side : Side two_leaves 256
unfolding Shape
two_leaves-Side = ((omega arith, tt), (omega arith, tt))

abbrev paths : List ℕ
paths = high ∷ 5 ∷ []

paths-Distinct : Distinct paths
unfolding Distinct
paths-Distinct = (refl, (refl, tt))

unsafe_read-get_example : unsafe_read two_leaves (0 ∷ 3 ∷ []) ≡ ok (some 7 ∷ none ∷ [])
unfolding get common bit shr
unsafe_read-get_example = unsafe_read-get two_leaves (0 ∷ 3 ∷ []) two_leaves-Side

mutate-read_root_example :
    (u : Node ℕ) × (mutate two_leaves paths (1 ∷ 2 ∷ []) ≡ ok u) × (read_root u 5 ≡ ok 2)
unfolding lookup
mutate-read_root_example =
    mutate-read_root two_leaves paths (1 ∷ 2 ∷ []) two_leaves-Root two_leaves-Placed
      (λ e. ground arith) paths-Distinct (omega arith, (omega arith, tt)) refl 5 (omega arith)

mutate-Root_example :
    (u : Node ℕ) × (mutate two_leaves paths (1 ∷ 2 ∷ []) ≡ ok u)
    × Root u
    × (u ≢ nil)
    × Placed u 256 0
mutate-Root_example =
    mutate-Root two_leaves paths (1 ∷ 2 ∷ []) two_leaves-Root two_leaves-Placed two_leaves-some
      (λ e. ground arith) paths-Distinct (omega arith, (omega arith, tt)) refl

-- The same leaves, with an extension cut in two.
abbrev split_leaves : Node ℕ
split_leaves =
    branch (extension 0 0 (extension 0 253 (leaf 0 7))) (extension high 254 (leaf high 8))

get-split :
    (q n h : ℕ) (c r : Node ℕ) (p : ℕ)
    → get (branch (extension q 0 (extension q n c)) r) (suc (suc h)) p
      ≡ get (branch (extension q (suc n) c) r) (suc (suc h)) p
unfolding get below
get-split q n h c r p =
    ap (λ x. if bit p (suc h) then get r (suc h) p else x)
      (get-extension q 0 (extension q n c) h p ∙ sym (get-extension q (suc n) c h p))

get-split_leaves : (p : ℕ) → get split_leaves 256 p ≡ get two_leaves 256 p
get-split_leaves p = get-split 0 253 254 (leaf 0 7) (extension high 254 (leaf high 8)) p

split_leaves-Side : Side split_leaves 256
unfolding Shape
split_leaves-Side = ((omega arith, (omega arith, tt)), (omega arith, tt))

split_leaves-Placed : Placed split_leaves 256 0
split_leaves-Placed p q v e g = two_leaves-Placed p q v e (sym (get-split_leaves p) ∙ g)

-- A pair of hashes that tells its sides apart, an empty hash, and the hash of a lone leaf.
abbrev mix : ℕ → ℕ → ℕ
mix l r = 2 * l + 3 * r

abbrev empty_hash : ℕ → ℕ
empty_hash h = 0

unfoldable leaf_hash : ℕ → ℕ → ℕ → ℕ
leaf_hash q v zero = q + v
leaf_hash q v (suc zero) = q + v
leaf_hash q v (suc (suc h)) =
    let below_it = leaf_hash q v (suc h) in if bit q h then mix 0 below_it else mix below_it 0

leaf_hash-rise :
    (q v h : ℕ)
    → leaf_hash q v (suc (suc h)) ≡ one_sided mix empty_hash leaf_hash q h (leaf_hash q v (suc h))
unfolding leaf_hash
leaf_hash-rise q v h = refl

leaf_hash-bottom : (q v : ℕ) → leaf_hash q v 1 ≡ leaf_hash q v 0
unfolding leaf_hash
leaf_hash-bottom q v = refl

root_hash-merkle_example :
    root_hash mix empty_hash leaf_hash two_leaves
    ≡ ok (merkle mix empty_hash leaf_hash (holds two_leaves 256) 256 0)
root_hash-merkle_example =
    root_hash-merkle mix empty_hash leaf_hash leaf_hash-rise leaf_hash-bottom (λ h. refl) two_leaves
      two_leaves-Side two_leaves-Placed

abbrev more_paths : List ℕ
more_paths = 6 ∷ 0 ∷ []

more_paths-Distinct : Distinct more_paths
unfolding Distinct
more_paths-Distinct = (refl, (refl, tt))

mutate-either_order_example :
    (u v : Node ℕ) × (and_mutate (mutate two_leaves paths (1 ∷ 2 ∷ [])) more_paths (3 ∷ 4 ∷ [])
      ≡ ok u)
    × (and_mutate (mutate two_leaves more_paths (3 ∷ 4 ∷ [])) paths (1 ∷ 2 ∷ []) ≡ ok v)
    × (root_hash mix empty_hash leaf_hash u ≡ root_hash mix empty_hash leaf_hash v)
mutate-either_order_example =
    mutate-either_order mix empty_hash leaf_hash leaf_hash-rise leaf_hash-bottom (λ h. refl)
      two_leaves paths more_paths (1 ∷ 2 ∷ []) (3 ∷ 4 ∷ []) two_leaves-Root two_leaves-Placed
      two_leaves-some ((λ e. ground arith), paths-Distinct, (omega arith, (omega arith, tt)), refl)
      ((λ e. ground arith), more_paths-Distinct, (omega arith, (omega arith, tt)), refl)
      (refl, (refl, tt))

-- A trie with the single leaf 0 to which the paths 1 and 2 are added: the count of the extension
-- that is left of it wraps around, and a read of the old path panics.
abbrev after_single : Result (Node ℕ) → Result ℕ
after_single (ok u) = read_root u 0
after_single (err e) = err e

single_leaf_lost :
    after_single (mutate (extension 0 255 (leaf 0 7)) (1 ∷ 2 ∷ []) (8 ∷ 9 ∷ [])) ≡ err panic
unfolding mutate sort_group grow advance place cross fork along rest_of cut_rest zeros ones forward
    split_left split_right read_root read bit
single_leaf_lost = refl

leaves-read_root_example :
    (xs : List (ℕ × ℕ)) × (leaves 5 two_leaves ≡ ok xs)
    × (read_root two_leaves 0 ≡ listed (lookup 0 xs))
unfolding size
leaves-read_root_example =
    leaves-read_root 5 two_leaves two_leaves-Side two_leaves-Placed (omega arith) 0 (omega arith)
