-- ===== src/Trie.antt =====
-- ledger/trie/trie.go, branch.go, extension.go and leaf.go: the trie of registers and its reads. A
-- path is the number that its 256 bits spell, so the bit at a depth stands at the height that is 255
-- less the depth; the model counts heights down where the code counts depths up, and the height 0
-- below the last bit is the depth that has wrapped around to 0. The cached hashes are left out.
pub mod Mutation
pub mod Lookup
pub mod Bits
pub mod Hashing
pub mod Orders
pub mod Reads
pub mod Leaves
use flow_dps.Base.{
  ℕ, zero, suc, ◌+◌, ◌-◌, ◌/◌, ◌%◌, ◌==◌, leb, Bool, true, false, ◌&&◌, Option, none, some, List,
  [], ◌∷◌, ◌++◌, if◌then◌else◌,
}
use flow_dps.Base.Outcome.{Err, not_found, blocked, panic, Result, ok, err}

-- The nodes; `nil` is Go's nil.
pub data Node (P : Type 0) : Type 0 where
  nil : Node P
  leaf : ℕ → P → Node P
  branch : Node P → Node P → Node P
  extension : ℕ → ℕ → Node P → Node P

-- p >> h, a bit at a time
unfoldable pub shr : ℕ → ℕ → ℕ
shr p zero = p
shr p (suc h) = shr (p / 2) h

-- bitutils.Bit: whether the bit at a height is 1.
unfoldable pub bit : ℕ → ℕ → Bool
unfolding shr
bit p h = shr p h % 2 == 1

abbrev pub same : Bool → Bool → Bool
same true b = b
same false true = false
same false false = true

-- Arithmetic on uint8.
abbrev pub inc8 : ℕ → ℕ
inc8 c = (c + 1) % 256

abbrev pub sub8 : ℕ → ℕ → ℕ
sub8 a b = (a + 256 - b) % 256

-- The loop of `read` that counts the bits in common with an extension, from depth `i` on.
unfoldable pub common_bits : ℕ → ℕ → ℕ → ℕ → ℕ → ℕ
common_bits zero i limit p q = 0
common_bits (suc h) i limit p q =
    let more = suc (common_bits h (i + 1) limit p q) in
    if leb i limit && same (bit p h) (bit q h) then more else 0

module _ {P : Type 0} where
  abbrev extension_read : Bool → ℕ → ℕ → Result P → Result P
  extension_read false common count below = err not_found
  extension_read true common count below = if common == count then below else err not_found

  -- `read`, from a node at a height. A leaf above the height 0 is in no case of the switch, so the
  -- loop turns for ever; anything but a leaf at the height 0 fails the type assertion.
  unfoldable pub read : Node P → ℕ → ℕ → Result P
  unfolding common_bits
  read nil zero p = err panic
  read nil (suc h) p = err not_found
  read (leaf q v) zero p = ok v
  read (leaf q v) (suc h) p = err blocked
  read (branch l r) zero p = err panic
  read (branch l r) (suc h) p =
      let left = read l h p in let right = read r h p in if bit p h then right else left
  read (extension q n c) zero p = err panic
  read (extension q n c) (suc h) p =
      let depth = 255 - h in
      extension_read (same (bit p h) (bit q h)) (common_bits h (depth + 1) ((depth + n) % 256) p q)
        n (read c (h - n) p)

  -- The root stands at depth 0, which the loop takes for the end if the root is a leaf.
  unfoldable pub read_root : Node P → ℕ → Result P
  unfolding read
  read_root (leaf q v) p = ok v
  read_root t p = read t 256 p

  abbrev unsafe_payload : Result P → Result (List (Option P)) → Result (List (Option P))
  unsafe_payload (ok v) (ok rest) = ok (some v ∷ rest)
  unsafe_payload (err not_found) (ok rest) = ok (none ∷ rest)
  unsafe_payload (ok v) (err e) = err e
  unsafe_payload (err not_found) (err e) = err e
  unsafe_payload (err blocked) rest = err blocked
  unsafe_payload (err e) rest = err panic

  -- UnsafeRead.
  unfoldable pub unsafe_read : Node P → List ℕ → Result (List (Option P))
  unfolding read_root
  unsafe_read t [] = ok []
  unsafe_read t (p ∷ ps) = unsafe_payload (read_root t p) (unsafe_read t ps)
