-- ===== src/Checkpoint/Paths.antt =====
-- The paths of the nodes of a checkpoint, which the decoder drops and the rebuilding asks for.
use flow_dps.Base.{
  ℕ, zero, suc, ◌≡◌, ◌≢◌, ap, ◌∙◌, sym, subst, Bool, true, false, Option, none, some, List, [], ◌∷◌,
  length, map, All, if◌then◌else◌, arith,
}
use flow_dps.Base.Outcome.{Err, Result, ok, err, after, Exec}
use flow_dps.Checkpoint.Light.{LightNode, Formats, Source, decode_light_node, decode_legacy_format}
use flow_dps.Checkpoint.{
  LightForest, decode_nodes, read_body, read_header, read_all, read_checkpoint,
}
use flow_dps.Checkpoint.Rebuild.{
  Arrays, from_light_node, rebuild_from, rebuild_nodes, rebuild_tries, checkpoint_trie, nil,
}

-- What a call gives, if it gives something.
abbrev Gives : {A : Type 0} → (A → Type 0) → Result A → Type 0
Gives Q (ok a) = Q a
Gives Q (err e) = Unit

abbrev pub IsErr : {A : Type 0} → Result A → Type 0
IsErr (ok a) = ⊥
IsErr (err e) = Unit

Gives-after :
    {S A B : Type 0} (R : A → Type 0) (Q : B → Type 0) (r : Result A) (f : A → Exec S B) (t : S)
    → Gives R r
    → ((a : A) (u : S) → R a → Gives Q (f a u).0)
    → Gives Q (after r f t).0
Gives-after R Q (ok a) f t h k = k a t h
Gives-after R Q (err e) f t h k = tt

-- A step of which nothing is known.
Gives-then :
    {S A B : Type 0} (Q : B → Type 0) (r : Result A) (f : A → Exec S B) (t : S)
    → ((a : A) (u : S) → Gives Q (f a u).0)
    → Gives Q (after r f t).0
Gives-then Q (ok a) f t k = k a t
Gives-then Q (err e) f t k = tt

Gives-if :
    {S A : Type 0} (Q : A → Type 0) (b : Bool) (m n : Exec S A) (s : S)
    → Gives Q (m s).0
    → Gives Q (n s).0
    → Gives Q ((if b then m else n) s).0
Gives-if Q true m n s h k = h
Gives-if Q false m n s h k = k

abbrev pub IsPathless : LightNode → Type 0
IsPathless ln = ln.path ≡ []

-- The nodes after the first are pathless.
abbrev pub HasPathless : LightForest → Type 0
HasPathless lf = (ns : List LightNode) × (lf.nodes ≡ none ∷ map some ns) × All IsPathless ns

module _ {P : Type 0} (F : Formats P) where
  decode_legacy_format-IsPathless :
      (crc : Bool) (s : Source) → Gives IsPathless (decode_legacy_format F crc s).0
  unfolding decode_legacy_format
  decode_legacy_format-IsPathless crc s = ground arith

  decode_light_node-IsPathless :
      (crc : Bool) (s : Source) → Gives IsPathless (decode_light_node F crc s).0
  unfolding decode_light_node
  decode_light_node-IsPathless crc s = grind (arith, decode_legacy_format-IsPathless)

  decode_nodes-IsPathless :
      (crc : Bool) (n : ℕ) (s : Source) → Gives (All IsPathless) (decode_nodes F crc n s).0
  unfolding decode_nodes
  decode_nodes-IsPathless crc zero s = tt
  decode_nodes-IsPathless crc (suc n) s =
      grind (arith, decode_light_node-IsPathless, decode_nodes-IsPathless crc n)

module _ {P : Type 0} (F : Formats P) (crc32 : List ℕ → ℕ) (short_read : List ℕ → ℕ) where
  read_body-HasPathless :
      (crc : Bool) (n t : ℕ) (s : Source)
      → Gives HasPathless (read_body F crc32 short_read crc n t s).0
  unfolding read_body
  read_body-HasPathless crc n t s = grind (arith, decode_nodes-IsPathless)

  read_checkpoint-HasPathless :
      (bytes : List ℕ) → Gives HasPathless (read_checkpoint F crc32 short_read bytes)
  unfolding read_checkpoint read_all read_header
  read_checkpoint-HasPathless bytes = grind (arith, read_body-HasPathless)

-- ledger.ToPath refuses what is not 32 bytes long.
abbrev pub RefusesLengths : Arrays → Type 0
RefusesLengths R = (b : List ℕ) → length b ≢ 32 → (e : Err) × (R.to_path b ≡ err e)

module _ {P : Type 0} (F : Formats P) (R : Arrays) (refuses : RefusesLengths R) where
  -- The first light node has no children, so it is taken for a leaf.
  first_is_leaf :
      (ln : LightNode) (lns : List (Option LightNode))
      → IsPathless ln
      → IsErr (rebuild_from F R 1 (nil ∷ []) (some ln ∷ lns))
  unfolding rebuild_from from_light_node
  first_is_leaf ln lns h =
      let (e, q) = refuses [] (λ x. ground arith) in grind (arith, ap R.to_path h ∙ q)

  rebuild_nodes-pathless :
      (ln : LightNode) (lns : List (Option LightNode))
      → IsPathless ln
      → IsErr (rebuild_nodes F R (none ∷ some ln ∷ lns))
  unfolding rebuild_nodes rebuild_from
  rebuild_nodes-pathless ln lns h = first_is_leaf ln lns h

  rebuild_nodes-fails :
      (ns : List LightNode) (nodes : List (Option LightNode))
      → nodes ≡ none ∷ map some ns
      → All IsPathless ns
      → nodes ≢ none ∷ []
      → IsErr (rebuild_nodes F R nodes)
  rebuild_nodes-fails [] nodes e free n = absurd (n e)
  rebuild_nodes-fails (ln ∷ ns) nodes e free n =
      subst (λ l. IsErr (rebuild_nodes F R l)) (sym e)
        (rebuild_nodes-pathless ln (map some ns) free.0)

  checkpoint_trie-read :
      (lf : LightForest) → IsErr (rebuild_nodes F R lf.nodes) → IsErr (checkpoint_trie F R (ok lf))
  unfolding checkpoint_trie rebuild_tries
  checkpoint_trie-read lf h = ground arith

-- A checkpoint that was read and holds a node is never rebuilt: whatever its bytes are, the loader of
-- checkpoints fails on it.
pub checkpoint_trie-fails :
    {P : Type 0} (F : Formats P) (crc32 : List ℕ → ℕ) (short_read : List ℕ → ℕ) (R : Arrays)
    → RefusesLengths R
    → (bytes : List ℕ) (lf : LightForest) → read_checkpoint F crc32 short_read bytes ≡ ok lf
    → lf.nodes ≢ none ∷ []
    → IsErr (checkpoint_trie F R (read_checkpoint F crc32 short_read bytes))
checkpoint_trie-fails F crc32 short_read R refuses bytes lf e n =
    let (ns, shape, free) : HasPathless lf =
      subst (Gives HasPathless) e (read_checkpoint-HasPathless F crc32 short_read bytes) in
    subst (λ r. IsErr (checkpoint_trie F R r)) (sym e)
      (checkpoint_trie-read F R refuses lf
        (rebuild_nodes-fails F R refuses ns lf.nodes shape free n))
