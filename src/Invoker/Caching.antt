-- ===== src/Invoker/Caching.antt =====
-- The register cache of service/invoker/read.go against the index.
use flow_dps.Base.{
  ℕ, Option, some, none, List, [], ◌∷◌, ◌≡◌, refl, sym, ap, ◌∙◌, All, map, ◌⊎◌, inl, inr,
}
use flow_dps.Base.Outcome.{Result, ok, err}
use flow_dps.Invoker.{
  Request, cache_key, read_index, read_register, read_registers, stored, answered,
}
use flow_dps.Invoker.Keys.{InRange, cache_key-injective}

module _ {C V : Type 0} (get : List ℕ → C → Option V) (set : List ℕ → V → C → C)
    (key_to_path : Request → Result ℕ) (values : ℕ → List ℕ → Result (List V))
    -- What is read from the cache was put there under the same key; it may drop what it holds.
    (get-set : (k j : List ℕ) (v w : V) (c : C)
      → get k (set j v c) ≡ some w
      → ((k ≡ j) × (w ≡ v)) ⊎ (get k c ≡ some w)) where
  -- Every value of the cache is that of the index.
  abbrev pub Faithful : C → Type 0
  Faithful c =
      (r : Request) (v : V)
      → InRange r
      → get (cache_key r) c ≡ some v
      → read_index get set key_to_path values r ≡ ok v

  stored-Faithful :
      (r : Request) (a : Result V) (c : C)
      → InRange r
      → a ≡ read_index get set key_to_path values r
      → Faithful c
      → Faithful (stored get set key_to_path values (cache_key r) a c).1
  stored-Faithful r (err e) c i q f s w j g = f s w j g
  stored-Faithful r (ok v) c i q f s w j g = elim (get-set (cache_key s) (cache_key r) v w c g) [
    | inl both ↦
        ap (read_index get set key_to_path values) (cache_key-injective s r j i both.0)
        ∙ sym q
        ∙ ap ok (sym both.1)
    | inr before ↦ f s w j before
  ]

  stored-answer :
      (k : List ℕ) (a : Result V) (c : C) → (stored get set key_to_path values k a c).0 ≡ a
  stored-answer k (ok v) c = refl
  stored-answer k (err e) c = refl

  pub answered-Faithful :
      (r : Request) (o : Option V) (c : C)
      → InRange r
      → o ≡ get (cache_key r) c
      → Faithful c
      → ((answered get set key_to_path values o
            (cache_key r)
            (read_index get set key_to_path values r)
            c).0
          ≡ read_index get set key_to_path values r)
        × Faithful
            (answered get set key_to_path values o
              (cache_key r)
              (read_index get set key_to_path values r)
              c).1
  answered-Faithful r (some v) c i q f = (sym (f r v i (sym q)), f)
  answered-Faithful r none c i q f =
      let fresh = read_index get set key_to_path values r in
      (stored-answer (cache_key r) fresh c, stored-Faithful r fresh c i refl f)

  -- Any sequence of reads of registers, at any heights, from a cache that holds nothing but values of the
  -- index, answers each as the index does, and leaves such a cache.
  pub read_registers-read_index :
      (rs : List Request) (c : C)
      → All InRange rs
      → Faithful c
      → ((read_registers get set key_to_path values rs c).0
          ≡ map (read_index get set key_to_path values) rs)
        × Faithful (read_registers get set key_to_path values rs c).1
  unfolding read_registers read_register
  read_registers-read_index [] c i f = (refl, f)
  read_registers-read_index (r ∷ rs) c i f =
      let one = answered-Faithful r (get (cache_key r) c) c i.0 refl f in
      let rest =
        read_registers-read_index rs (read_register get set key_to_path values r c).1 i.1 one.1 in
      ((λ j. one.0 j ∷ rest.0 j), rest.1)
