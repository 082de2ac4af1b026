-- ===== src/Invoker/Uncached.antt =====
-- The calls of service/invoker/invoker.go with and without the cache.
use flow_dps.Base.{ℕ, ◌<◌, ◌^◌, Option, some, List, [], ◌∷◌, ◌≡◌, refl, ap, ◌∙◌, All, map, ◌⊎◌}
use flow_dps.Base.Outcome.{Result, ok, err, Exec, from, after, ◌>>=◌}
use flow_dps.Invoker.{Request, cache_key, read_index, read_register}
use flow_dps.Invoker.Keys.{InRange}
use flow_dps.Invoker.Caching.{Faithful, answered-Faithful}
use flow_dps.Invoker.Calls.{
  Program, returned, reads, Machine, run_at, account, key, script, encode_arguments, Call, key_call,
  account_call, script_call, key_reply, account_reply, value_reply, answer, answers,
}

-- The strings and the heights of the reads are those of Go: bytes and a uint64.
abbrev pub ReadsInRange : {V A : Type 0} → ℕ → Program V A → Type 0
ReadsInRange height (returned r) = Unit
ReadsInRange {V} height (reads owner controller key next) =
    InRange (record { height = height; owner = owner; controller = controller; key = key })
    × ((a : Result V) → ReadsInRange height (next a))

-- The height of a script is a uint64.
abbrev pub IsCall : {V : Type 0} (M : Machine V) → Call M → Type 0
IsCall M (script_call height bytes arguments) = height < 2 ^ 64
IsCall M _ = Unit

module _ {C V : Type 0} (get : List ℕ → C → Option V) (set : List ℕ → V → C → C)
    (key_to_path : Request → Result ℕ) (values : ℕ → List ℕ → Result (List V))
    (get-set : (k j : List ℕ) (v w : V) (c : C)
      → get k (set j v c) ≡ some w
      → ((k ≡ j) × (w ≡ v)) ⊎ (get k c ≡ some w))
    (M : Machine V) (header : ℕ → Result M.Header) where
  abbrev pub cached : Request → Exec C V
  cached r c = read_register get set key_to_path values r c

  -- A read of the index, without a cache.
  abbrev pub plain : Request → Exec (Unit {0}) V
  plain r u = (read_index get set key_to_path values r, u)

  -- With the cache the call answers as without it, and leaves a faithful cache.
  abbrev pub AnswersPlainly : {A : Type 0} → Exec C A → Exec (Unit {0}) A → Type 0
  AnswersPlainly m n =
      (c : C)
      → Faithful get set key_to_path values get-set c
      → ((m c).0 ≡ (n tt).0) × Faithful get set key_to_path values get-set (m c).1

  bind-plain :
      {A B : Type 0} (m : Exec C A) (n : Exec (Unit {0}) A) (f : A → Exec C B)
      (g : A → Exec (Unit {0}) B)
      → AnswersPlainly m n
      → ((a : A) → AnswersPlainly (f a) (g a))
      → AnswersPlainly (m >>= f) (n >>= g)
  bind-plain {A = A} m n f g h k c w = go (m c).0 (n tt).0 (h c w).0
    where
      go :
          (r q : Result A)
          → r ≡ q
          → ((after r f (m c).1).0 ≡ (after q g tt).0)
            × Faithful get set key_to_path values get-set (after r f (m c).1).1
      go (ok a) q e =
          let this = k a (m c).1 (h c w).1 in (this.0 ∙ ap (λ x. (after x g tt).0) e, this.1)
      go (err x) q e = (ap (λ y. (after y g tt).0) e, (h c w).1)

  from-plain : {A : Type 0} (r : Result A) → AnswersPlainly (from r) (from r)
  from-plain r c w = (refl, w)

  run_at-plain :
      {A : Type 0} (height : ℕ) (p : Program V A)
      → ReadsInRange height p
      → AnswersPlainly (run_at M header cached height p) (run_at M header plain height p)
  unfolding run_at read_register
  run_at-plain height (returned r) h c f = (refl, f)
  run_at-plain height (reads owner controller k next) h c f =
      let r : Request = record {
        height = height;
        owner = owner;
        controller = controller;
        key = k;
      } in
      let one =
        answered-Faithful get set key_to_path values get-set r (get (cache_key r) c) c h.0 refl f in
      let rest =
        run_at-plain height (next (cached r c).0) (h.1 (cached r c).0) (cached r c).1 one.1 in
      (rest.0 ∙ ap (λ a. (run_at M header plain height (next a) tt).0) one.0, rest.1)

  encode_arguments-plain :
      (arguments : List M.Value)
      → AnswersPlainly
          (encode_arguments M header cached arguments)
          (encode_arguments M header plain arguments)
  unfolding encode_arguments
  encode_arguments-plain [] = λ c w. (refl, w)
  encode_arguments-plain (a ∷ arguments) =
      bind-plain (from (M.encode a)) (from (M.encode a)) _ _ (from-plain (M.encode a)) λ arg.
        bind-plain (encode_arguments M header cached arguments)
          (encode_arguments M header plain arguments) _ _ (encode_arguments-plain arguments)
          λ args. from-plain (ok (arg ∷ args))

  -- What the virtual machine reads for a call is in range.
  module _
      (accounts : (head : M.Header) (address : ℕ)
        → ReadsInRange (M.header_height head) (M.get_account head address))
      (scripts : (height : ℕ)
        → height < 2 ^ 64
        → (head : M.Header) (bytes : List ℕ) (args : List (List ℕ))
        → ReadsInRange height (M.run_script head bytes args)) where
    account-plain :
        (height address : ℕ)
        → AnswersPlainly
            (account M header cached height address)
            (account M header plain height address)
    unfolding account
    account-plain height address =
        bind-plain (from (header height)) (from (header height)) _ _ (from-plain (header height))
          λ head.
            run_at-plain (M.header_height head) (M.get_account head address) (accounts head address)

    key-plain :
        (height address index : ℕ)
        → AnswersPlainly
            (key M header cached height address index)
            (key M header plain height address index)
    unfolding key
    key-plain height address index =
        bind-plain (account M header cached height address) (account M header plain height address)
          _ _ (account-plain height address) λ acc. from-plain _

    script-plain :
        (height : ℕ)
        → height < 2 ^ 64
        → (bytes : List ℕ) (arguments : List M.Value)
        → AnswersPlainly
            (script M header cached height bytes arguments)
            (script M header plain height bytes arguments)
    unfolding script
    script-plain height lt bytes arguments =
        bind-plain (encode_arguments M header cached arguments)
          (encode_arguments M header plain arguments) _ _ (encode_arguments-plain arguments)
          λ args.
            bind-plain (from (header height)) (from (header height)) _ _
              (from-plain (header height))
              λ head.
                bind-plain (run_at M header cached height (M.run_script head bytes args))
                  (run_at M header plain height (M.run_script head bytes args)) _ _
                  (run_at-plain height (M.run_script head bytes args)
                    (scripts height lt head bytes args))
                  λ outcome. from-plain outcome

    answer-plain :
        (call : Call M)
        → IsCall M call
        → AnswersPlainly (answer M header cached call) (answer M header plain call)
    unfolding answer
    answer-plain (key_call height address index) lt =
        bind-plain (key M header cached height address index)
          (key M header plain height address index) _ _ (key-plain height address index)
          λ k. from-plain (ok (key_reply k))
    answer-plain (account_call height address) lt =
        bind-plain (account M header cached height address) (account M header plain height address)
          _ _ (account-plain height address) λ acc. from-plain (ok (account_reply acc))
    answer-plain (script_call height bytes arguments) lt =
        bind-plain (script M header cached height bytes arguments)
          (script M header plain height bytes arguments) _ _
          (script-plain height lt bytes arguments) λ value. from-plain (ok (value_reply value))

    -- Any calls of Key, Account and Script, at any heights and in any order, from a cache that holds
    -- nothing but values of the index, answer as they would without a cache, and leave such a cache,
    -- whatever the virtual machine reads.
    pub answers-uncached :
        (calls : List (Call M)) (c : C)
        → All (IsCall M) calls
        → Faithful get set key_to_path values get-set c
        → ((answers M header cached calls c).0
            ≡ map (λ call. (answer M header plain call tt).0) calls)
          × Faithful get set key_to_path values get-set (answers M header cached calls c).1
    unfolding answers
    answers-uncached [] c h w = (refl, w)
    answers-uncached (call ∷ calls) c h w =
        let one = answer-plain call h.0 c w in
        let rest = answers-uncached calls (answer M header cached call c).1 h.1 one.1 in
        ((λ i. one.0 i ∷ rest.0 i), rest.1)
