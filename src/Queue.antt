-- ===== src/Queue.antt =====
-- models/dps/safe_deque.go. The mutex makes each method one step; the deque of gammazero below it
-- is the list of its elements, the front first. A pop or a peek at an empty deque panics: `none`.
use mathlib.Core.List.{reverse, reverse-append}
use flow_dps.Base.{
  some_eq, ℕ, ◌≡◌, subst, sym, refl, ◌∙◌, ap, Option, none, some, List, [], ◌∷◌, ◌++◌, arith,
  length, length-append, ◌+◌,
}

module _ {A : Type 0} where
  unfoldable pub size : List A → ℕ
  size d = length d

  unfoldable pub push_front : A → List A → List A
  push_front v d = v ∷ d

  unfoldable pub push_back : A → List A → List A
  push_back v d = d ++ v ∷ []

  unfoldable pub front : List A → Option A
  front [] = none
  front (x ∷ d) = some x

  unfoldable pub back : List A → Option A
  back [] = none
  back (x ∷ []) = some x
  back (x ∷ y ∷ d) = back (y ∷ d)

  unfoldable pub pop_front : List A → Option (A × List A)
  pop_front [] = none
  pop_front (x ∷ d) = some (x, d)

  abbrev keep_front : A → Option (A × List A) → Option (A × List A)
  keep_front x none = some (x, [])
  keep_front x (some (v, d)) = some (v, x ∷ d)

  unfoldable pub pop_back : List A → Option (A × List A)
  pop_back [] = none
  pop_back (x ∷ d) = keep_front x (pop_back d)

  -- The elements in the order in which PopBack returns them.
  unfoldable pub waiting : List A → List A
  waiting d = reverse d

  pub waiting-push_front : (v : A) (d : List A) → waiting (push_front v d) ≡ waiting d ++ v ∷ []
  unfolding waiting push_front
  waiting-push_front v d = reverse-append (v ∷ []) d

  pub waiting-push_back : (v : A) (d : List A) → waiting (push_back v d) ≡ v ∷ waiting d
  unfolding waiting push_back
  waiting-push_back v d = reverse-append d (v ∷ [])

  pub pop_back-none : (d : List A) → pop_back d ≡ none → d ≡ []
  unfolding pop_back
  pop_back-none [] e = refl
  pop_back-none (x ∷ d) e = ground arith

  waiting_cons : (x : A) (d : List A) → waiting (x ∷ d) ≡ waiting d ++ x ∷ []
  unfolding waiting
  waiting_cons x d = reverse-append (x ∷ []) d

  length-waiting : (d : List A) → length (waiting d) ≡ length d
  length-waiting [] = unfold waiting in refl
  length-waiting (x ∷ d) =
      ap length (waiting_cons x d)
      ∙ omega (arith, length-append (waiting d) (x ∷ []), length-waiting d)

  popped :
      (x : A) (d : List A) (o : Option (A × List A)) {v : A} {rest : List A}
      → (o ≡ none → d ≡ [])
      → ((w : A) (d' : List A) → o ≡ some (w, d') → waiting d ≡ w ∷ waiting d')
      → keep_front x o ≡ some (v, rest)
      → waiting (x ∷ d) ≡ v ∷ waiting rest
  popped x d none empty more e =
      subst (λ (t : A × List A). waiting (x ∷ d) ≡ t.0 ∷ waiting t.1) (some_eq e)
        (ap (λ l. waiting (x ∷ l)) (empty refl) ∙ unfold waiting in refl)
  popped x d (some (w, d')) empty more e =
      subst (λ (t : A × List A). waiting (x ∷ d) ≡ t.0 ∷ waiting t.1) (some_eq e)
        (waiting_cons x d
          ∙ ap (λ l. l ++ x ∷ []) (more w d' refl)
          ∙ ap (λ l. w ∷ l) (sym (waiting_cons x d')))

  -- PopBack returns the first of the waiting elements, and panics if and only if there is none.
  pub waiting-pop_back :
      (d : List A) {v : A} {rest : List A}
      → pop_back d ≡ some (v, rest)
      → waiting d ≡ v ∷ waiting rest
  unfolding pop_back
  waiting-pop_back [] e = cc
  waiting-pop_back (x ∷ d) e =
      popped x d (pop_back d) (pop_back-none d) (λ w d' p. waiting-pop_back d p) e

  pub length-pop_back :
      (d : List A) {v : A} {rest : List A}
      → pop_back d ≡ some (v, rest)
      → length d ≡ length rest + 1
  length-pop_back d {v} {rest} e =
      omega (arith, length-waiting d, length-waiting rest, ap length (waiting-pop_back d e))
