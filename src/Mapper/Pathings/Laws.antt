-- ===== src/Mapper/Pathings/Laws.antt =====
-- What `pathsPayloads` returns: sorted paths, each once, with the last payload of each.
use flow_dps.Base.{
  ℕ, ◌<◌, ◌≤◌, ◌==◌, ltb, ◌≡◌, refl, ◌∙◌, ap, subst, inl, inr, Option-cases, true, false, Bool,
  Option, none, some, List, [], ◌∷◌, ◌++◌, arith, All, length, contains, if◌then◌else◌, if_intro,
  if_split,
}
use flow_dps.Base.Store.{Store, lookup, insert, lookup-insert}
use flow_dps.Base.Outcome.{ok, err, ok-injective, panic}
use flow_dps.Mapper.Pathings.{
  insert_sorted, sort_paths, add_path, gather, payloads_for, finish, map_result, paths_payloads,
}

-- Strictly ascending, so without repetition.
abbrev pub Ascending : List ℕ → Type 0
Ascending [] = Unit
Ascending (p ∷ ps) = All (λ q. p < q) ps × Ascending ps

All-insert_sorted :
    (a p : ℕ) (qs : List ℕ) → a < p → All (λ q. a < q) qs → All (λ q. a < q) (insert_sorted p qs)
unfolding insert_sorted
All-insert_sorted a p [] h k = (h, tt)
All-insert_sorted a p (q ∷ qs) h k =
    if_intro (All (λ r. a < r)) (ltb p q) (p ∷ q ∷ qs) (q ∷ insert_sorted p qs) (h, k)
      (k.0, All-insert_sorted a p qs h k.1)

contains-insert_sorted :
    (a p : ℕ) (qs : List ℕ)
    → contains a (insert_sorted p qs) ≡ (if p == a then true else contains a qs)
unfolding insert_sorted
contains-insert_sorted a p [] = refl
contains-insert_sorted a p (q ∷ qs) = ground (arith, contains-insert_sorted a p qs)

All-lt_trans : (a b : ℕ) (qs : List ℕ) → a < b → All (λ q. b < q) qs → All (λ q. a < q) qs
All-lt_trans a b [] h k = tt
All-lt_trans a b (q ∷ qs) h k = (omega arith, All-lt_trans a b qs h k.1)

insert_sorted-Ascending :
    (p : ℕ) (qs : List ℕ) → contains p qs ≡ false → Ascending qs → Ascending (insert_sorted p qs)
unfolding insert_sorted
insert_sorted-Ascending p [] n h = (tt, tt)
insert_sorted-Ascending p (q ∷ qs) n h =
    let ih : contains p qs ≡ false → Ascending (insert_sorted p qs) =
      λ m. insert_sorted-Ascending p qs m h.1 in
    if_split Ascending (ltb p q) (p ∷ q ∷ qs) (q ∷ insert_sorted p qs)
      (λ lt. let less : p < q = ground arith in ((less, All-lt_trans p q qs less h.0), (h.0, h.1)))
      (λ ge. (All-insert_sorted q p qs (ground arith) h.0, ih (ground arith)))

All-of_contains : (P : ℕ → Type 0) (ps : List ℕ) → ((q : ℕ) → contains q ps ≡ true → P q) → All P ps
All-of_contains P [] h = tt
All-of_contains P (p ∷ ps) h =
    (h p (ground arith), All-of_contains P ps (λ q i. h q (ground arith)))

-- No path occurs twice.
abbrev Distinct : List ℕ → Type 0
Distinct [] = Unit
Distinct (p ∷ ps) = (contains p ps ≡ false) × Distinct ps

contains-append :
    (q : ℕ) (ps rs : List ℕ)
    → contains q (ps ++ rs) ≡ (if contains q ps then true else contains q rs)
contains-append q [] rs = refl
contains-append q (p ∷ ps) rs = ground (arith, contains-append q ps rs)

Distinct-snoc :
    (ps : List ℕ) (p : ℕ) → contains p ps ≡ false → Distinct ps → Distinct (ps ++ p ∷ [])
Distinct-snoc [] p n d = (refl, tt)
Distinct-snoc (q ∷ ps) p n d =
    (ground (arith, contains-append q ps (p ∷ [])), Distinct-snoc ps p (ground arith) d.1)

contains-sort_paths : (q : ℕ) (ps : List ℕ) → contains q (sort_paths ps) ≡ contains q ps
unfolding sort_paths
contains-sort_paths q [] = refl
contains-sort_paths q (p ∷ ps) =
    ground (arith, contains-insert_sorted q p (sort_paths ps), contains-sort_paths q ps)

sort_paths-Ascending : (ps : List ℕ) → Distinct ps → Ascending (sort_paths ps)
unfolding sort_paths
sort_paths-Ascending [] d = tt
sort_paths-Ascending (p ∷ ps) d =
    insert_sorted-Ascending p (sort_paths ps) (contains-sort_paths p ps ∙ d.0)
      (sort_paths-Ascending ps d.1)

lookup_nil {ℓ} : {V : Type ℓ} (q : ℕ) → lookup {V = V} q [] ≡ none
unfolding lookup
lookup_nil q = refl

module _ {P : Type 0} where
  -- The payload of the last occurrence of a path in an update.
  abbrev pub last_payload : ℕ → List ℕ → List P → Option P
  last_payload q [] vs = none
  last_payload q (p ∷ ps) [] = none
  last_payload q (p ∷ ps) (v ∷ vs) = elim (last_payload q ps vs) [
    | some w ↦ some w
    | none ↦ if p == q then some v else none
  ]

  -- The payload that stands at the position of a path.
  abbrev pub payload_at : ℕ → List ℕ → List P → Option P
  payload_at q [] vs = none
  payload_at q (p ∷ ps) [] = none
  payload_at q (p ∷ ps) (v ∷ vs) = if p == q then some v else payload_at q ps vs

  abbrev or_else : Option P → Option P → Option P
  or_else (some v) o = some v
  or_else none o = o

  abbrev is_some : Option P → Bool
  is_some none = false
  is_some (some v) = true

  lookup-gather :
      (q : ℕ) (ps : List ℕ) (vs : List P) (paths : List ℕ) (m : Store P) {r : List ℕ × Store P}
      → gather ps vs paths m ≡ ok r
      → lookup q r.1 ≡ or_else (last_payload q ps vs) (lookup q m)
  unfolding gather
  lookup-gather q [] vs paths m e = ground arith
  lookup-gather q (p ∷ ps) [] paths m e = cc
  lookup-gather q (p ∷ ps) (v ∷ vs) paths m e = ground (
    arith,
    lookup-gather q ps vs (add_path (lookup p m) p paths) (insert p v m) e,
    lookup-insert p q v m,
  )

  -- While the update is gathered, the paths are the keys of the map, each once.
  record Gathered (paths : List ℕ) (m : Store P) : Type 0 where
    distinct : Distinct paths
    keys : (q : ℕ) → contains q paths ≡ is_some (lookup q m)

  gather_step :
      (p : ℕ) (v : P) (paths : List ℕ) (m : Store P)
      → Gathered paths m
      → Gathered (add_path (lookup p m) p paths) (insert p v m)
  gather_step p v paths m g = elim (Option-cases (lookup p m)) [
    | inl e ↦ rw e (record {
      distinct = Distinct-snoc paths p (ground (arith, g.keys p)) g.distinct;
      keys = λ q. ground (arith, g.keys q, contains-append q paths (p ∷ []), lookup-insert p q v m);
    })
    | inr (w, e) ↦ rw e (record {
      distinct = g.distinct;
      keys = λ q. ground (arith, g.keys q, lookup-insert p q v m);
    })
  ]

  gather-Gathered :
      (ps : List ℕ) (vs : List P) (paths : List ℕ) (m : Store P) {r : List ℕ × Store P}
      → Gathered paths m
      → gather ps vs paths m ≡ ok r
      → Gathered r.0 r.1
  unfolding gather
  gather-Gathered [] vs paths m {r} g e =
      subst (λ (t : List ℕ × Store P). Gathered t.0 t.1) (ok-injective e) g
  gather-Gathered (p ∷ ps) [] paths m g e = cc
  gather-Gathered (p ∷ ps) (v ∷ vs) paths m g e =
      gather-Gathered ps vs (add_path (lookup p m) p paths) (insert p v m)
        (gather_step p v paths m g) e

  contains-last_payload :
      (q : ℕ) (ps : List ℕ) (vs : List P)
      → length ps ≤ length vs
      → is_some (last_payload q ps vs) ≡ contains q ps
  contains-last_payload q [] vs h = refl
  contains-last_payload q (p ∷ ps) [] h = elim h [ ]
  contains-last_payload q (p ∷ ps) (v ∷ vs) h = ground (arith, contains-last_payload q ps vs)

  -- Every path of the list has a payload in the map.
  payload_at-payloads_for :
      (q : ℕ) (ps : List ℕ) (m : Store P)
      → All (λ p. is_some (lookup p m) ≡ true) ps
      → payload_at q ps (payloads_for ps m) ≡ (if contains q ps then lookup q m else none)
  unfolding payloads_for
  payload_at-payloads_for q [] m h = refl
  payload_at-payloads_for q (p ∷ ps) m h = ground (arith, payload_at-payloads_for q ps m h.1)

  gather_total :
      (ps : List ℕ) (vs : List P) (paths : List ℕ) (m : Store P)
      → length ps ≤ length vs
      → (r : List ℕ × Store P) × (gather ps vs paths m ≡ ok r)
  unfolding gather
  gather_total [] vs paths m h = ((paths, m), refl)
  gather_total (p ∷ ps) [] paths m h = elim h [ ]
  gather_total (p ∷ ps) (v ∷ vs) paths m h =
      gather_total ps vs (add_path (lookup p m) p paths) (insert p v m) (omega arith)

  gather_panics :
      (ps : List ℕ) (vs : List P) (paths : List ℕ) (m : Store P)
      → length vs < length ps
      → gather ps vs paths m ≡ err panic
  unfolding gather
  gather_panics [] vs paths m h = elim h [ ]
  gather_panics (p ∷ ps) [] paths m h = refl
  gather_panics (p ∷ ps) (v ∷ vs) paths m h =
      gather_panics ps vs (add_path (lookup p m) p paths) (insert p v m) (omega arith)

  is_some-or_none : (o : Option P) (b : Bool) → is_some o ≡ b → (if b then o else none) ≡ o
  is_some-or_none o b h = ground arith

  module _ (paths : List ℕ) (payloads : List P) {r : List ℕ × Store P} where
    -- What the second half of the function makes of a gathered update.
    finish_lem :
        length paths ≤ length payloads
        → gather paths payloads [] [] ≡ ok r
        → Ascending (finish r).0
          × ((q : ℕ) → contains q (finish r).0 ≡ contains q paths)
          × ((q : ℕ) → payload_at q (finish r).0 (finish r).1 ≡ last_payload q paths payloads)
    unfolding finish
    finish_lem h e =
        let g : Gathered r.0 r.1 =
          gather-Gathered paths payloads [] []
            (record { distinct = tt; keys = λ q. unfold lookup in refl }) e in
        let found : (q : ℕ) → lookup q r.1 ≡ last_payload q paths payloads =
          λ q. ground (arith, lookup-gather q paths payloads [] [] e, lookup_nil {V = P} q) in
        let names : (q : ℕ) → contains q (sort_paths r.0) ≡ contains q paths = λ q. ground (
          arith,
          contains-sort_paths q r.0,
          g.keys q,
          found q,
          contains-last_payload q paths payloads,
        ) in
        (
          sort_paths-Ascending r.0 g.distinct,
          names,
          λ q.
              payload_at-payloads_for q (sort_paths r.0) r.1 (
                All-of_contains (λ p. is_some (lookup p r.1) ≡ true) (sort_paths r.0)
                  (λ p i. ground (arith, g.keys p, contains-sort_paths p r.0)))
              ∙ ground (arith, found q, names q, contains-last_payload q paths payloads),
        )

-- With a payload for each path the function returns: its paths are strictly ascending, they are the
-- paths of the update, and with each stands the payload of its last occurrence in the update.
pub paths_payloads_lem :
    {P : Type 0} (paths : List ℕ) (payloads : List P)
    → length paths ≤ length payloads
    → (r : List ℕ × List P) × (paths_payloads paths payloads ≡ ok r)
      × Ascending r.0
      × ((q : ℕ) → contains q r.0 ≡ contains q paths)
      × ((q : ℕ) → payload_at q r.0 r.1 ≡ last_payload q paths payloads)
unfolding paths_payloads
paths_payloads_lem paths payloads h =
    let (r, e) = gather_total paths payloads [] [] h in
    let (a, b, c) = finish_lem paths payloads h e in (finish r, ap (map_result finish) e, a, b, c)

-- With fewer payloads than paths it panics.
pub paths_payloads_panics :
    {P : Type 0} (paths : List ℕ) (payloads : List P)
    → length payloads < length paths
    → paths_payloads paths payloads ≡ err panic
unfolding paths_payloads
paths_payloads_panics paths payloads h =
    ap (map_result finish) (gather_panics paths payloads [] [] h)
