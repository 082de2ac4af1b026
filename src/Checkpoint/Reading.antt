-- ===== src/Checkpoint/Reading.antt =====
-- A checkpoint that was written is read back.
use flow_dps.Base.{
  ℕ, ◌-◌, ltb, ◌≡◌, refl, sym, ap, ◌∙◌, subst, Bool, true, false, List, [], ◌∷◌, ◌++◌, map, length,
  length-append, take, drop, All, if◌then◌else◌, arith,
}
use mathlib.Core.List.{append_assoc, append-nil}
use flow_dps.Base.Outcome.{Result, ok, Exec, pure, from, after, ◌>>=◌}
use flow_dps.Storage.Encoding.{big_endian}
use flow_dps.Storage.Encoding.Order.{length-big_endian}
use flow_dps.Checkpoint.Light.{
  LightTrie, Formats, Source, read_full, read_data, decode_legacy_format, decode_light_node,
  decode_light_trie, decode_root,
}
use flow_dps.Checkpoint.{decode_nodes, decode_tries}
use flow_dps.Checkpoint.Written.{
  short, long, Stored, AreFormats, fixed_bytes, node_bytes, trie_bytes, all_nodes, all_tries,
  light_of, Fits, TrieFits,
}

-- What the checksum has seen after some bytes.
abbrev pub seen : Bool → List ℕ → List ℕ → List ℕ
seen true hashed bytes = hashed ++ bytes
seen false hashed bytes = hashed

-- The call takes these bytes, whatever follows, and gives `a`.
abbrev pub Reads : {A : Type 0} → Bool → Exec Source A → List ℕ → A → Type 0
Reads crc m bytes a =
    (rest hashed : List ℕ)
    → m (record { input = bytes ++ rest; hashed = hashed })
      ≡ (ok a, record { input = rest; hashed = seen crc hashed bytes })

pub take-append : {A : Type 0} (xs ys : List A) → take (length xs) (xs ++ ys) ≡ xs
take-append [] ys = refl
take-append (x ∷ xs) ys = λ i. x ∷ take-append xs ys i

pub drop-append : {A : Type 0} (xs ys : List A) → drop (length xs) (xs ++ ys) ≡ ys
drop-append [] ys = refl
drop-append (x ∷ xs) ys = drop-append xs ys

taken : (xs ys : List ℕ) → take (length (xs ++ ys) - length ys) (xs ++ ys) ≡ xs
taken xs ys =
    let e : length (xs ++ ys) - length ys ≡ length xs = omega (arith, length-append xs ys) in
    ap (λ n. take n (xs ++ ys)) e ∙ take-append xs ys

seen_taken :
    (crc : Bool) (hashed xs ys : List ℕ)
    → (if crc then hashed ++ take (length (xs ++ ys) - length ys) (xs ++ ys) else hashed)
      ≡ seen crc hashed xs
seen_taken true hashed xs ys = ap (λ l. hashed ++ l) (taken xs ys)
seen_taken false hashed xs ys = refl

seen-append :
    (crc : Bool) (hashed xs ys : List ℕ)
    → seen crc (seen crc hashed xs) ys ≡ seen crc hashed (xs ++ ys)
seen-append true hashed xs ys = append_assoc hashed xs ys
seen-append false hashed xs ys = refl

seen-nil : (crc : Bool) (hashed : List ℕ) → seen crc hashed [] ≡ hashed
seen-nil true hashed = append-nil hashed
seen-nil false hashed = refl

pub Reads-bind :
    {A B : Type 0} (crc : Bool) (m : Exec Source A) (f : A → Exec Source B) (xs ys : List ℕ) (a : A)
    (b : B)
    → Reads crc m xs a
    → Reads crc (f a) ys b
    → Reads crc (m >>= f) (xs ++ ys) b
Reads-bind {A = A} crc m f xs ys a b h k rest hashed =
    ap (λ l. (m >>= f) (record { input = l; hashed = hashed })) (append_assoc xs ys rest)
    ∙ ap (λ (p : Result A × Source). after p.0 f p.1) (h (ys ++ rest) hashed)
    ∙ k rest (seen crc hashed xs)
    ∙ (λ i. (ok b, record { input = rest; hashed = seen-append crc hashed xs ys i }))

pub Reads-from :
    {A B : Type 0} (crc : Bool) (r : Result A) (f : A → Exec Source B) (ys : List ℕ) (a : A) (b : B)
    → r ≡ ok a
    → Reads crc (f a) ys b
    → Reads crc (from r >>= f) ys b
Reads-from crc r f ys a b e k rest hashed =
    ap (λ x. after x f (record { input = ys ++ rest; hashed = hashed })) e ∙ k rest hashed

pub Reads-pure : {A : Type 0} (crc : Bool) (a : A) → Reads crc (pure a) [] a
Reads-pure crc a rest hashed =
    ap (λ l. (ok a, record { input = rest; hashed = l })) (sym (seen-nil crc hashed))

Reads-read_all : (crc : Bool) (xs : List ℕ) → Reads crc (read_full crc (length xs)) xs xs
unfolding read_full
Reads-read_all crc xs rest hashed =
    rw (enough, take-append xs rest, drop-append xs rest, seen_taken crc hashed xs rest)
  where
    enough : ltb (length (xs ++ rest)) (length xs) ≡ false
    enough = ground (arith, length-append xs rest)

pub Reads-read_full :
    (crc : Bool) (n : ℕ) (xs : List ℕ) → length xs ≡ n → Reads crc (read_full crc n) xs xs
Reads-read_full crc n xs e =
    subst (λ k. Reads crc (read_full crc k) xs xs) e (Reads-read_all crc xs)

pub Reads-read_data :
    (crc : Bool) (read : List ℕ → Result (List ℕ × List ℕ)) (xs b : List ℕ)
    → ((rest : List ℕ) → read (xs ++ rest) ≡ ok (b, rest))
    → Reads crc (read_data crc read) xs b
Reads-read_data crc read xs b h rest hashed = rw (h rest, seen_taken crc hashed xs rest)

module _ {P : Type 0} (F : Formats P) (law : AreFormats F) (crc : Bool) where
  length-fixed_bytes : (n : Stored P) → length (fixed_bytes F n) ≡ 28
  length-fixed_bytes n = simp (length-append, length-big_endian)

  Reads-decode_legacy_format :
      (n : Stored P)
      → Fits F n
      → Reads crc
          (decode_legacy_format F crc)
          (fixed_bytes F n
            ++ (short n.path ++ (long (F.encode_payload n.payload) ++ (short n.hash ++ []))))
          (light_of F n)
  unfolding decode_legacy_format
  Reads-decode_legacy_format n (fh, fl, fr, fd, fc, fp, fe, fx) =
      Reads-bind crc (read_full crc 28) _ (fixed_bytes F n) _ (fixed_bytes F n) _
        (Reads-read_full crc 28 (fixed_bytes F n) (length-fixed_bytes n))
        (Reads-from crc (F.read_uint16 (fixed_bytes F n)) _ _ _ _ (law.uint16 n.height _ fh) (
          Reads-from crc (F.read_uint64 (big_endian 8 n.left ++ _)) _ _ _ _ (law.uint64 n.left _ fl)
            (Reads-from crc (F.read_uint64 (big_endian 8 n.right ++ _)) _ _ _ _
              (law.uint64 n.right _ fr)
              (Reads-from crc (F.read_uint16 (big_endian 2 n.depth ++ _)) _ _ _ _
                (law.uint16 n.depth _ fd)
                (Reads-from crc (F.read_uint64 (big_endian 8 n.registers ++ [])) _ _ _ _
                  (law.uint64 n.registers [] fc)
                  (Reads-bind crc (read_data crc F.read_short) _ (short n.path) _ n.path _
                    (Reads-read_data crc F.read_short (short n.path) n.path
                      (λ rest. law.short_data n.path rest fp))
                    (Reads-bind crc (read_data crc F.read_long) _
                      (long (F.encode_payload n.payload)) _ (F.encode_payload n.payload) _
                      (Reads-read_data crc F.read_long _ _
                        (λ rest. law.long_data (F.encode_payload n.payload) rest fe))
                      (Reads-from crc (F.decode_payload (F.encode_payload n.payload)) _ _ _ _
                        (law.payload n.payload)
                        (Reads-bind crc (read_data crc F.read_short) _ (short n.hash) _ n.hash _
                          (Reads-read_data crc F.read_short _ _
                            (λ rest. law.short_data n.hash rest fx))
                          (Reads-pure crc _))))))))))

  pub Reads-decode_light_node :
      (n : Stored P)
      → Fits F n
      → Reads crc (decode_light_node F crc) (node_bytes F n) (light_of F n)
  unfolding decode_light_node
  Reads-decode_light_node n fits =
      Reads-bind crc (read_full crc 2) _ (big_endian 2 0 ++ []) _ (big_endian 2 0 ++ []) _
        (Reads-read_full crc 2 _ (simp (length-append, length-big_endian)))
        (Reads-from crc (F.read_uint16 (big_endian 2 0 ++ [])) _ _ _ _
          (law.uint16 0 [] (omega arith)) (Reads-decode_legacy_format n fits))

  pub Reads-decode_light_trie :
      (t : LightTrie) → TrieFits F t → Reads crc (decode_light_trie F crc) (trie_bytes F t) t
  unfolding decode_light_trie decode_root
  Reads-decode_light_trie t (fi, fh) =
      Reads-bind crc (read_full crc 2) _ (big_endian 2 0 ++ []) _ (big_endian 2 0 ++ []) _
        (Reads-read_full crc 2 _ (simp (length-append, length-big_endian)))
        (Reads-from crc (F.read_uint16 (big_endian 2 0 ++ [])) _ _ _ _
          (law.uint16 0 [] (omega arith))
          (Reads-bind crc (read_full crc 8) _ (big_endian 8 t.root_index ++ []) _
            (big_endian 8 t.root_index ++ []) _
            (Reads-read_full crc 8 _ (simp (length-append, length-big_endian)))
            (Reads-from crc (F.read_uint64 (big_endian 8 t.root_index ++ [])) _ _ _ _
              (law.uint64 t.root_index [] fi)
              (Reads-bind crc (read_data crc F.read_short) _ (short t.root_hash) _ t.root_hash _
                (Reads-read_data crc F.read_short _ _ (λ rest. law.short_data t.root_hash rest fh))
                (Reads-pure crc _)))))

  pub Reads-decode_nodes :
      (ns : List (Stored P))
      → All (Fits F) ns
      → Reads crc (decode_nodes F crc (length ns)) (all_nodes F ns) (map (light_of F) ns)
  unfolding decode_nodes
  Reads-decode_nodes [] h = Reads-pure crc []
  Reads-decode_nodes (n ∷ ns) h =
      Reads-bind crc (decode_light_node F crc) _ (node_bytes F n) _ (light_of F n) _
        (Reads-decode_light_node n h.0)
        (Reads-bind crc (decode_nodes F crc (length ns)) _ (all_nodes F ns) _ (map (light_of F) ns)
          _ (Reads-decode_nodes ns h.1) (Reads-pure crc _))

  pub Reads-decode_tries :
      (ts : List LightTrie)
      → All (TrieFits F) ts
      → Reads crc (decode_tries F crc (length ts)) (all_tries F ts) ts
  unfolding decode_tries
  Reads-decode_tries [] h = Reads-pure crc []
  Reads-decode_tries (t ∷ ts) h =
      Reads-bind crc (decode_light_trie F crc) _ (trie_bytes F t) _ t _
        (Reads-decode_light_trie t h.0)
        (Reads-bind crc (decode_tries F crc (length ts)) _ (all_tries F ts) _ ts _
          (Reads-decode_tries ts h.1) (Reads-pure crc _))
