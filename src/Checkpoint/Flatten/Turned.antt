-- ===== src/Checkpoint/Flatten/Turned.antt =====
-- ToLightNode and then FromLightNode, for one node.
use flow_dps.Base.{ℕ, ◌<◌, ◌==◌, ◌≡◌, ◌≢◌, true, false, none, some, List, [], length, arith}
use flow_dps.Base.Outcome.{ok}
use flow_dps.Base.Store.{Store, lookup, insert}
use flow_dps.Storage.Encoding.{big_endian}
use flow_dps.Storage.Entries.{IsArray}
use flow_dps.Checkpoint.Light.{Formats, LightNode}
use flow_dps.Checkpoint.Rebuild.{HashedNode, leaf, branch, extension, at, Arrays, from_light_node}
use flow_dps.Checkpoint.Flatten.{
  Object, leaf_at, branch_at, extension_at, Flattening, to_light_node,
}
use flow_dps.Checkpoint.Flatten.Sound.{
  Restores, at_bound, Represents, IsSound, IsSeen, IsReady, Indexed, seen_index, lookup_kept,
}

module _ {P : Type 0} (F : Formats P) (R : Arrays) (law : Restores F R) (compact : ℕ → P → ℕ)
    (heap : ℕ → Object P) where
  abbrev pub Index : Flattening → List (HashedNode P) → ℕ → Type 0
  Index f nodes x =
      (j : ℕ) × (t : HashedNode P) × (lookup x f.index ≡ some j)
      × (at nodes j ≡ ok t)
      × Represents heap x t
      × (j ≢ 0)

  pub index_of :
      (f : Flattening) (nodes : List (HashedNode P)) (seen : List ℕ) (x : ℕ)
      → IsSound F R heap f nodes
      → Indexed heap f.index seen
      → IsSeen heap seen x
      → x ≢ 0
      → Index f nodes x
  index_of f nodes seen x sound h s n =
      let (j, e) = seen_index heap f.index seen x h s in
      let (t, at_j, rep, nz) = sound.tree_at x j e in (j, t, e, at_j, rep, nz n)

  pub nonzero : (j : ℕ) → j ≢ 0 → (j == 0) ≡ false
  nonzero j n = ground arith

  pub from_light_node-branch :
      (nodes : List (HashedNode P)) (j k h : ℕ) (t u : HashedNode P)
      → IsArray h
      → j ≢ 0
      → k ≢ 0
      → at nodes j ≡ ok t
      → at nodes k ≡ ok u
      → from_light_node F R
          (record {
            l_index = j;
            r_index = k;
            hash_value = big_endian 32 h;
            payload = [];
            path = [];
            count = 0;
          })
          nodes
        ≡ ok (branch t u h)
  unfolding from_light_node
  from_light_node-branch nodes j k h t u ih nj nk at_j at_k =
      rw (law.hash_of_bytes h ih, nonzero j nj, nonzero k nk, at_j, at_k)

  pub from_light_node-extension :
      (nodes : List (HashedNode P)) (j q m h : ℕ) (t : HashedNode P)
      → IsArray q
      → IsArray h
      → j ≢ 0
      → at nodes j ≡ ok t
      → from_light_node F R
          (record {
            l_index = j;
            r_index = 0;
            hash_value = big_endian 32 h;
            payload = [];
            path = big_endian 32 q;
            count = m;
          })
          nodes
        ≡ ok (extension q m t h)
  unfolding from_light_node
  from_light_node-extension nodes j q m h t iq ih nj at_j =
      rw (law.hash_of_bytes h ih, nonzero j nj, law.path_of_bytes q iq, at_j)

  -- What ToLightNode makes of a node that is ready, and FromLightNode of that.
  abbrev pub Turned : Flattening → List (HashedNode P) → ℕ → Store ℕ → Type 0
  Turned f nodes a index =
      (light : LightNode) × (node : HashedNode P) × (to_light_node F compact (R.default_hash)
          (heap a) index
        ≡ ok light)
      × (from_light_node F R light nodes ≡ ok node)
      × Represents heap a node
      × (light.l_index < length nodes)
      × (light.r_index < length nodes)

  pub turned :
      (f : Flattening) (nodes : List (HashedNode P)) (seen : List ℕ) (a c : ℕ) (o : Object P)
      → IsSound F R heap f nodes
      → Indexed heap f.index seen
      → lookup a f.index ≡ none
      → 0 < length nodes
      → a ≢ 0
      → heap a ≡ o
      → IsReady heap seen o
      → Turned f nodes a (insert a c f.index)
  unfolding to_light_node from_light_node
  turned f nodes seen a c (leaf_at q v h true) sound idx n pos nz e (cl, iq, ih) = (
    record {
      l_index = 0;
      r_index = 0;
      hash_value = big_endian 32 h;
      payload = F.encode_payload v;
      path = big_endian 32 q;
      count = 0;
    },
    leaf q v h,
    (rw e),
    (rw (law.hash_of_bytes h ih, law.path_of_bytes q iq, law.payload v)),
    (nz, e),
    pos,
    pos,
  )
  turned f nodes seen a c (branch_at x y h true) sound idx n pos nz e (cl, ih, nx, ny, sx, sy) =
      let (j, t, ej, aj, rj, zj) = index_of f nodes seen x sound idx sx nx in
      let (k, u, ek, ak, rk, zk) = index_of f nodes seen y sound idx sy ny in
      (
        record {
          l_index = j;
          r_index = k;
          hash_value = big_endian 32 h;
          payload = [];
          path = [];
          count = 0;
        },
        branch t u h,
        (rw (e, lookup_kept heap f.index x a c j n ej, lookup_kept heap f.index y a c k n ek)),
        from_light_node-branch nodes j k h t u ih zj zk aj ak,
        (nz, x, y, e, rj, rk),
        at_bound nodes j t aj,
        at_bound nodes k u ak,
      )
  turned f nodes seen a c (extension_at q m x h true) sound idx n pos nz e (cl, iq, ih, nx, sx) =
      let (j, t, ej, aj, rj, zj) = index_of f nodes seen x sound idx sx nx in
      (
        record {
          l_index = j;
          r_index = 0;
          hash_value = big_endian 32 h;
          payload = [];
          path = big_endian 32 q;
          count = m;
        },
        extension q m t h,
        (rw (e, lookup_kept heap f.index x a c j n ej)),
        from_light_node-extension nodes j q m h t iq ih zj aj,
        (nz, x, e, rj),
        at_bound nodes j t aj,
        pos,
      )
  turned f nodes seen a c (leaf_at q v h false) sound idx n pos nz e r =
      absurd (let cl : false ≡ true = r.0 in ground arith)
  turned f nodes seen a c (branch_at x y h false) sound idx n pos nz e r =
      absurd (let cl : false ≡ true = r.0 in ground arith)
  turned f nodes seen a c (extension_at q m x h false) sound idx n pos nz e r =
      absurd (let cl : false ≡ true = r.0 in ground arith)
