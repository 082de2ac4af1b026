-- ===== src/Mapper/Setup.antt =====
-- InitializeMapper, BootstrapState and ResumeIndexing of transitions.go.
use flow_dps.Base.{◌==◌, [], if◌then◌else◌, next_height}
use flow_dps.Base.Outcome.{hash_mismatch, from, raise, ◌>>=◌, ◌>>◌}
use flow_dps.Forest
use flow_dps.Mapper.Types.{
  Deps, initialize, bootstrap, resume, index, Config, Env, Action, modify, first_once, guard_status,
}

module _ {K : Deps} where
  open K use {dummy_commitment, empty_tree, root_hash, tree_paths}

  unfoldable pub initialize_mapper : Config → Action K Unit
  initialize_mapper cfg =
      guard_status initialize
        (modify λ s. record s { status = if cfg.bootstrap_state then bootstrap else resume })

  unfoldable pub bootstrap_state : Env K → Action K Unit
  unfolding Forest.add
  bootstrap_state env = guard_status bootstrap do
    modify λ s. record s {
      forest = Forest.add root_hash empty_tree [] dummy_commitment s.forest;
      last = dummy_commitment;
      next = root_hash empty_tree;
    }
    h ← from env.chain_root
    modify λ s. record s { height = h }
    tree ← from env.load_trie
    modify λ s. record s {
      forest = Forest.add root_hash tree (tree_paths tree) (root_hash empty_tree) s.forest;
      status = index;
    }

  unfoldable pub resume_indexing : Env K → Action K Unit
  unfolding Forest.add first_once
  resume_indexing env = guard_status resume do
    first ← from env.chain_root
    first_once env first
    last ← from env.read_last
    tree ← from env.load_trie
    commit ← from (env.read_commit last)
    if root_hash tree == commit
        then modify (λ s. record s {
          last = dummy_commitment;
          next = commit;
          forest = Forest.add root_hash tree [] dummy_commitment s.forest;
          height = next_height last;
          status = index;
        })
        else raise hash_mismatch
