-- ===== src/Cluster/Add.antt =====
-- The addition of a node to the clusters: `round_cluster_manager_addnode` of cluster_manager.c.
use round.Common.{ℕ, ◌≡◌, ◌≢◌, refl, ap, ◌∙◌, true, ◌&&◌, ◌||◌, some, List, arith, All, update}
use round.Text.{streq}
use round.Node.{getclustername}
use round.Node.Remote.{remote_copy, IsAddressed}
use round.Cluster.{Cluster, Nodes, find_or_add, join, addnode, hasnode}
use round.Cluster.Join.{IsAdded, join-IsAdded}
use round.Cluster.Members.{IsManager, IsKnown, hasnode-has}
use round.Cluster.Frame.{Unused, after_other}
use round.Cluster.Found.{find_or_add-IsFound}

module _ (digest_func : List ℕ → List ℕ) (null_text : List ℕ) (nodes : Nodes) (node new_node : ℕ)
    (addressed : IsAddressed digest_func null_text (nodes node)) (name id : List ℕ)
    (known : IsKnown nodes node name id) (new0 : new_node ≢ 0) where
  addnode-join :
      (l : List Cluster) (a : ℕ)
      → addnode digest_func null_text nodes l node a new_node
        ≡ join digest_func null_text nodes
            (find_or_add l (some name) a).0
            (find_or_add l (some name) a).1
            node
            new_node
  unfolding addnode
  addnode-join l a = ground (arith, known.nonnull, known.in_cluster)

  addnode-IsAdded :
      (mgr : List Cluster) (new_cluster : ℕ)
      → IsManager nodes mgr
      → All (λ d. d.at ≢ new_cluster) mgr
      → Unused new_node mgr
      → ((addnode digest_func null_text nodes mgr node new_cluster new_node).2 ≡ true)
        × IsAdded nodes mgr name id
            (addnode digest_func null_text nodes mgr node new_cluster new_node).1
            (addnode digest_func null_text nodes mgr node new_cluster new_node).0
  addnode-IsAdded mgr new_cluster m h u =
      let found = find_or_add mgr (some name) new_cluster in
      rw (addnode-join mgr new_cluster) (
        join-IsAdded digest_func null_text nodes node new_node addressed name id known new0 mgr
          found.0 found.1 (find_or_add-IsFound nodes mgr name new_cluster new_node m h u))

  join-nodes :
      (mgr : List Cluster) (c : Cluster) (x : ℕ)
      → x ≢ new_node
      → (join digest_func null_text nodes mgr c node new_node).1 x ≡ nodes x
  unfolding join update
  join-nodes mgr c x h =
      ground
        (arith, after_other nodes new_node (remote_copy digest_func null_text (nodes node)) x h)

  -- On a well-formed manager of clusters, addnode of a node that has an address, a name of a
  -- cluster and the identifier of its address and port succeeds and leaves a well-formed manager,
  -- where new memory is not NULL and not in use; any other node that is known by its cluster and
  -- its identifier is then in a cluster where it was before, or where it has the cluster and the
  -- identifier of the node that is added.
  pub addnode-hasnode :
      (mgr : List Cluster) (new_cluster x : ℕ) (n i : List ℕ)
      → IsManager nodes mgr
      → All (λ d. d.at ≢ new_cluster) mgr
      → Unused new_node mgr
      → x ≢ new_node
      → IsKnown nodes x n i
      → ((addnode digest_func null_text nodes mgr node new_cluster new_node).2 ≡ true)
        × IsManager
            (addnode digest_func null_text nodes mgr node new_cluster new_node).1
            (addnode digest_func null_text nodes mgr node new_cluster new_node).0
        × (hasnode
              (addnode digest_func null_text nodes mgr node new_cluster new_node).1
              (addnode digest_func null_text nodes mgr node new_cluster new_node).0
              x
            ≡ (hasnode nodes mgr x || (streq (some n) (some name) && streq (some i) (some id))))
  addnode-hasnode mgr new_cluster x n i m h u xn k =
      let (ok, added) = addnode-IsAdded mgr new_cluster m h u in
      let after = addnode digest_func null_text nodes mgr node new_cluster new_node in
      let same : after.1 x ≡ nodes x =
        ap (λ r. r.1 x) (addnode-join mgr new_cluster)
        ∙ join-nodes (find_or_add mgr (some name) new_cluster).0
            (find_or_add mgr (some name) new_cluster).1 x xn in
      let k' : IsKnown after.1 x n i = record {
        nonnull = k.nonnull;
        in_cluster = ap getclustername same ∙ k.in_cluster;
        has_id = ap (λ r. r.digest) same ∙ k.has_id;
      } in
      (
        ok,
        added.manager,
        hasnode-has after.1 after.0 x n i added.manager k'
            ∙ added.answers n i
            ∙ rw (hasnode-has nodes mgr x n i m k) refl,
      )
