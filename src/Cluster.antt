-- ===== src/Cluster.antt =====
-- The clusters that a node knows: src/round/cluster.c and src/round/cluster_manager.c with the
-- macros of cluster_internal.h and node_internal.h. A node is a pointer, 0 for NULL, into a store
-- of nodes; a cluster is known by its address; the manager is the list of its clusters, and a
-- write to a cluster is a write into that list. The addresses of new memory are parameters of the
-- calls that allocate, which succeed. The manager is not NULL.
pub mod Holds
pub mod Members
pub mod Frame
pub mod Write
pub mod Found
pub mod Join
pub mod Add
pub mod Remove
use round.Common.{
  ℕ, zero, suc, ◌%◌, Bool, true, false, not, Option, none, some, List, [], ◌∷◌, ◌++◌, ◌==◌,
  if◌then◌else◌, length, get_or, update,
}
use round.Text.{CString, streq}
use round.Ring.{getequalnode, getnodebyhashcode}
use round.Ring
use round.Node.{RoundNode, gethashcode, getclustername}
use round.Node.Remote.{remote_copy}

-- `RoundCluster`
pub record Cluster : Type 0 where
  pub at : ℕ
  pub name : CString
  pub ring : List ℕ

-- The nodes that pointers lead to.
abbrev pub Nodes : Type 0
Nodes = ℕ → RoundNode

-- The hash function that `round_node_init` sets.
unfoldable pub hash_of : Nodes → ℕ → CString
unfolding gethashcode
hash_of nodes node = gethashcode (nodes node)

-- `round_cluster_new`
unfoldable pub cluster_new : ℕ → Cluster
cluster_new at = record { at = at; name = none; ring = [] }

-- `round_cluster_setname`, which refuses NULL.
unfoldable pub setname : Cluster → CString → Cluster
setname cluster none = cluster
setname cluster (some name) = record cluster { name = some name }

-- `round_cluster_size`
unfoldable pub cluster_size : Cluster → ℕ
cluster_size cluster = length cluster.ring

-- `round_cluster_getnode`
unfoldable pub cluster_getnode : Cluster → ℕ → ℕ
cluster_getnode cluster idx = get_or cluster.ring idx 0

-- `round_cluster_getnodebyid`
unfoldable pub cluster_getnodebyid : Nodes → Cluster → CString → ℕ
cluster_getnodebyid nodes cluster id = getnodebyhashcode (hash_of nodes) cluster.ring id

-- `round_cluster_getnodebyrandom`, with what `rand` gives; `none` is the division by 0.
unfoldable pub cluster_getnodebyrandom : Cluster → ℕ → Option ℕ
unfolding cluster_size cluster_getnode
cluster_getnodebyrandom cluster random =
    if cluster_size cluster == 0
    then none
    else some (cluster_getnode cluster (random % cluster_size cluster))

-- `round_cluster_getequalnode`
unfoldable pub cluster_getequalnode : Nodes → Cluster → ℕ → ℕ
cluster_getequalnode nodes cluster node = getequalnode (hash_of nodes) cluster.ring node

-- `round_cluster_hasnode`, which is `round_cluster_hasequalnode`
unfoldable pub cluster_hasnode : Nodes → Cluster → ℕ → Bool
unfolding cluster_getequalnode
cluster_hasnode nodes cluster node = not (cluster_getequalnode nodes cluster node == 0)

-- A write to the cluster of that address.
unfoldable pub with_cluster : List Cluster → Cluster → List Cluster
with_cluster [] cluster = []
with_cluster (c ∷ clusters) cluster =
    if c.at == cluster.at then cluster ∷ clusters else c ∷ with_cluster clusters cluster

-- `round_cluster_manager_getclusterbyname`
unfoldable pub getclusterbyname : List Cluster → CString → Option Cluster
getclusterbyname [] name = none
getclusterbyname (c ∷ clusters) name =
    if streq name c.name then some c else getclusterbyname clusters name

-- `round_cluster_manager_getclusterbynode`
unfoldable pub getclusterbynode : Nodes → List Cluster → ℕ → Option Cluster
unfolding getclusterbyname getclustername
getclusterbynode nodes mgr node = if node == 0 then none else elim (getclustername (nodes node)) [
  | none ↦ none
  | some name ↦ getclusterbyname mgr (some name)
]

-- The first part of `round_cluster_manager_addnode`: the cluster of that name, which is added at
-- the end where there is none.
unfoldable pub find_or_add : List Cluster → CString → ℕ → List Cluster × Cluster
unfolding getclusterbyname cluster_new setname
find_or_add mgr name new_cluster = elim (getclusterbyname mgr name) [
  | some cluster ↦ (mgr, cluster)
  | none ↦
      let cluster : Cluster = setname (cluster_new new_cluster) name in
      (mgr ++ cluster ∷ [], cluster)
]

-- What a change of a manager leaves: the clusters, the nodes and the flag.
abbrev pub Changed : Type 0
Changed = List Cluster × Nodes × Bool

module _ (digest_func : List ℕ → List ℕ) (null_text : List ℕ) where
  -- The second part: a copy of the node goes into the ring, where the cluster has no node of its
  -- hash.
  unfoldable pub join : Nodes → List Cluster → Cluster → ℕ → ℕ → Changed
  unfolding cluster_hasnode with_cluster
  join nodes mgr cluster node new_node =
      let copies : Nodes = update nodes new_node (remote_copy digest_func null_text (nodes node)) in
      let added : List ℕ × Bool = Ring.addnode (hash_of copies) cluster.ring new_node in
      if cluster_hasnode nodes cluster node
      then (mgr, nodes, true)
      else if added.1
      then (with_cluster mgr (record cluster { ring = added.0 }), copies, true)
      else (mgr, copies, false)

  -- `round_cluster_manager_addnode`
  unfoldable pub addnode : Nodes → List Cluster → ℕ → ℕ → ℕ → Changed
  unfolding find_or_add join getclustername
  addnode nodes mgr node new_cluster new_node =
      if node == 0 then (mgr, nodes, false) else elim (getclustername (nodes node)) [
        | none ↦ (mgr, nodes, false)
        | some name ↦
            let found : List Cluster × Cluster = find_or_add mgr (some name) new_cluster in
            join nodes found.0 found.1 node new_node
      ]

-- `round_cluster_manager_removenode`
unfoldable pub removenode : Nodes → List Cluster → ℕ → List Cluster × Bool
unfolding getclusterbynode with_cluster
removenode nodes mgr node =
    if node == 0 then (mgr, false) else elim (getclusterbynode nodes mgr node) [
      | none ↦ (mgr, false)
      | some cluster ↦
          let removed : List ℕ × Bool = Ring.removenode (hash_of nodes) cluster.ring node in
          (with_cluster mgr (record cluster { ring = removed.0 }), removed.1)
    ]

-- `round_cluster_manager_getnode`
unfoldable pub manager_getnode : Nodes → List Cluster → ℕ → ℕ
unfolding getclusterbynode cluster_getequalnode
manager_getnode nodes mgr node = elim (getclusterbynode nodes mgr node) [
  | none ↦ 0
  | some cluster ↦ cluster_getequalnode nodes cluster node
]

-- `round_cluster_manager_hasnode`
unfoldable pub hasnode : Nodes → List Cluster → ℕ → Bool
unfolding getclusterbynode cluster_hasnode
hasnode nodes mgr node = elim (getclusterbynode nodes mgr node) [
  | none ↦ false
  | some cluster ↦ cluster_hasnode nodes cluster node
]

-- `round_cluster_manager_clear`, with the addresses of the clusters that it frees, in order
unfoldable pub manager_clear : List Cluster → List Cluster × List ℕ
manager_clear [] = ([], [])
manager_clear (c ∷ clusters) = ([], c.at ∷ (manager_clear clusters).1)
