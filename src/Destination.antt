-- ===== src/Destination.antt =====
-- The destination of a method call: `round_node_getcluster`, `round_node_getdestinationnode` and
-- `round_node_execmethod` of src/round/node.c. The node is not NULL. A read through a pointer to a
-- cluster that is freed has no result. What `rand` gives, and the posting of a message, which is a
-- callback of the node, are parameters.
pub mod Reach
pub mod Lost
use round.Common.{
  ℕ, Bool, true, false, ◌||◌, ◌<◌, Option, none, some, List, [], ◌∷◌, ◌==◌, if◌then◌else◌, ltb, not,
  update,
}
use round.Text.{CString, streq}
use round.RpcError.{RoundError, setjsonrpcerrorcode, invalid_request}
use round.Node.{RoundNode}
use round.Cluster.{Cluster, Nodes, getclusterbyname, cluster_getnodebyrandom, cluster_getnodebyid}

-- `ROUND_SYSTEM_METHOD_DEST_ALL_NODE`, "*", `…_ANY_NODE`, "?", and `…_LOCAL_NODE`, "."
abbrev pub dest_all_node : List ℕ
dest_all_node = b'*' ∷ []

abbrev pub dest_any_node : List ℕ
dest_any_node = b'?' ∷ []

abbrev pub dest_local_node : List ℕ
dest_local_node = b'.' ∷ []

-- The cluster that a pointer leads to.
unfoldable pub cluster_at : List Cluster → ℕ → Option Cluster
cluster_at [] at = none
cluster_at (c ∷ clusters) at = if c.at == at then some c else cluster_at clusters at

abbrev pub pointer_to : Option Cluster → ℕ
pointer_to none = 0
pointer_to (some c) = c.at

-- `round_node_getcluster`: the node keeps the pointer that it returns.
unfoldable pub getcluster : Nodes → List Cluster → ℕ → Nodes × ℕ
getcluster nodes mgr node =
    let found : ℕ = pointer_to (getclusterbyname mgr (nodes node).cluster_name) in
    if not ((nodes node).cluster == 0)
    then (nodes, (nodes node).cluster)
    else (update nodes node (record (nodes node) { cluster = found }), found)

-- What a search for a destination leaves: the nodes, the flag and the destination, where it is set.
abbrev pub Searched : Type 0
Searched = Nodes × Bool × Option ℕ

-- The part of `round_node_getdestinationnode` behind the look-up of the cluster
unfoldable pub destination : Nodes → List Cluster → ℕ → ℕ → List ℕ → ℕ → Option Searched
unfolding cluster_at cluster_getnodebyrandom cluster_getnodebyid
destination nodes mgr cluster node dest random =
    if streq (some dest) (some dest_all_node)
    then some (nodes, false, none)
    else if streq (some dest) (some dest_local_node)
    then some (nodes, true, some node)
    else if streq (some dest) (some dest_any_node)
    then (if cluster == 0 then some (nodes, true, some 0) else elim (cluster_at mgr cluster) [
      | none ↦ none
      | some c ↦ elim (cluster_getnodebyrandom c random) [
        | none ↦ none
        | some n ↦ some (nodes, true, some n)
      ]
    ])
    else if cluster == 0
    then some (nodes, false, some 0)
    else elim (cluster_at mgr cluster) [
      | none ↦ none
      | some c ↦
          let n : ℕ = cluster_getnodebyid nodes c (some dest) in some (nodes, not (n == 0), some n)
    ]

-- `round_node_getdestinationnode` with the error that it sets
unfoldable pub getdestinationnode :
    Nodes → List Cluster → ℕ → CString → ℕ → RoundError → Option (Searched × RoundError)
unfolding getcluster destination
getdestinationnode nodes mgr node none random err =
    some ((nodes, false, none), setjsonrpcerrorcode err invalid_request)
getdestinationnode nodes mgr node (some dest) random err =
    elim (destination (getcluster nodes mgr node).0 mgr (getcluster nodes mgr node).1 node dest
      random) [ none ↦ none | some searched ↦ some (searched, err) ]

-- The end of a call of a method: a failure with its error, or a message that is posted to a node,
-- which may be NULL.
pub data Sent : Type 0 where
  failed : RoundError → Sent
  posted : ℕ → List ℕ → List ℕ → RoundError → Sent

-- `round_node_execmethod`, up to the post of the message in `round_node_postmethod`
unfoldable pub execmethod :
    Nodes → List Cluster → ℕ → CString → CString → CString → ℕ → RoundError → Option (Nodes × Sent)
unfolding getdestinationnode
execmethod nodes mgr node dest none params random err =
    some (nodes, failed (setjsonrpcerrorcode err invalid_request))
execmethod nodes mgr node dest (some method) none random err =
    some (nodes, failed (setjsonrpcerrorcode err invalid_request))
execmethod nodes mgr node none (some method) (some params) random err =
    some (nodes, failed (setjsonrpcerrorcode err invalid_request))
execmethod nodes mgr node (some dest) (some method) (some params) random err =
    elim (getdestinationnode nodes mgr node (some dest) random err) [
      | none ↦ none
      | some ((nodes', found, none), err') ↦
          some (nodes', failed (setjsonrpcerrorcode err' invalid_request))
      | some ((nodes', found, some n), err') ↦ some (
        nodes',
        if found
            then posted n method params err'
            else failed (setjsonrpcerrorcode err' invalid_request),
      )
    ]
