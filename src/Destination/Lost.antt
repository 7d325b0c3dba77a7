-- ===== src/Destination/Lost.antt =====
-- Where the destination of a method call is lost (src/round/node.c).
use round.Common.{ℕ, ◌≡◌, refl, ap, ◌∙◌, true, inl, inr, none, some, List, [], ◌∷◌, arith, update}
use round.RpcError.{RoundError}
use round.Cluster.{Cluster, Nodes, getclusterbyname, manager_clear}
use round.Destination.{
  cluster_at, getcluster, destination, getdestinationnode, posted, execmethod, dest_any_node,
}
use round.Destination.Reach.{IsId, IsHome, any_special}

clear_empty : (mgr : List Cluster) → (manager_clear mgr).0 ≡ []
unfolding manager_clear
clear_empty [] = refl
clear_empty (c ∷ clusters) = refl

module _ (nodes : Nodes) (mgr : List Cluster) (node : ℕ) where
  module _ (name : List ℕ) (c : Cluster) (h : IsHome nodes mgr node name c) where
    abbrev nodes' : Nodes
    nodes' = (getcluster nodes mgr node).0

    kept_at : (nodes' node).cluster ≡ c.at
    unfolding getcluster update
    kept_at = elim h.kept_pointer [
      | inl z ↦ ground (arith, z, h.named, h.found)
      | inr z ↦ ground (arith, z, h.nonnull)
    ]

    destination_cleared :
        (id : List ℕ) (random : ℕ)
        → IsId id
        → destination (getcluster nodes' [] node).0 [] (getcluster nodes' [] node).1 node id random
          ≡ none
    unfolding destination getcluster cluster_at
    destination_cleared id random i = rw (i.0, i.1, i.2) (ground (arith, kept_at, h.nonnull))

  -- Where the node has no cluster, a call with the destination "?" posts its message to NULL.
  pub execmethod-any_lost :
      (method params : List ℕ) (random : ℕ) (err : RoundError)
      → getclusterbyname mgr (nodes node).cluster_name ≡ none
      → (nodes node).cluster ≡ 0
      → execmethod nodes mgr node (some dest_any_node) (some method) (some params) random err
        ≡ some ((getcluster nodes mgr node).0, posted 0 method params err)
  unfolding execmethod getdestinationnode
  execmethod-any_lost method params random err e z =
      let lost : (getcluster nodes mgr node).1 ≡ 0 = unfold getcluster in ground (arith, e, z) in
      let searched : destination (getcluster nodes mgr node).0 mgr (getcluster nodes mgr node).1
            node dest_any_node random
          ≡ some ((getcluster nodes mgr node).0, true, some 0) =
        unfold destination in
        rw (any_special.0, any_special.1, any_special.2) (ground (arith, lost)) in
      rw (searched, execmethod, getdestinationnode) refl

  -- After the clusters are cleared, a node that has looked up its cluster reads through the
  -- pointer to it, which is freed.
  pub getdestinationnode-clear :
      (name : List ℕ) (c : Cluster) (id : List ℕ) (random : ℕ) (err : RoundError)
      → IsHome nodes mgr node name c
      → IsId id
      → getdestinationnode
          (getcluster nodes mgr node).0
          (manager_clear mgr).0
          node
          (some id)
          random
          err
        ≡ none
  getdestinationnode-clear name c id random err h i =
      ap (λ l. getdestinationnode (getcluster nodes mgr node).0 l node (some id) random err)
        (clear_empty mgr)
      ∙ (unfold getdestinationnode in
          rw (destination_cleared name c h id random i, getdestinationnode) refl)
