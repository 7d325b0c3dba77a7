-- ===== src/Cluster/Members.antt =====
-- The members of clusters (cluster_manager.c): which identifiers a ring holds, and which clusters
-- hold them.
use round.Common.{
  ℕ, ◌≡◌, ◌≢◌, refl, ap, ◌∙◌, subst, Bool, true, false, not, inl, inr, none, some, List, [], ◌∷◌,
  ◌==◌, if◌then◌else◌, arith, All, Bool-cases, Option-cases,
}
use round.Text.{CString, streq}
use round.Ring.{gethash, getnodebyhashcode, getequalnode}
use round.Ring.Hash.{IsRing}
use round.Node.{getclustername}
use round.Cluster.Holds.{holds, getnodebyhashcode-holds}
use round.Cluster.{
  Cluster, Nodes, hash_of, getclusterbyname, getclusterbynode, cluster_hasnode, hasnode,
}

-- Whether the cluster of a name holds a node of an identifier.
unfoldable pub has : Nodes → List Cluster → CString → CString → Bool
has nodes [] name id = false
has nodes (c ∷ clusters) name id =
    if streq name c.name then holds (hash_of nodes) c.ring id else has nodes clusters name id

-- A cluster with a name, whose ring is in order, and whose nodes belong to it.
pub record IsCluster (nodes : Nodes) (c : Cluster) : Type 0 where
  pub named : (t : List ℕ) × (c.name ≡ some t)
  pub ordered : IsRing (hash_of nodes) c.ring
  pub members : All (λ x. (nodes x).cluster_name ≡ c.name) c.ring

abbrev pub Differs : Cluster → Cluster → Type 0
Differs c d = (c.at ≢ d.at) × (streq d.name c.name ≡ false)

-- The clusters have different addresses and different names.
abbrev pub IsManager : Nodes → List Cluster → Type 0
IsManager nodes [] = Unit
IsManager nodes (c ∷ clusters) =
    IsCluster nodes c × All (Differs c) clusters × IsManager nodes clusters

-- A node that is not NULL, with the name of a cluster and an identifier.
pub record IsKnown (nodes : Nodes) (x : ℕ) (name id : List ℕ) : Type 0 where
  pub nonnull : x ≢ 0
  pub in_cluster : getclustername (nodes x) ≡ some name
  pub has_id : (nodes x).digest ≡ some id

pub gethash_known :
    (nodes : Nodes) (x : ℕ) (name id : List ℕ)
    → IsKnown nodes x name id
    → gethash (hash_of nodes) x ≡ some id
unfolding gethash hash_of
gethash_known nodes x name id k = ground (arith, k.nonnull, k.has_id)

pub getequalnode_known :
    (hash_func : ℕ → CString) (ring : List ℕ) (x : ℕ) (id : List ℕ)
    → gethash hash_func x ≡ some id
    → getequalnode hash_func ring x ≡ getnodebyhashcode hash_func ring (some id)
unfolding getequalnode
getequalnode_known hash_func ring x id e = rw (e, getequalnode) refl

pub cluster_hasnode-holds :
    (nodes : Nodes) (c : Cluster) (x : ℕ) (name id : List ℕ)
    → IsCluster nodes c
    → IsKnown nodes x name id
    → cluster_hasnode nodes c x ≡ holds (hash_of nodes) c.ring (some id)
unfolding cluster_hasnode
cluster_hasnode-holds nodes c x name id i k =
    ap (λ e. not (e == 0))
      (getequalnode_known (hash_of nodes) c.ring x id (gethash_known nodes x name id k))
    ∙ ap not (getnodebyhashcode-holds (hash_of nodes) c.ring (some id) i.ordered.hashed)
    ∙ not_not (holds (hash_of nodes) c.ring (some id))
  where
    not_not : (b : Bool) → not (not b) ≡ b
    not_not true = refl
    not_not false = refl

pub getclusterbyname-has :
    (nodes : Nodes) (mgr : List Cluster) (name id : CString)
    → has nodes mgr name id ≡ (elim (getclusterbyname mgr name) [
      | none ↦ false
      | some c ↦ holds (hash_of nodes) c.ring id
    ])
unfolding has getclusterbyname
getclusterbyname-has nodes [] name id = refl
getclusterbyname-has nodes (c ∷ clusters) name id = elim (Bool-cases (streq name c.name)) [
  | inl e ↦ rw e refl
  | inr e ↦ rw e (getclusterbyname-has nodes clusters name id)
]

-- What holds of all clusters holds of the one that is found, which has the name.
pub getclusterbyname-All {κ} :
    (P : Cluster → Type κ) (mgr : List Cluster) (name : CString) (c : Cluster)
    → All P mgr
    → getclusterbyname mgr name ≡ some c
    → P c × (streq name c.name ≡ true)
unfolding getclusterbyname
getclusterbyname-All P [] name c h e = cc
getclusterbyname-All P (d ∷ clusters) name c h e = elim (Bool-cases (streq name d.name)) [
  | inl s ↦
      let q : d ≡ c = some_inj (rw s at e) in
      subst (λ x. P x × (streq name x.name ≡ true)) q (h.0, s)
  | inr s ↦ getclusterbyname-All P clusters name c h.1 (rw s at e)
]
  where
    some_inj : {a b : Cluster} → some a ≡ some b → a ≡ b
    some_inj q = cc q

pub IsManager-All :
    (nodes : Nodes) (mgr : List Cluster) → IsManager nodes mgr → All (IsCluster nodes) mgr
IsManager-All nodes [] m = tt
IsManager-All nodes (c ∷ clusters) m = (m.0, IsManager-All nodes clusters m.2)

-- `hasnode` looks for the identifier in the cluster of the name.
pub hasnode-has :
    (nodes : Nodes) (mgr : List Cluster) (x : ℕ) (name id : List ℕ)
    → IsManager nodes mgr
    → IsKnown nodes x name id
    → hasnode nodes mgr x ≡ has nodes mgr (some name) (some id)
unfolding hasnode getclusterbynode
hasnode-has nodes mgr x name id m k =
    rw (getclusterbyname-has nodes mgr (some name) (some id))
      (elim (Option-cases (getclusterbyname mgr (some name))) [
        | inl e ↦ ground (arith, k.nonnull, k.in_cluster, e)
        | inr (c, e) ↦
            let (i, _) =
              getclusterbyname-All (IsCluster nodes) mgr (some name) c (IsManager-All nodes mgr m)
                e in
            ground (arith, k.nonnull, k.in_cluster, e, cluster_hasnode-holds nodes c x name id i k)
      ])
