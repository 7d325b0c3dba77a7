-- ===== src/Destination/Reach.antt =====
-- Which node a destination of node.c, round_node_getdestinationnode, leads to.
use round.Common.{
  ℕ, ◌%◌, ◌<◌, ◌≡◌, ◌≢◌, refl, sym, ap, ◌∙◌, Bool, true, false, not, ◌⊎◌, inl, inr, some, List, [],
  ◌∷◌, ◌==◌, arith, All, Bool-cases, ==_iff, update, length, get_or,
}
use round.Text.{CString, streq, strcmp_bytes}
use round.RpcError.{RoundError}
use round.Ring.{gethash}
use round.Ring.Hash.{IsHashed}
use round.Ring.Offset.Step.{All-get_or}
use round.Cluster.{
  Cluster, Nodes, hash_of, getclusterbyname, cluster_getnodebyid, cluster_getnodebyrandom,
}
use round.Cluster.Holds.{getnodebyhashcode-holds, getnodebyhashcode_id}
use round.Cluster.Members.{
  has, IsCluster, Differs, IsManager, IsManager-All, getclusterbyname-All, getclusterbyname-has,
}
use round.Cluster.Frame.{holds-Agree, IsHashed-Agree}
use round.Destination.{
  cluster_at, getcluster, destination, getdestinationnode, dest_all_node, dest_any_node,
  dest_local_node,
}

-- A destination that is none of the three special ones.
abbrev pub IsId : List ℕ → Type 0
IsId id =
    (streq (some id) (some dest_all_node) ≡ false)
    × (streq (some id) (some dest_local_node) ≡ false)
    × (streq (some id) (some dest_any_node) ≡ false)

not-not : (b : Bool) → not (not b) ≡ b
not-not true = refl
not-not false = refl

nonempty : (xs : List ℕ) → xs ≢ [] → length xs ≢ 0
nonempty [] h = absurd (h refl)
nonempty (x ∷ xs) h = omega arith

pub any_special :
    (streq (some dest_any_node) (some dest_all_node) ≡ false)
    × (streq (some dest_any_node) (some dest_local_node) ≡ false)
    × (streq (some dest_any_node) (some dest_any_node) ≡ true)
unfolding streq strcmp_bytes
any_special = (refl, refl, refl)

cluster_at_found :
    (nodes : Nodes) (mgr : List Cluster) (name : CString) (c : Cluster)
    → IsManager nodes mgr
    → getclusterbyname mgr name ≡ some c
    → cluster_at mgr c.at ≡ some c
unfolding getclusterbyname cluster_at
cluster_at_found nodes [] name c m e = cc
cluster_at_found nodes (d ∷ clusters) name c m e = elim (Bool-cases (streq name d.name)) [
  | inl s ↦ let q : some d ≡ some c = rw s at e in ground (arith, q)
  | inr s ↦
      let f : getclusterbyname clusters name ≡ some c = rw s at e in
      let (diff, _) = getclusterbyname-All (Differs d) clusters name c m.1 f in
      ground (arith, diff.0, cluster_at_found nodes clusters name c m.2 f)
]

module _ (nodes : Nodes) (mgr : List Cluster) (node : ℕ) where
  kept : (x : ℕ) → hash_of nodes x ≡ hash_of (getcluster nodes mgr node).0 x
  unfolding hash_of getcluster update
  kept x = ground arith

  -- The node keeps no pointer to a cluster, or one to the cluster of its name.
  pub record IsHome (name : List ℕ) (c : Cluster) : Type 0 where
    pub manager : IsManager nodes mgr
    pub named : (nodes node).cluster_name ≡ some name
    pub found : getclusterbyname mgr (some name) ≡ some c
    pub nonnull : c.at ≢ 0
    pub kept_pointer : ((nodes node).cluster ≡ 0) ⊎ ((nodes node).cluster ≡ c.at)

  module _ (name : List ℕ) (c : Cluster) (h : IsHome name c) where
    getcluster_home : (getcluster nodes mgr node).1 ≡ c.at
    unfolding getcluster
    getcluster_home = elim h.kept_pointer [
      | inl z ↦ ground (arith, z, h.named, h.found)
      | inr z ↦ ground (arith, z, h.nonnull)
    ]

    at_home : cluster_at mgr (getcluster nodes mgr node).1 ≡ some c
    at_home =
        ap (cluster_at mgr) getcluster_home
        ∙ cluster_at_found nodes mgr (some name) c h.manager h.found

    found-IsCluster : IsCluster nodes c
    found-IsCluster =
        (getclusterbyname-All (IsCluster nodes) mgr (some name) c
          (IsManager-All nodes mgr h.manager) h.found).0

    abbrev nodes' : Nodes
    nodes' = (getcluster nodes mgr node).0

    agreed : (xs : List ℕ) → All (λ x. hash_of nodes x ≡ hash_of nodes' x) xs
    agreed [] = tt
    agreed (x ∷ xs) = (kept x, agreed xs)

    abbrev target : List ℕ → ℕ
    target id = cluster_getnodebyid nodes' c (some id)

    destination_id :
        (id : List ℕ) (random : ℕ)
        → IsId id
        → destination nodes' mgr (getcluster nodes mgr node).1 node id random
          ≡ some (nodes', not (target id == 0), some (target id))
    unfolding destination
    destination_id id random i =
        rw (i.0, i.1, i.2, at_home) (ground (arith, getcluster_home, h.nonnull))

    hashed' : All (IsHashed (hash_of nodes')) c.ring
    hashed' =
        IsHashed-Agree (hash_of nodes) (hash_of nodes') c.ring (agreed c.ring)
          found-IsCluster.ordered.hashed

    target-has : (id : List ℕ) → (target id == 0) ≡ not (has nodes mgr (some name) (some id))
    unfolding cluster_getnodebyid
    target-has id =
        getnodebyhashcode-holds (hash_of nodes') c.ring (some id) hashed'
        ∙ ap not
            (sym (holds-Agree (hash_of nodes) (hash_of nodes') c.ring (some id) (agreed c.ring)))
        ∙ ap not (sym (getclusterbyname-has nodes mgr (some name) (some id) ∙ rw h.found refl))

    target_cases :
        (id : List ℕ)
        → ((target id ≡ 0) × (has nodes mgr (some name) (some id) ≡ false))
          ⊎ ((target id ≢ 0)
              × (has nodes mgr (some name) (some id) ≡ true)
              × (hash_of nodes (target id) ≡ some id))
    unfolding cluster_getnodebyid gethash
    target_cases id = elim (Bool-cases (target id == 0)) [
      | inl z ↦ inl ((==_iff (target id) 0).0 z, ground (arith, z, target-has id))
      | inr z ↦
          let nz : target id ≢ 0 = λ e. ground (arith, e, z) in
          let g = getnodebyhashcode_id (hash_of nodes') c.ring id hashed' nz in
          let q = target-has id in
          let h : has nodes mgr (some name) (some id) ≡ true = ground (arith, z, q) in
          inr (nz, h, kept (target id) ∙ ground (arith, g, nz))
    ]

    destination_any :
        (random : ℕ)
        → length c.ring ≢ 0
        → destination nodes' mgr (getcluster nodes mgr node).1 node dest_any_node random
          ≡ some (nodes', true, some (get_or c.ring (random % length c.ring) 0))
    unfolding destination cluster_getnodebyrandom
    destination_any random nz =
        rw (any_special.0, any_special.1, any_special.2, at_home)
          (ground (arith, getcluster_home, h.nonnull, nz))

    -- For a node whose cluster is in a well-formed manager and is not empty, "?" leads to a node
    -- of its ring.
    pub getdestinationnode-any :
        (random : ℕ) (err : RoundError)
        → c.ring ≢ []
        → (k : ℕ) × (k < length c.ring)
          × (getdestinationnode nodes mgr node (some dest_any_node) random err
              ≡ some ((nodes', true, some (get_or c.ring k 0)), err))
          × (get_or c.ring k 0 ≢ 0)
    unfolding getdestinationnode
    getdestinationnode-any random err e =
        let nz : length c.ring ≢ 0 = nonempty c.ring e in
        let k : ℕ = random % length c.ring in
        let lt : k < length c.ring = grind (arith, nz) in
        (
          k,
          lt,
          rw (destination_any random nz, getdestinationnode) refl,
          (All-get_or (IsHashed (hash_of nodes)) c.ring k found-IsCluster.ordered.hashed lt).0,
        )

    -- For a node whose cluster is in a well-formed manager of clusters, getdestinationnode of an
    -- identifier other than the three names for all, for any and for the local node ends, keeps
    -- the error, and gives a node that is not NULL and has that identifier where the cluster has
    -- one, and NULL with a failure where it has none.
    pub getdestinationnode-id :
        (id : List ℕ) (random : ℕ) (err : RoundError)
        → IsId id
        → (d : ℕ) × (getdestinationnode nodes mgr node (some id) random err
            ≡ some ((nodes', has nodes mgr (some name) (some id), some d), err))
          × (((d ≡ 0) × (has nodes mgr (some name) (some id) ≡ false))
              ⊎ ((d ≢ 0)
                  × (has nodes mgr (some name) (some id) ≡ true)
                  × (hash_of nodes d ≡ some id)))
    unfolding getdestinationnode
    getdestinationnode-id id random err i = (
      target id,
      rw (destination_id id random i, getdestinationnode)
          (ap (λ b. some ((nodes', b, some (target id)), err))
            (ap not (target-has id) ∙ not-not _)),
      target_cases id,
    )
