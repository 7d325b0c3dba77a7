-- ===== src/Cluster/Remove.antt =====
-- The removal of a node from the clusters: `round_cluster_manager_removenode` of cluster_manager.c.
use round.Common.{
  ℕ, ◌≡◌, refl, sym, ap, ◌∙◌, Bool, true, false, not, ◌&&◌, inl, inr, none, some, List, ◌==◌, arith,
  All, Bool-cases, Option-cases,
}
use round.Text.{CString, streq}
use round.Text.Order.{streq_iff}
use round.LinkedList.Chain.{erase, All-erase}
use round.Ring.{getequalnode, getnodebyhashcode}
use round.Ring
use round.Ring.Hash.{IsRing, erase-IsRing}
use round.Cluster.{
  Cluster, Nodes, hash_of, getclusterbyname, getclusterbynode, with_cluster, removenode, hasnode,
}
use round.Cluster.Holds.{holds, getnodebyhashcode-holds, holds-erase}
use round.Cluster.Members.{
  has, IsCluster, IsManager, IsManager-All, IsKnown, getclusterbyname-All, getclusterbyname-has,
  hasnode-has, gethash_known, getequalnode_known,
}
use round.Cluster.Write.{has-with_cluster, with_cluster-IsManager}

module _ (nodes : Nodes) (node : ℕ) (name id : List ℕ) (known : IsKnown nodes node name id) where
  abbrev hash_func : ℕ → CString
  hash_func = hash_of nodes

  removenode_absent :
      (mgr : List Cluster)
      → getclusterbyname mgr (some name) ≡ none
      → removenode nodes mgr node ≡ (mgr, false)
  unfolding removenode getclusterbynode
  removenode_absent mgr e = ground (arith, known.nonnull, known.in_cluster, e)

  removenode_present :
      (mgr : List Cluster) (c : Cluster)
      → getclusterbyname mgr (some name) ≡ some c
      → removenode nodes mgr node ≡ (
        with_cluster mgr (record c { ring = (Ring.removenode hash_func c.ring node).0 }),
        (Ring.removenode hash_func c.ring node).1,
      )
  unfolding removenode getclusterbynode
  removenode_present mgr c e = ground (arith, known.nonnull, known.in_cluster, e)

  module _ (ring : List ℕ) (r : IsRing hash_func ring) where
    target : getequalnode hash_func ring node ≡ getnodebyhashcode hash_func ring (some id)
    target = getequalnode_known hash_func ring node id (gethash_known nodes node name id known)

    found : (getequalnode hash_func ring node == 0) ≡ not (holds hash_func ring (some id))
    found = ap (λ e. e == 0) target ∙ getnodebyhashcode-holds hash_func ring (some id) r.hashed

    removed_absent :
        holds hash_func ring (some id) ≡ false → Ring.removenode hash_func ring node ≡ (ring, false)
    unfolding Ring.removenode
    removed_absent b = ground (arith, known.nonnull, found, b)

    removed_present :
        holds hash_func ring (some id) ≡ true
        → Ring.removenode hash_func ring node
          ≡ (erase (getnodebyhashcode hash_func ring (some id)) ring, true)
    unfolding Ring.removenode
    removed_present b = ground (arith, known.nonnull, found, b, target)

    -- What the ring keeps.
    record IsKept (ring' : List ℕ) : Type 0 where
      kept_ring : IsRing hash_func ring'
      answers :
          (i : List ℕ)
          → holds hash_func ring' (some i)
            ≡ (holds hash_func ring (some i) && not (streq (some i) (some id)))

    removed-IsKept :
        ((Ring.removenode hash_func ring node).1 ≡ holds hash_func ring (some id))
        × IsKept (Ring.removenode hash_func ring node).0
    removed-IsKept = elim (Bool-cases (holds hash_func ring (some id))) [
      | inl b ↦
          rw (removed_present b, b)
            (
              refl,
              record {
                kept_ring =
                    erase-IsRing hash_func (getnodebyhashcode hash_func ring (some id)) ring r;
                answers = λ i. holds-erase hash_func ring id i r.hashed r.ascending;
              },
            )
      | inr b ↦
          rw (removed_absent b, b)
            (
              refl,
              record {
                kept_ring = r;
                answers = λ i. elim (Bool-cases (streq (some i) (some id))) [
                  | inl q ↦
                      let t : holds hash_func ring (some i) ≡ false =
                        ap (λ x. holds hash_func ring (some x)) ((streq_iff i id).0 q) ∙ b in
                      ground (arith, q, t)
                  | inr q ↦ ground (arith, q)
                ];
              },
            )
    ]

    removed-All : (P : ℕ → Type 0) → All P ring → All P (Ring.removenode hash_func ring node).0
    removed-All P h = elim (Bool-cases (holds hash_func ring (some id))) [
      | inl b ↦
          rw (removed_present b) (All-erase P (getnodebyhashcode hash_func ring (some id)) ring h)
      | inr b ↦ rw (removed_absent b) h
    ]

  module _ (mgr : List Cluster) (m : IsManager nodes mgr) where
    -- What a manager is to be after the node is removed.
    record IsRemoved (result : List Cluster × Bool) : Type 0 where
      manager : IsManager nodes result.0
      flag : result.1 ≡ has nodes mgr (some name) (some id)
      answers :
          (n i : List ℕ)
          → has nodes result.0 (some n) (some i) ≡ (
              has nodes mgr (some n) (some i)
              && not (streq (some n) (some name) && streq (some i) (some id)))

    removenode-IsRemoved : IsRemoved (removenode nodes mgr node)
    removenode-IsRemoved = elim (Option-cases (getclusterbyname mgr (some name))) [
      | inl e ↦
          let none_there : (i : List ℕ) → has nodes mgr (some name) (some i) ≡ false =
            λ i. getclusterbyname-has nodes mgr (some name) (some i) ∙ rw e refl in
          rw (removenode_absent mgr e) (record {
            manager = m;
            flag = sym (none_there id);
            answers = λ n i. elim (Bool-cases (streq (some n) (some name))) [
              | inl p ↦
                  let t : has nodes mgr (some n) (some i) ≡ false =
                    ap (λ x. has nodes mgr (some x) (some i)) ((streq_iff n name).0 p)
                    ∙ none_there i in
                  ground (arith, p, t)
              | inr p ↦ ground (arith, p)
            ];
          })
      | inr (c, e) ↦ rw (removenode_present mgr c e) (present c e)
    ]
      where
        and_true : (a : Bool) → a ≡ (a && not false)
        and_true true = refl
        and_true false = refl

        present :
            (c : Cluster)
            → getclusterbyname mgr (some name) ≡ some c
            → IsRemoved (
              with_cluster mgr (record c { ring = (Ring.removenode hash_func c.ring node).0 }),
              (Ring.removenode hash_func c.ring node).1,
            )
        present c e =
            let ring' : List ℕ = (Ring.removenode hash_func c.ring node).0 in
            let (cl, s) =
              getclusterbyname-All (IsCluster nodes) mgr (some name) c (IsManager-All nodes mgr m)
                e in
            let (t, ct) = cl.named in
            let cn : c.name ≡ some name = ct ∙ ap some (sym ((streq_iff name t).0 (rw ct at s))) in
            let (flagged, kept) = removed-IsKept c.ring cl.ordered in
            let there : (i : List ℕ)
                → has nodes mgr (some name) (some i) ≡ holds hash_func c.ring (some i) =
              λ i. getclusterbyname-has nodes mgr (some name) (some i) ∙ rw e refl in
            record {
              manager = with_cluster-IsManager nodes c ring' mgr name m e (record {
                named = cl.named;
                ordered = kept.kept_ring;
                members =
                    removed-All c.ring cl.ordered (λ x. (nodes x).cluster_name ≡ c.name) cl.members;
              });
              flag = flagged ∙ sym (there id);
              answers = λ n i.
                  has-with_cluster nodes c ring' mgr name n (some i) m e
                  ∙ rw cn (elim (Bool-cases (streq (some n) (some name))) [
                    | inl p ↦
                        let u : has nodes mgr (some n) (some i) ≡ holds hash_func c.ring (some i) =
                          ap (λ x. has nodes mgr (some x) (some i)) ((streq_iff n name).0 p)
                          ∙ there i in
                        rw (p, u) (kept.answers i)
                    | inr p ↦ rw p (and_true (has nodes mgr (some n) (some i)))
                  ]);
            }

    -- On a well-formed manager of clusters, removenode of a node that is known by its cluster and
    -- its identifier leaves a well-formed manager and reports whether the node was in a cluster;
    -- any node that is known by its cluster and its identifier is then in a cluster where it was
    -- before and does not have both of them from the node that is removed.
    pub removenode-hasnode :
        (x : ℕ) (n i : List ℕ)
        → IsKnown nodes x n i
        → IsManager nodes (removenode nodes mgr node).0
          × ((removenode nodes mgr node).1 ≡ hasnode nodes mgr node)
          × (hasnode nodes (removenode nodes mgr node).0 x ≡ (
              hasnode nodes mgr x && not (streq (some n) (some name) && streq (some i) (some id))))
    removenode-hasnode x n i k =
        let removed = removenode-IsRemoved in
        (
          removed.manager,
          removed.flag ∙ sym (hasnode-has nodes mgr node name id m known),
          hasnode-has nodes (removenode nodes mgr node).0 x n i removed.manager k
              ∙ removed.answers n i
              ∙ rw (hasnode-has nodes mgr x n i m k) refl,
        )
