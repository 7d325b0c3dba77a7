-- ===== src/Cluster/Join.antt =====
-- The second part of `round_cluster_manager_addnode` of src/round/cluster_manager.c: a copy of the
-- node goes into the ring of the cluster.
use round.Common.{
  ℕ, ◌+◌, ◌≡◌, ◌≢◌, refl, sym, ap, ◌∙◌, subst, Bool, true, false, not, ◌&&◌, ◌||◌, inl, inr, some,
  List, [], ◌∷◌, arith, All, Bool-cases, ==_iff, update,
}
use round.Common.Int.{is_neg}
use round.Text.{CString, streq}
use round.Text.Order.{streq_iff}
use round.OrderedList.{is_greater}
use round.OrderedList.Add.{any, place}
use round.Ring.{gethash, has_hash, compfunc, index_from, getnodeindex}
use round.Ring
use round.Ring.Hash.{IsHashed, IsRing, All-place, addnode_new, addnode-IsRing}
use round.Node.{RoundNode, getclustername}
use round.Node.Remote.{remote_copy, IsAddressed, remote_copy_lem}
use round.Cluster.{Cluster, Nodes, hash_of, with_cluster, cluster_hasnode, join}
use round.Cluster.Holds.{holds, has_hash-streq, any-place}
use round.Cluster.Members.{
  has, IsCluster, IsManager, IsKnown, cluster_hasnode-holds, getclusterbyname-All,
  getclusterbyname-has,
}
use round.Cluster.Frame.{IsCluster-after, IsManager-after, has-after, agree, holds-Agree}
use round.Cluster.Found.{IsFound}
use round.Cluster.Write.{has-with_cluster, with_cluster-IsManager}

index_from-holds :
    (hash_func : ℕ → CString) (i : ℕ) (ring : List ℕ) (id : CString)
    → is_neg (index_from hash_func i ring id) ≡ not (holds hash_func ring id)
unfolding index_from any
index_from-holds hash_func i [] id = refl
index_from-holds hash_func i (x ∷ xs) id = ground (arith, index_from-holds hash_func (i + 1) xs id)

-- The ring looks for the identifier of the node.
ring_hasnode :
    (hash_func : ℕ → CString) (ring : List ℕ) (x : ℕ) (id : List ℕ)
    → gethash hash_func x ≡ some id
    → Ring.hasnode hash_func ring x ≡ holds hash_func ring (some id)
unfolding Ring.hasnode getnodeindex
ring_hasnode hash_func ring x id e =
    rw (e, getnodeindex)
      (ap not (index_from-holds hash_func 0 ring (some id))
        ∙ not_not (holds hash_func ring (some id)))
  where
    not_not : (b : Bool) → not (not b) ≡ b
    not_not true = refl
    not_not false = refl

-- What a manager is to be after a node of a name and an identifier was added.
pub record IsAdded (nodes : Nodes) (mgr : List Cluster) (name id : List ℕ) (nodes' : Nodes)
    (mgr' : List Cluster) : Type 0 where
  pub manager : IsManager nodes' mgr'
  pub answers :
      (n i : List ℕ)
      → has nodes' mgr' (some n) (some i) ≡ (
          has nodes mgr (some n) (some i)
          || (streq (some n) (some name) && streq (some i) (some id)))

module _ (digest_func : List ℕ → List ℕ) (null_text : List ℕ) (nodes : Nodes) (node new_node : ℕ)
    (addressed : IsAddressed digest_func null_text (nodes node)) (name id : List ℕ)
    (known : IsKnown nodes node name id) (new0 : new_node ≢ 0) where
  abbrev copies : Nodes
  copies = update nodes new_node (remote_copy digest_func null_text (nodes node))

  new_digest : hash_of copies new_node ≡ some id
  unfolding hash_of update
  new_digest = rw ((==_iff new_node new_node).1 refl) (
      ap (λ n. n.digest) (remote_copy_lem digest_func null_text (nodes node) addressed)
      ∙ known.has_id)

  new_hash : gethash (hash_of copies) new_node ≡ some id
  unfolding gethash
  new_hash = ground (arith, new0, new_digest)

  known_name : (r : RoundNode) → getclustername r ≡ some name → r.cluster_name ≡ some name
  unfolding getclustername
  known_name r e = ground (arith, e)

  new_name : (copies new_node).cluster_name ≡ some name
  unfolding update
  new_name = rw ((==_iff new_node new_node).1 refl) (
      ap (λ n. n.cluster_name) (remote_copy_lem digest_func null_text (nodes node) addressed)
      ∙ known_name (nodes node) known.in_cluster)

  hashed : IsHashed (hash_of copies) new_node
  hashed = (new0, id, new_hash)

  module _ (mgr : List Cluster) (mgr' : List Cluster) (c : Cluster)
      (f : IsFound nodes mgr name new_node mgr' c) where
    cluster_name : c.name ≡ some name
    cluster_name =
        let (t, e) = f.cluster.named in
        let (_, s) = getclusterbyname-All (λ d. Unit {0}) mgr' (some name) c (all mgr') f.found in
        e ∙ ap some (sym ((streq_iff name t).0 (rw e at s)))
      where
        all : (l : List Cluster) → All (λ d. Unit {0}) l
        all [] = tt
        all (x ∷ xs) = (tt, all xs)

    -- The members of the name are those of the cluster.
    has_found : (i : CString) → has nodes mgr (some name) i ≡ holds (hash_of nodes) c.ring i
    has_found i =
        sym (f.same (some name) i) ∙ getclusterbyname-has nodes mgr' (some name) i ∙ rw f.found refl

    -- A node of the name and the identifier is there.
    old-IsAdded :
        holds (hash_of nodes) c.ring (some id) ≡ true → IsAdded nodes mgr name id nodes mgr'
    old-IsAdded b = record {
      manager = f.manager;
      answers = λ n i. f.same (some n) (some i) ∙ elim (Bool-cases (streq (some n) (some name))) [
        | inl p ↦ elim (Bool-cases (streq (some i) (some id))) [
          | inl q ↦
              let np = (streq_iff n name).0 p in
              let iq = (streq_iff i id).0 q in
              let t : has nodes mgr (some n) (some i) ≡ true =
                ap (λ x. has nodes mgr (some x) (some i)) np
                ∙ has_found (some i)
                ∙ ap (λ x. holds (hash_of nodes) c.ring (some x)) iq
                ∙ b in
              ground (arith, p, q, t)
          | inr q ↦ ground (arith, p, q)
        ]
        | inr p ↦ ground (arith, p)
      ];
    }

    abbrev with_new : List ℕ
    with_new = place (λ x. is_greater (compfunc (hash_of copies) x new_node)) new_node c.ring

    old_holds : (i : CString) → holds (hash_of copies) c.ring i ≡ holds (hash_of nodes) c.ring i
    old_holds i = sym (
        holds-Agree (hash_of nodes) (hash_of copies) c.ring i
          (agree nodes new_node (remote_copy digest_func null_text (nodes node)) c.ring f.spare))

    not_there :
        holds (hash_of nodes) c.ring (some id) ≡ false
        → Ring.hasnode (hash_of copies) c.ring new_node ≡ false
    not_there b =
        ring_hasnode (hash_of copies) c.ring new_node id new_hash ∙ old_holds (some id) ∙ b

    joined :
        holds (hash_of nodes) c.ring (some id) ≡ false
        → Ring.addnode (hash_of copies) c.ring new_node ≡ (with_new, true)
    joined b = addnode_new (hash_of copies) new_node new0 c.ring (not_there b)

    after_IsCluster : IsCluster copies c
    after_IsCluster =
        IsCluster-after nodes new_node (remote_copy digest_func null_text (nodes node)) c f.spare
          f.cluster

    new-IsCluster :
        holds (hash_of nodes) c.ring (some id) ≡ false
        → IsCluster copies (record c { ring = with_new })
    new-IsCluster b = record {
      named = f.cluster.named;
      ordered =
          subst (λ p. IsRing (hash_of copies) p.0) (joined b)
            (addnode-IsRing (hash_of copies) new_node hashed c.ring after_IsCluster.ordered);
      members =
          All-place (λ x. (copies x).cluster_name ≡ c.name)
            (λ x. is_greater (compfunc (hash_of copies) x new_node)) new_node c.ring
            (new_name ∙ sym cluster_name) after_IsCluster.members;
    }

    after_IsManager : IsManager copies mgr'
    after_IsManager =
        IsManager-after nodes new_node (remote_copy digest_func null_text (nodes node)) mgr'
          f.unused f.manager

    new-holds :
        (i : List ℕ)
        → holds (hash_of copies) with_new (some i)
          ≡ (holds (hash_of nodes) c.ring (some i) || streq (some i) (some id))
    new-holds i =
        any-place (has_hash (hash_of copies) (some i))
          (λ x. is_greater (compfunc (hash_of copies) x new_node)) new_node c.ring
        ∙ rw (old_holds (some i), has_hash-streq (hash_of copies) new_node i id new_hash) refl

    new-IsAdded :
        holds (hash_of nodes) c.ring (some id) ≡ false
        → IsAdded nodes mgr name id copies (with_cluster mgr' (record c { ring = with_new }))
    new-IsAdded b = record {
      manager =
          with_cluster-IsManager copies c with_new mgr' name after_IsManager f.found
            (new-IsCluster b);
      answers = λ n i.
          has-with_cluster copies c with_new mgr' name n (some i) after_IsManager f.found
          ∙ rw (cluster_name) (elim (Bool-cases (streq (some n) (some name))) [
            | inl p ↦
                let np = (streq_iff n name).0 p in
                let t : has nodes mgr (some n) (some i) ≡ holds (hash_of nodes) c.ring (some i) =
                  ap (λ x. has nodes mgr (some x) (some i)) np ∙ has_found (some i) in
                rw (p, t) (new-holds i)
            | inr p ↦
                let t : has copies mgr' (some n) (some i) ≡ has nodes mgr (some n) (some i) =
                  has-after nodes new_node (remote_copy digest_func null_text (nodes node)) mgr'
                    (some n) (some i) f.unused
                  ∙ f.same (some n) (some i) in
                ground (arith, p, t)
          ]);
    }

    -- `join` leaves the members with the new one, in either case.
    pub join-IsAdded :
        ((join digest_func null_text nodes mgr' c node new_node).2 ≡ true)
        × IsAdded nodes mgr name id
            (join digest_func null_text nodes mgr' c node new_node).1
            (join digest_func null_text nodes mgr' c node new_node).0
    unfolding join
    join-IsAdded =
        let h : cluster_hasnode nodes c node ≡ holds (hash_of nodes) c.ring (some id) =
          cluster_hasnode-holds nodes c node name id f.cluster known in
        elim (Bool-cases (holds (hash_of nodes) c.ring (some id))) [
          | inl b ↦ rw (h ∙ b) (refl, old-IsAdded b)
          | inr b ↦ rw (h ∙ b, joined b) (refl, new-IsAdded b)
        ]
