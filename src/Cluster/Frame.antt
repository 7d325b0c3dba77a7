-- ===== src/Cluster/Frame.antt =====
-- A new node in the store leaves the clusters (cluster.c) that do not hold it as they are.
use round.Common.{ℕ, ◌≡◌, ◌≢◌, refl, sym, ap, ◌∙◌, List, [], ◌∷◌, arith, All, All-map, update}
use round.Text.{CString}
use round.OrderedList.Add.{any}
use round.Ring.{gethash, has_hash}
use round.Ring.Hash.{IsHashed, Before, IsAscending, IsRing}
use round.Node.{RoundNode}
use round.Cluster.{Cluster, Nodes, hash_of}
use round.Cluster.Holds.{holds}
use round.Cluster.Members.{has, IsCluster, IsManager}

-- Two hash functions that agree on the nodes of a ring.
module _ (f g : ℕ → CString) where
  abbrev Agree : List ℕ → Type 0
  Agree ring = All (λ x. f x ≡ g x) ring

  gethash_agree : (x : ℕ) → f x ≡ g x → gethash f x ≡ gethash g x
  unfolding gethash
  gethash_agree x e = rw e refl

  has_hash_agree : (x : ℕ) (id : CString) → f x ≡ g x → has_hash f id x ≡ has_hash g id x
  unfolding has_hash
  has_hash_agree x id e = rw (gethash_agree x e, has_hash) refl

  pub holds-Agree : (ring : List ℕ) (id : CString) → Agree ring → holds f ring id ≡ holds g ring id
  unfolding any
  holds-Agree [] id a = refl
  holds-Agree (x ∷ xs) id a = rw (has_hash_agree x id a.0, holds-Agree xs id a.1) refl

  pub IsHashed-Agree : (ring : List ℕ) → Agree ring → All (IsHashed f) ring → All (IsHashed g) ring
  IsHashed-Agree [] a h = tt
  IsHashed-Agree (x ∷ xs) a h =
      let (x0, t, e) = h.0 in ((x0, t, sym (gethash_agree x a.0) ∙ e), IsHashed-Agree xs a.1 h.1)

  Before-Agree :
      (x : ℕ) (ring : List ℕ)
      → f x ≡ g x
      → Agree ring
      → All (Before f x) ring
      → All (Before g x) ring
  Before-Agree x [] e a h = tt
  Before-Agree x (y ∷ ring) e a h =
      (rw (gethash_agree x e, gethash_agree y a.0) at h.0, Before-Agree x ring e a.1 h.1)

  IsAscending-Agree : (ring : List ℕ) → Agree ring → IsAscending f ring → IsAscending g ring
  IsAscending-Agree [] a h = tt
  IsAscending-Agree (x ∷ xs) a h = (Before-Agree x xs a.0 a.1 h.0, IsAscending-Agree xs a.1 h.1)

  IsRing-Agree : (ring : List ℕ) → Agree ring → IsRing f ring → IsRing g ring
  IsRing-Agree ring a r = record {
    hashed = IsHashed-Agree ring a r.hashed;
    ascending = IsAscending-Agree ring a r.ascending;
  }

-- No cluster has the node in its ring.
abbrev pub Unused : ℕ → List Cluster → Type 0
Unused new_node mgr = All (λ c. All (λ x. x ≢ new_node) c.ring) mgr

-- The store after a new node is written.
module _ (nodes : Nodes) (new_node : ℕ) (v : RoundNode) where
  abbrev pub after : Nodes
  after = update nodes new_node v

  pub after_other : (x : ℕ) → x ≢ new_node → after x ≡ nodes x
  unfolding update
  after_other x h = ground (arith, h)

  pub agree :
      (ring : List ℕ)
      → All (λ x. x ≢ new_node) ring
      → All (λ x. hash_of nodes x ≡ hash_of after x) ring
  unfolding hash_of
  agree ring h = All-map ring (λ x n. ap (λ y. y.digest) (sym (after_other x n))) h

  pub IsCluster-after :
      (c : Cluster) → All (λ x. x ≢ new_node) c.ring → IsCluster nodes c → IsCluster after c
  IsCluster-after c h i = record {
    named = i.named;
    ordered = IsRing-Agree (hash_of nodes) (hash_of after) c.ring (agree c.ring h) i.ordered;
    members = both c.ring h i.members;
  }
    where
      both :
          (ring : List ℕ)
          → All (λ x. x ≢ new_node) ring
          → All (λ x. (nodes x).cluster_name ≡ c.name) ring
          → All (λ x. (after x).cluster_name ≡ c.name) ring
      both [] n m = tt
      both (x ∷ xs) n m = (ap (λ y. y.cluster_name) (after_other x n.0) ∙ m.0, both xs n.1 m.1)

  pub IsManager-after :
      (mgr : List Cluster) → Unused new_node mgr → IsManager nodes mgr → IsManager after mgr
  IsManager-after [] u m = tt
  IsManager-after (c ∷ clusters) u m =
      (IsCluster-after c u.0 m.0, m.1, IsManager-after clusters u.1 m.2)

  pub has-after :
      (mgr : List Cluster) (name id : CString)
      → Unused new_node mgr
      → has after mgr name id ≡ has nodes mgr name id
  unfolding has
  has-after [] name id u = refl
  has-after (c ∷ clusters) name id u =
      rw
        (
          sym (holds-Agree (hash_of nodes) (hash_of after) c.ring id (agree c.ring u.0)),
          has-after clusters name id u.1,
        )
        refl
