-- ===== src/Cluster/Write.antt =====
-- A write to one cluster, and a new cluster at the end (cluster_manager.c).
use round.Common.{
  ℕ, ◌≡◌, ◌≢◌, refl, sym, ap, ◌∙◌, subst, Bool, true, false, inl, inr, some, List, [], ◌∷◌, ◌==◌,
  if◌then◌else◌, arith, All, Bool-cases, ==_iff,
}
use round.Text.{CString, streq}
use round.Text.Order.{streq_iff}
use round.Cluster.{Cluster, Nodes, hash_of, getclusterbyname, with_cluster}
use round.Cluster.Holds.{holds}
use round.Cluster.Members.{has, IsCluster, Differs, IsManager, IsManager-All}

streq_euclid :
    (n : List ℕ) (a b : CString)
    → (t : List ℕ) × (a ≡ some t)
    → (u : List ℕ) × (b ≡ some u)
    → streq (some n) a ≡ true
    → streq (some n) b ≡ true
    → streq b a ≡ true
streq_euclid n a b (t, e) (u, f) h k =
    let nt : n ≡ t = (streq_iff n t).0 (rw e at h) in
    let nu : n ≡ u = (streq_iff n u).0 (rw f at k) in rw (e, f) ((streq_iff u t).1 (sym nu ∙ nt))

some_inj : {A : Type 0} {a b : A} → some a ≡ some b → a ≡ b
some_inj q = cc q

module _ (nodes : Nodes) (c : Cluster) (ring : List ℕ) where
  abbrev changed : Cluster
  changed = record c { ring = ring }

  -- The cluster at the head is the one that is written, or another one.
  data AtHead (d : Cluster) (clusters : List Cluster) (name : List ℕ) : Type 0 where
    here : d ≡ c → AtHead d clusters name
    behind :
        getclusterbyname clusters (some name) ≡ some c
        → streq (some name) d.name ≡ false
        → AtHead d clusters name

  at_head :
      (d : Cluster) (clusters : List Cluster) (name : List ℕ)
      → getclusterbyname (d ∷ clusters) (some name) ≡ some c
      → AtHead d clusters name
  unfolding getclusterbyname
  at_head d clusters name e = elim (Bool-cases (streq (some name) d.name)) [
    | inl s ↦ here (some_inj (rw s at e))
    | inr s ↦ behind (rw s at e) s
  ]

  pub found-All {κ} :
      (P : Cluster → Type κ) (clusters : List Cluster) (name : List ℕ)
      → All P clusters
      → getclusterbyname clusters (some name) ≡ some c
      → P c
  unfolding getclusterbyname
  found-All P [] name h e = cc
  found-All P (d ∷ clusters) name h e = elim (at_head d clusters name e) [
    | here q ↦ subst P q h.0
    | behind f _ ↦ found-All P clusters name h.1 f
  ]

  skip :
      (d : Cluster) (clusters : List Cluster)
      → d.at ≢ c.at
      → with_cluster (d ∷ clusters) changed ≡ d ∷ with_cluster clusters changed
  unfolding with_cluster
  skip d clusters h = ground (arith, h)

  hit :
      (d : Cluster) (clusters : List Cluster)
      → d ≡ c
      → with_cluster (d ∷ clusters) changed ≡ changed ∷ clusters
  unfolding with_cluster
  hit d clusters q = rw (ap (λ x. x.at) q) (rw ((==_iff c.at c.at).1 refl) refl)

  pub has-with_cluster :
      (mgr : List Cluster) (name n : List ℕ) (id : CString)
      → IsManager nodes mgr
      → getclusterbyname mgr (some name) ≡ some c
      → has nodes (with_cluster mgr changed) (some n) id ≡ (
          if streq (some n) c.name
          then holds (hash_of nodes) ring id
          else has nodes mgr (some n) id)
  unfolding has
  has-with_cluster [] name n id m e = unfold getclusterbyname in cc
  has-with_cluster (d ∷ clusters) name n id m e = elim (at_head d clusters name e) [
    | here q ↦
        ap (λ l. has nodes l (some n) id) (hit d clusters q)
        ∙ rw q (nested (streq (some n) c.name) _ _ _)
    | behind f s ↦
        let diff : Differs d c = found-All (Differs d) clusters name m.1 f in
        let ih = has-with_cluster clusters name n id m.2 f in
        let i : IsCluster nodes c =
          found-All (IsCluster nodes) clusters name (IsManager-All nodes clusters m.2) f in
        ap (λ l. has nodes l (some n) id) (skip d clusters diff.0)
        ∙ elim (Bool-cases (streq (some n) d.name)) [
          | inl y ↦ elim (Bool-cases (streq (some n) c.name)) [
            | inl z ↦
                absurd (ground (arith, streq_euclid n d.name c.name m.0.named i.named y z, diff.1))
            | inr z ↦ ground (arith, y, z)
          ]
          | inr y ↦ ground (arith, y, ih)
        ]
  ]
    where
      nested : (b x y z : Bool) → (if b then x else z) ≡ (if b then x else if b then y else z)
      nested true x y z = refl
      nested false x y z = refl

  keep :
      (d : Cluster) (clusters : List Cluster)
      → All (Differs d) clusters
      → Differs d c
      → All (Differs d) (with_cluster clusters changed)
  unfolding with_cluster
  keep d [] h k = tt
  keep d (e ∷ clusters) h k = elim (Bool-cases (e.at == c.at)) [
    | inl s ↦ rw s (k, h.1)
    | inr s ↦ rw s (h.0, keep d clusters h.1 k)
  ]

  pub with_cluster-IsManager :
      (mgr : List Cluster) (name : List ℕ)
      → IsManager nodes mgr
      → getclusterbyname mgr (some name) ≡ some c
      → IsCluster nodes changed
      → IsManager nodes (with_cluster mgr changed)
  with_cluster-IsManager [] name m e i = unfold with_cluster in tt
  with_cluster-IsManager (d ∷ clusters) name m e i = elim (at_head d clusters name e) [
    | here q ↦ rw (hit d clusters q) (i, subst (λ x. All (Differs x) clusters) q m.1, m.2)
    | behind f s ↦
        let diff : Differs d c = found-All (Differs d) clusters name m.1 f in
        rw (skip d clusters diff.0)
          (m.0, keep d clusters m.1 diff, with_cluster-IsManager clusters name m.2 f i)
  ]
