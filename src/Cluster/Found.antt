-- ===== src/Cluster/Found.antt =====
-- The cluster that `round_cluster_manager_addnode` of src/round/cluster_manager.c finds or adds.
use round.Common.{
  ℕ, ◌≡◌, ◌≢◌, refl, true, false, inl, inr, none, some, List, [], ◌∷◌, ◌++◌, arith, All, All-append,
  Bool-cases, Option-cases,
}
use round.Text.{CString, streq}
use round.Text.Order.{streq_iff}
use round.OrderedList.Add.{any}
use round.Cluster.{Cluster, Nodes, cluster_new, setname, getclusterbyname, find_or_add}
use round.Cluster.Members.{has, IsCluster, Differs, IsManager, IsManager-All}
use round.Cluster.Frame.{Unused}
use round.Cluster.Write.{found-All}

-- A new cluster, with no nodes, behind the others.
module _ (nodes : Nodes) (c : Cluster) (empty : c.ring ≡ []) where
  pub has-append :
      (mgr : List Cluster) (name id : CString)
      → has nodes (mgr ++ c ∷ []) name id ≡ has nodes mgr name id
  unfolding has any
  has-append [] name id = elim (Bool-cases (streq name c.name)) [
    | inl s ↦ rw (s, empty) refl
    | inr s ↦ rw s refl
  ]
  has-append (d ∷ clusters) name id = rw (has-append clusters name id) refl

  not_found :
      (mgr : List Cluster) (name : CString)
      → getclusterbyname mgr name ≡ none
      → All (λ d. streq name d.name ≡ false) mgr
  unfolding getclusterbyname
  not_found [] name e = tt
  not_found (d ∷ clusters) name e = elim (Bool-cases (streq name d.name)) [
    | inl s ↦ absurd (ground (arith, s, e))
    | inr s ↦ (s, not_found clusters name (rw s at e))
  ]

  getclusterbyname-append :
      (mgr : List Cluster) (name : CString)
      → streq name c.name ≡ true
      → All (λ d. streq name d.name ≡ false) mgr
      → getclusterbyname (mgr ++ c ∷ []) name ≡ some c
  unfolding getclusterbyname
  getclusterbyname-append [] name s h = rw s refl
  getclusterbyname-append (d ∷ clusters) name s h =
      rw h.0 (getclusterbyname-append clusters name s h.1)

  append-IsManager :
      (mgr : List Cluster)
      → IsManager nodes mgr
      → IsCluster nodes c
      → All (λ d. d.at ≢ c.at) mgr
      → All (λ d. streq c.name d.name ≡ false) mgr
      → IsManager nodes (mgr ++ c ∷ [])
  append-IsManager [] m i h k = (i, tt, tt)
  append-IsManager (d ∷ clusters) m i h k = (
    m.0,
    All-append (Differs d) clusters (c ∷ []) m.1 ((h.0, k.0), tt),
    append-IsManager clusters m.2 i h.1 k.1,
  )

-- What `find_or_add` is to give: a cluster of the name, and the members as before.
pub record IsFound (nodes : Nodes) (mgr : List Cluster) (name : List ℕ) (new_node : ℕ)
    (mgr' : List Cluster) (c : Cluster) : Type 0 where
  pub manager : IsManager nodes mgr'
  pub found : getclusterbyname mgr' (some name) ≡ some c
  pub cluster : IsCluster nodes c
  pub spare : All (λ x. x ≢ new_node) c.ring
  pub unused : Unused new_node mgr'
  pub same : (n id : CString) → has nodes mgr' n id ≡ has nodes mgr n id

module _ (nodes : Nodes) (mgr : List Cluster) (name : List ℕ) (new_cluster new_node : ℕ) where
  abbrev fresh : Cluster
  fresh = record { at = new_cluster; name = some name; ring = [] }

  find_or_add_old :
      (c : Cluster)
      → getclusterbyname mgr (some name) ≡ some c
      → find_or_add mgr (some name) new_cluster ≡ (mgr, c)
  unfolding find_or_add
  find_or_add_old c e = rw (e, find_or_add) refl

  find_or_add_new :
      getclusterbyname mgr (some name) ≡ none
      → find_or_add mgr (some name) new_cluster ≡ (mgr ++ fresh ∷ [], fresh)
  unfolding find_or_add cluster_new setname
  find_or_add_new e = rw (e, find_or_add) refl

  fresh-IsCluster : IsCluster nodes fresh
  fresh-IsCluster = record {
    named = (name, refl);
    ordered = record { hashed = tt; ascending = tt };
    members = tt;
  }

  pub find_or_add-IsFound :
      IsManager nodes mgr
      → All (λ d. d.at ≢ new_cluster) mgr
      → Unused new_node mgr
      → IsFound nodes mgr name new_node
          (find_or_add mgr (some name) new_cluster).0
          (find_or_add mgr (some name) new_cluster).1
  find_or_add-IsFound m h u = elim (Option-cases (getclusterbyname mgr (some name))) [
    | inr (c, e) ↦ rw (find_or_add_old c e) (record {
      manager = m;
      found = e;
      cluster = found-All nodes c [] (IsCluster nodes) mgr name (IsManager-All nodes mgr m) e;
      spare = found-All nodes c [] (λ d. All (λ x. x ≢ new_node) d.ring) mgr name u e;
      unused = u;
      same = λ n id. refl;
    })
    | inl e ↦ rw (find_or_add_new e) (record {
      manager =
          append-IsManager nodes fresh refl mgr m fresh-IsCluster h
            (not_found nodes fresh refl mgr (some name) e);
      found =
          getclusterbyname-append nodes fresh refl mgr (some name) ((streq_iff name name).1 refl)
            (not_found nodes fresh refl mgr (some name) e);
      cluster = fresh-IsCluster;
      spare = tt;
      unused = All-append (λ d. All (λ x. x ≢ new_node) d.ring) mgr (fresh ∷ []) u (tt, tt);
      same = has-append nodes fresh refl mgr;
    })
  ]
