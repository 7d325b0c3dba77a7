-- ===== src/Server/Joined.antt =====
-- The cluster of a server after its start (src/round/server.c).
use round.Common.{
  ℕ, ◌⊎◌, inl, inr, Option-cases, Bool-cases, ◌≡◌, ◌≢◌, refl, ap, ◌∙◌, Bool, true, false, none,
  some, List, [], ◌∷◌, arith, map, All, ◌==◌, ==_iff, update,
}
use round.Common.Int.{ℤ, pos}
use round.Text.{CString, strlen, streq}
use round.Node.{
  RoundNode, setaddress, setport, seed, getclustername, getaddress, getport, node_init,
  setclustername, updateid,
}
use round.Ring.{gethash, has_hash, getequalnode, getnodeindex, compfunc}
use round.Ring
use round.OrderedList.Add.{place}
use round.Node.Remote.{remote_copy, copy_address, copy_port, copy_clustername}
use round.Cluster.{
  Cluster, Nodes, addnode, hasnode, find_or_add, join, getclusterbyname, getclusterbynode,
  cluster_hasnode, cluster_new, setname, with_cluster, cluster_getequalnode, hash_of,
}
use round.NodeThreads.{NodeRun, local_start, local_clear}
use round.NodeThreads.Running.{local_start_lem, restarted, stopped}
use round.Server.{Libraries, RoundServer, server_clear, server_start, set_place}

-- A node without an address and a port that is in the cluster of a name.
pub record IsUnplaced (node : RoundNode) (name : List ℕ) : Type 0 where
  pub no_address : node.addr ≡ some []
  pub no_port : node.port ≡ pos 0
  pub in_cluster : node.cluster_name ≡ some name

long : (name : List ℕ) → name ≢ [] → (strlen (some name) == 0) ≡ false
unfolding strlen
long [] h = absurd (h refl)
long (x ∷ name) h = ground arith

module _ (digest_func : List ℕ → List ℕ) (null_text : List ℕ) where
  abbrev pub nameless : List ℕ → RoundNode
  nameless name = record node_init { cluster_name = some name }

  -- The copy of such a node has no identifier.
  remote_copy_unplaced :
      (node : RoundNode) (name : List ℕ)
      → name ≢ []
      → IsUnplaced node name
      → remote_copy digest_func null_text node ≡ nameless name
  unfolding remote_copy copy_address copy_port copy_clustername getaddress getport getclustername
      setclustername strlen
  remote_copy_unplaced node name n0 u =
      ground (arith, u.no_address, u.no_port, u.in_cluster, long name n0)

  module _ (nodes : Nodes) (self new_cluster new_node : ℕ) (name : List ℕ) (n0 : name ≢ [])
      (self0 : self ≢ 0) (new0 : new_node ≢ 0) (u : IsUnplaced (nodes self) name) where
    abbrev copies : Nodes
    copies = update nodes new_node (remote_copy digest_func null_text (nodes self))

    -- The cluster with the copy
    abbrev ghost : Cluster
    ghost = record { at = new_cluster; name = some name; ring = new_node ∷ [] }

    ring-copies : Ring.addnode (hash_of copies) [] new_node ≡ (new_node ∷ [], true)
    unfolding Ring.addnode Ring.hasnode getnodeindex place
    ring-copies = elim (hash_cases (hash_of copies)) [
      | inl e ↦ ground (arith, e, new0)
      | inr (h, e) ↦ ground (arith, e, new0)
    ]
      where
        hash_cases :
            (hash_func : ℕ → CString)
            → (gethash hash_func new_node ≡ none)
              ⊎ ((h : List ℕ) × (gethash hash_func new_node ≡ some h))
        hash_cases hash_func = Option-cases (gethash hash_func new_node)

    join-ghost :
        addnode digest_func null_text nodes [] self new_cluster new_node
        ≡ (ghost ∷ [], copies, true)
    unfolding addnode find_or_add join getclusterbyname cluster_new setname cluster_hasnode
        cluster_getequalnode getclustername with_cluster strlen getequalnode
    join-ghost =
        ground (arith, u.in_cluster, long name n0, ring-copies, self0, empty_ring (hash_of nodes))
      where
        empty_ring : (hash_func : ℕ → CString) → getequalnode hash_func [] self ≡ 0
        empty_ring hash_func = elim (Option-cases (gethash hash_func self)) [
          | inl e ↦ rw (e, getequalnode) refl
          | inr (h, e) ↦ rw (e, getequalnode) refl
        ]

    -- No node is found in a ring whose only node has no identifier.
    hasnode-ghost :
        (after : Nodes)
        → (after self).cluster_name ≡ some name
        → (after new_node).digest ≡ none
        → hasnode after (ghost ∷ []) self ≡ false
    unfolding hasnode getclusterbynode getclusterbyname cluster_hasnode cluster_getequalnode
        getclustername getequalnode has_hash gethash hash_of strlen
    hasnode-ghost after c d = elim (Bool-cases (streq (some name) (some name))) [
      | inl b ↦ elim (Option-cases (after self).digest) [
        | inl e ↦ ground (arith, c, d, b, e, self0, new0, long name n0)
        | inr (h, e) ↦ ground (arith, c, d, b, e, self0, new0, long name n0)
      ]
      | inr b ↦ ground (arith, c, d, b, self0, long name n0)
    ]

    cluster_hasnode-ghost :
        (after : Nodes) → (after new_node).digest ≡ none → cluster_hasnode after ghost self ≡ false
    unfolding cluster_hasnode cluster_getequalnode getequalnode has_hash gethash hash_of
    cluster_hasnode-ghost after d = elim (Option-cases (after self).digest) [
      | inl e ↦ ground (arith, d, e, self0, new0)
      | inr (h, e) ↦ ground (arith, d, e, self0, new0)
    ]

module _ (digest_func : List ℕ → List ℕ) (null_text : List ℕ) (libs : Libraries)
    (server : RoundServer) (new_cluster new_node : ℕ) (name : List ℕ) where
  abbrev self : ℕ
  self = server.self

  abbrev placed : RoundNode → List ℕ → ℤ → RoundNode
  placed node addr port = record node {
    addr = some addr;
    port = port;
    digest = some (digest_func (seed null_text (some addr) port));
  }

  module _ (n0 : name ≢ []) (self0 : server.self ≢ 0) (new0 : new_node ≢ 0)
      (u : IsUnplaced (server.run.nodes server.self) name) where
    abbrev with_ghost : Nodes
    with_ghost =
        update server.run.nodes new_node (remote_copy digest_func null_text (server.run.nodes self))

    abbrev running : NodeRun
    running = record {
      threads = map restarted (map stopped server.run.threads);
      triggers = map restarted (map restarted server.run.triggers);
      clusters = record { at = new_cluster; name = some name; ring = new_node ∷ [] } ∷ [];
      nodes = with_ghost;
    }

    local_started :
        local_start digest_func null_text true (local_clear server.run).0 self new_cluster new_node
        ≡ (running, true)
    unfolding local_clear
    local_started =
        let j =
          join-ghost digest_func null_text server.run.nodes self new_cluster new_node name n0 self0
            new0 u in
        local_start_lem digest_func null_text (local_clear server.run).0 self new_cluster new_node
          (ap (λ r. r.2) j)
        ∙ ap
            (λ (r : List Cluster × Nodes × Bool). (
              record {
                threads = map restarted (map stopped server.run.threads);
                triggers = map restarted (map restarted server.run.triggers);
                clusters = r.0;
                nodes = r.1;
              },
              true,
            ))
            j

    started :
        libs.rpc_starts ≡ true
        → libs.finder_starts ≡ true
        → server_start digest_func null_text libs true server new_cluster new_node ≡ (
          set_place digest_func null_text libs
              (record server { run = running })
              libs.bind_address
              libs.bind_port,
          true,
        )
    unfolding server_start server_clear local_clear
    started rs fs = ground (arith, rs, fs, local_started)

    -- The nodes after the start, with the address that is bound
    abbrev bound : List ℕ → Nodes
    bound addr = update with_ghost self (placed (with_ghost self) addr libs.bind_port)

    set_place-bound :
        (addr : List ℕ)
        → libs.bind_address ≡ some addr
        → set_place digest_func null_text libs
            (record server { run = running })
            libs.bind_address
            libs.bind_port
          ≡ record server { run = record running { nodes = bound addr } }
    unfolding set_place setaddress setport updateid
    set_place-bound addr e =
        ap
          (λ c.
            set_place digest_func null_text libs (record server { run = running }) c libs.bind_port)
          e

    module _ (ne : server.self ≢ new_node) (addr : List ℕ) where
      with_ghost-self : with_ghost self ≡ server.run.nodes self
      unfolding update
      with_ghost-self = ground (arith, ne)

      bound-self : bound addr self ≡ placed (server.run.nodes self) addr libs.bind_port
      unfolding update
      bound-self =
          rw ((==_iff self self).1 refl) (ap (λ n. placed n addr libs.bind_port) with_ghost-self)

      bound-ghost : (bound addr new_node).digest ≡ none
      unfolding update node_init
      bound-ghost =
          ap (λ n. n.digest) (skip (placed (with_ghost self) addr libs.bind_port))
          ∙ ap (λ n. n.digest)
              (remote_copy_unplaced digest_func null_text (server.run.nodes self) name n0 u)
        where
          skip :
              (p : RoundNode)
              → update with_ghost self p new_node
                ≡ remote_copy digest_func null_text (server.run.nodes self)
          skip p = ground (arith, ne)

  -- Where the system starts every thread, the server of HTTP and the finder start, the address is
  -- bound, new memory is not NULL and not the local node, and the local node has a name of a
  -- cluster but no address and no port, start of the server succeeds and gives the local node the
  -- address and the port that are bound, with the identifier of these; but neither the cluster of
  -- the node's own name nor any other cluster of the node then has a node of this identifier.
  pub server_start-hasnode :
      (addr : List ℕ)
      → name ≢ []
      → server.self ≢ 0
      → new_node ≢ 0
      → server.self ≢ new_node
      → IsUnplaced (server.run.nodes server.self) name
      → libs.rpc_starts ≡ true
      → libs.finder_starts ≡ true
      → libs.bind_address ≡ some addr
      → let after = server_start digest_func null_text libs true server new_cluster new_node in
        (after.1 ≡ true)
        × (after.0.run.nodes self ≡ placed (server.run.nodes self) addr libs.bind_port)
        × (hasnode after.0.run.nodes after.0.run.clusters self ≡ false)
        × All (λ c. cluster_hasnode after.0.run.nodes c self ≡ false) after.0.run.clusters
  server_start-hasnode addr n0 self0 new0 ne u rs fs ba =
      let here = bound-self n0 self0 new0 u ne addr in
      rw
        (started n0 self0 new0 u rs fs
          ∙ ap (λ s. (s, true)) (set_place-bound n0 self0 new0 u addr ba))
        (
          refl,
          here,
          hasnode-ghost digest_func null_text server.run.nodes self new_cluster new_node name n0
              self0 new0 u (bound n0 self0 new0 u addr)
              (ap (λ n. n.cluster_name) here ∙ u.in_cluster) (bound-ghost n0 self0 new0 u ne addr),
          (
            cluster_hasnode-ghost digest_func null_text server.run.nodes self new_cluster new_node
                name n0 self0 new0 u (bound n0 self0 new0 u addr)
                (bound-ghost n0 self0 new0 u ne addr),
            tt,
          ),
        )
