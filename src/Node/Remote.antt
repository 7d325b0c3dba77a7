-- ===== src/Node/Remote.antt =====
-- The copy of a node as a remote node: src/round/remote_node.c.
use round.Common.{ℕ, ◌==◌, ◌≡◌, refl, ap, true, false, none, some, List, arith}
use round.Common.Int.{ℤ, pos, negsuc, ltb_ℤ, eqb_ℤ}
use round.Text.{CString, strlen, is_zero}
use round.Text.Order.{strcmp-eq}
use round.Node.{
  RoundNode, node_init, updateid, seed, node_equals, string_equals, gethashcode, setaddress,
  setport, setclustername, getaddress, getport, getclustername,
}

module _ (digest_func : List ℕ → List ℕ) (null_text : List ℕ) where
  -- The three parts of `round_remote_node_copy`, each a call where the getter succeeds
  unfoldable pub copy_address : RoundNode → RoundNode → RoundNode
  unfolding getaddress setaddress
  copy_address node new_node = elim (getaddress node) [
    | none ↦ new_node
    | some addr ↦ (setaddress digest_func null_text new_node (some addr)).0
  ]

  unfoldable pub copy_port : RoundNode → RoundNode → RoundNode
  unfolding getport setport
  copy_port node new_node = elim (getport node) [
    | none ↦ new_node
    | some port ↦ (setport digest_func null_text new_node port).0
  ]

  unfoldable pub copy_clustername : RoundNode → RoundNode → RoundNode
  unfolding getclustername setclustername
  copy_clustername node new_node = elim (getclustername node) [
    | none ↦ new_node
    | some name ↦ (setclustername new_node (some name)).0
  ]

  -- `round_remote_node_copy`
  unfoldable pub remote_copy : RoundNode → RoundNode
  unfolding copy_address copy_port copy_clustername
  remote_copy node = copy_clustername node (copy_port node (copy_address node node_init))

  -- A node whose address, port and cluster can be read, with the identifier of these.
  pub record IsAddressed (node : RoundNode) : Type 0 where
    pub has_address : (strlen node.addr == 0) ≡ false
    pub has_port : ltb_ℤ (pos 0) node.port ≡ true
    pub has_cluster : (strlen node.cluster_name == 0) ≡ false
    pub identified : node.digest ≡ some (digest_func (seed null_text node.addr node.port))

  -- What a copy is to hold.
  abbrev pub copied : RoundNode → RoundNode
  copied node = record node { clock = pos 0; request_timeout = pos 60; cluster = 0 }

  known-cases : (s : CString) → (strlen s == 0) ≡ false → (t : List ℕ) × (s ≡ some t)
  unfolding strlen
  known-cases none h = absurd (ground arith)
  known-cases (some t) h = (t, refl)

  pub remote_copy_lem : (node : RoundNode) → IsAddressed node → remote_copy node ≡ copied node
  unfolding remote_copy updateid node_init setport
  remote_copy_lem node a =
      let (addr, e) = known-cases node.addr a.has_address in
      let (name, f) = known-cases node.cluster_name a.has_cluster in
      ground (arith, a.has_address, a.has_port, a.has_cluster, a.identified, e, f)

  string_equals_refl : (s : CString) → (strlen s == 0) ≡ false → string_equals s s ≡ true
  unfolding string_equals strlen
  string_equals_refl none h = absurd (ground arith)
  string_equals_refl (some t) h = ap is_zero ((strcmp-eq t t).1 refl)

  eqb_ℤ_refl : (i : ℤ) → eqb_ℤ i i ≡ true
  eqb_ℤ_refl (pos n) = ground arith
  eqb_ℤ_refl (negsuc n) = ground arith

  -- The copy of a node that has an address, a port, a name of a cluster and the identifier of its
  -- address and port as a remote node equals the node, has its hash, and has all of these as well.
  pub remote_copy-equals :
      (node : RoundNode)
      → IsAddressed node
      → (node_equals node (remote_copy node) ≡ true)
        × (gethashcode (remote_copy node) ≡ gethashcode node)
        × IsAddressed (remote_copy node)
  unfolding gethashcode node_equals
  remote_copy-equals node a = rw (remote_copy_lem node a) (
    rw
        (
          eqb_ℤ_refl node.port,
          string_equals_refl node.addr a.has_address,
          string_equals_refl node.cluster_name a.has_cluster,
        )
        refl,
    refl,
    record {
      has_address = a.has_address;
      has_port = a.has_port;
      has_cluster = a.has_cluster;
      identified = a.identified;
    },
  )
