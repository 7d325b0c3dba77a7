-- ===== src/Node.antt =====
-- The nodes of src/round/node.c: the members of RoundNode (src/round/node_internal.h), their
-- functions, and the identifier that is made of the address and the port. A string is given by its
-- contents. The digest (openssl) and the text that the C library prints for a NULL string are
-- parameters. A node is not NULL, and allocation succeeds.
pub mod Identity
pub mod Remote
use round.Common.{
  ℕ, zero, suc, ◌+◌, ◌/◌, ◌%◌, Bool, true, false, not, ◌&&◌, Option, none, some, List, [], ◌∷◌,
  ◌++◌, ltb, leb, ◌==◌, if◌then◌else◌, take,
}
use round.Common.Int.{ℤ, pos, negsuc, eqb_ℤ, ltb_ℤ}
use round.Text.{CString, strlen, strcmp, is_zero}
use round.Clock.{initial_value}

-- `RoundNode`. The cluster is a pointer to the cluster that was looked up last, or 0 for NULL.
pub record RoundNode : Type 0 where
  pub addr : CString
  pub port : ℤ
  pub digest : CString
  pub cluster_name : CString
  pub clock : ℤ
  pub request_timeout : ℤ
  pub cluster : ℕ

-- `ROUND_DEFAULT_NODE_CLUSTER_NAME`, "round"
abbrev pub default_cluster_name : List ℕ
default_cluster_name = 114 ∷ 111 ∷ 117 ∷ 110 ∷ 100 ∷ []

-- `round_node_init`
unfoldable pub node_init : RoundNode
node_init = record {
  addr = none;
  port = pos 0;
  digest = none;
  cluster_name = some default_cluster_name;
  clock = initial_value;
  request_timeout = pos 60;
  cluster = 0;
}

-- `round_node_getaddress`; `none` where it returns false.
unfoldable pub getaddress : RoundNode → CString
getaddress node = if strlen node.addr == 0 then none else node.addr

-- `round_node_getport`; `none` where it returns false.
unfoldable pub getport : RoundNode → Option ℤ
getport node = if ltb_ℤ (pos 0) node.port then some node.port else none

-- `round_node_setclustername`, which refuses NULL.
unfoldable pub setclustername : RoundNode → CString → RoundNode × Bool
setclustername node none = (node, false)
setclustername node (some name) = (record node { cluster_name = some name }, true)

-- `round_node_getclustername`; `none` where it returns false.
unfoldable pub getclustername : RoundNode → CString
getclustername node = if strlen node.cluster_name == 0 then none else node.cluster_name

-- `round_node_setrequesttimeout`
unfoldable pub setrequesttimeout : RoundNode → ℤ → RoundNode
setrequesttimeout node value = record node { request_timeout = value }

-- `round_string_equals`
unfoldable pub string_equals : CString → CString → Bool
unfolding strcmp
string_equals str1 str2 = is_zero (strcmp str1 str2)

-- `round_node_equals`
unfoldable pub node_equals : RoundNode → RoundNode → Bool
unfolding string_equals
node_equals node1 node2 =
    if not (eqb_ℤ node1.port node2.port)
    then false
    else if not (string_equals node1.addr node2.addr)
    then false
    else if not (string_equals node1.cluster_name node2.cluster_name)
    then false
    else true

-- `round_node_gethashcode`
unfoldable pub gethashcode : RoundNode → CString
gethashcode node = node.digest

-- The decimal digits of a number in front of a text, with fuel for each digit.
unfoldable pub digits_from : ℕ → ℕ → List ℕ → List ℕ
digits_from zero n text = text
digits_from (suc fuel) n text =
    let rest = digits_from fuel (n / 10) ((48 + n % 10) ∷ text) in
    if ltb n 10 then (48 + n) ∷ text else rest

-- `%d` of printf for an int, which has 10 digits at most.
unfoldable pub print_int : ℤ → List ℕ
unfolding digits_from
print_int (pos n) = digits_from 10 n []
print_int (negsuc n) = b'-' ∷ digits_from 10 (suc n) []

module _ (null_text : List ℕ) where
  -- `%s` of printf
  abbrev pub printed : CString → List ℕ
  printed none = null_text
  printed (some text) = text

  -- The text `addr:port`, before it is cut.
  unfoldable pub full_seed : CString → ℤ → List ℕ
  unfolding print_int
  full_seed addr port = printed addr ++ b':' ∷ print_int port

  -- What `snprintf` leaves in the 32 bytes of `round_node_updateid`, before the 0.
  unfoldable pub seed : CString → ℤ → List ℕ
  unfolding full_seed
  seed addr port = take 31 (full_seed addr port)

module _ (digest_func : List ℕ → List ℕ) (null_text : List ℕ) where
  -- `round_node_updateid`
  unfoldable pub updateid : RoundNode → RoundNode × Bool
  unfolding seed
  updateid node =
      (record node { digest = some (digest_func (seed null_text node.addr node.port)) }, true)

  -- `round_node_setaddress`, which refuses NULL.
  unfoldable pub setaddress : RoundNode → CString → RoundNode × Bool
  unfolding updateid
  setaddress node none = (node, false)
  setaddress node (some addr) = updateid (record node { addr = some addr })

  -- `round_node_setport`
  unfoldable pub setport : RoundNode → ℤ → RoundNode × Bool
  unfolding updateid
  setport node port = updateid (record node { port = port })

-- A call that changes a node.
pub data NodeCall : Type 0 where
  address : CString → NodeCall
  port : ℤ → NodeCall
  clustername : CString → NodeCall
  requesttimeout : ℤ → NodeCall

module _ (digest_func : List ℕ → List ℕ) (null_text : List ℕ) where
  unfoldable pub node_call : RoundNode → NodeCall → RoundNode
  unfolding setaddress setport setclustername setrequesttimeout
  node_call node (address addr) = (setaddress digest_func null_text node addr).0
  node_call node (port value) = (setport digest_func null_text node value).0
  node_call node (clustername name) = (setclustername node name).0
  node_call node (requesttimeout value) = setrequesttimeout node value

  unfoldable pub node_calls : RoundNode → List NodeCall → RoundNode
  unfolding node_call
  node_calls node [] = node
  node_calls node (c ∷ calls) = node_calls (node_call node c) calls
