-- ===== src/Tests/Node.antt =====
-- Tests of the nodes (node.c, remote_node.c), with the identity in place of the digest.
use round.Common.{ℕ, ◌<◌, ◌≡◌, refl, inl, true, none, some, List, [], ◌∷◌, arith}
use round.Common.Int.{pos, negsuc}
use round.Node.{
  RoundNode, NodeCall, address, clustername, node_init, node_calls, node_call, setaddress, setport,
  updateid, gethashcode, seed, full_seed, print_int, digits_from, node_equals, setclustername,
}
use round.Node
use round.Text.{strlen}
use round.Node.Identity.{HasId, updateid_inj, updateid_cut, node_calls-HasId}
use round.Node.Remote.{IsAddressed, remote_copy, remote_copy-equals}

abbrev pub same : List ℕ → List ℕ
same text = text

-- "(null)"
abbrev pub null_text : List ℕ
null_text = 40 ∷ 110 ∷ 117 ∷ 108 ∷ 108 ∷ 41 ∷ []

-- A node of the address "h" and a port in a cluster.
abbrev pub at_port : ℕ → List ℕ → RoundNode
at_port p cluster = record {
  addr = some (b'h' ∷ []);
  port = pos p;
  digest = some (seed null_text (some (b'h' ∷ [])) (pos p));
  cluster_name = some cluster;
  clock = pos 0;
  request_timeout = pos 60;
  cluster = 0;
}

abbrev seed_8080 : List ℕ
seed_8080 = b'h' ∷ b':' ∷ b'8' ∷ b'0' ∷ b'8' ∷ b'0' ∷ []

seeded : seed null_text (some (b'h' ∷ [])) (pos 8080) ≡ seed_8080
unfolding seed full_seed print_int digits_from
seeded = refl

below_zero : print_int (negsuc 11) ≡ b'-' ∷ b'1' ∷ b'2' ∷ []
unfolding print_int digits_from
below_zero = refl

abbrev host : List ℕ
host = b'h' ∷ []

updateid_inj_example : (host ≡ host) × (pos 80 ≡ pos 80)
unfolding full_seed print_int digits_from
updateid_inj_example =
    updateid_inj same null_text (at_port 80 []) (at_port 80 (b'c' ∷ [])) (b'h' ∷ []) (b'h' ∷ [])
      refl refl (omega arith) (omega arith) (omega arith) (omega arith) (λ e. e)
      (unfold updateid gethashcode in refl)

-- An address of 32 bytes
abbrev long : ℕ → RoundNode
long p = record {
  addr = some (
      1 ∷ 1 ∷ 1 ∷ 1 ∷ 1 ∷ 1 ∷ 1 ∷ 1 ∷ 1 ∷ 1 ∷ 1 ∷ 1 ∷ 1 ∷ 1 ∷ 1 ∷ 1 ∷ 1 ∷ 1 ∷ 1 ∷ 1 ∷ 1 ∷ 1 ∷ 1 ∷ 1
      ∷ 1 ∷ 1 ∷ 1 ∷ 1 ∷ 1 ∷ 1 ∷ 1 ∷ p ∷ []);
  port = pos p;
  digest = none;
  cluster_name = none;
  clock = pos 0;
  request_timeout = pos 60;
  cluster = 0;
}

cut_seed :
    gethashcode (updateid same null_text (long 2)).0
    ≡ gethashcode (updateid same null_text (long 3)).0
cut_seed =
    updateid_cut same null_text (long 2) (long 3) _ _ refl refl (omega arith) (omega arith) refl

abbrev two_calls : List NodeCall
two_calls = address (some (b'h' ∷ [])) ∷ Node.port (pos 80) ∷ clustername (some (b'c' ∷ [])) ∷ []

node_calls-HasId_test : HasId same null_text (node_calls same null_text node_init two_calls)
unfolding node_init
node_calls-HasId_test = node_calls-HasId same null_text node_init two_calls (inl (refl, refl, refl))

called :
    gethashcode (node_calls same null_text node_init two_calls)
    ≡ some (b'h' ∷ b':' ∷ b'8' ∷ b'0' ∷ [])
unfolding node_calls gethashcode seed full_seed print_int digits_from node_init
called = refl

pub at_port-IsAddressed :
    (p : ℕ) (c : ℕ) (cs : List ℕ) → 0 < p → IsAddressed same null_text (at_port p (c ∷ cs))
unfolding strlen
at_port-IsAddressed p c cs h = record {
  has_address = refl;
  has_port = ground (arith, h);
  has_cluster = ground arith;
  identified = refl;
}

remote_copy-equals_test :
    (node_equals (at_port 80 (b'c' ∷ [])) (remote_copy same null_text (at_port 80 (b'c' ∷ [])))
      ≡ true)
    × (gethashcode (remote_copy same null_text (at_port 80 (b'c' ∷ [])))
        ≡ gethashcode (at_port 80 (b'c' ∷ [])))
    × IsAddressed same null_text (remote_copy same null_text (at_port 80 (b'c' ∷ [])))
remote_copy-equals_test =
    remote_copy-equals same null_text (at_port 80 (b'c' ∷ []))
      (at_port-IsAddressed 80 b'c' [] (omega arith))
