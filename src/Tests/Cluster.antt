-- ===== src/Tests/Cluster.antt =====
-- Tests of the clusters (cluster_manager.c) and of the destinations (node.c), with the identity in
-- place of the digest.
use round.Common.{
  ℕ, ◌<◌, ◌≡◌, ◌≢◌, ◌⊎◌, refl, inl, Bool, true, false, not, ◌&&◌, ◌||◌, none, some, List, [], ◌∷◌,
  arith, length, get_or, update,
}
use round.Text.{streq, strcmp, strcmp_bytes, strlen}
use round.RpcError.{new_error}
use round.Node.{seed, full_seed, print_int, digits_from, getclustername, node_init}
use round.Node.Remote.{remote_copy}
use round.OrderedList.{is_greater}
use round.OrderedList.Add.{place}
use round.Ring.{compfunc, gethash, has_hash, getequalnode}
use round.Ring
use round.Cluster.{
  Cluster, Nodes, hash_of, addnode, removenode, hasnode, getclusterbyname, manager_clear,
}
use round.Cluster.Members.{has, IsManager, IsKnown}
use round.Cluster.Add.{addnode-hasnode}
use round.Cluster.Remove.{removenode-hasnode}
use round.Destination.{getcluster, getdestinationnode, execmethod, posted, dest_any_node}
use round.Destination.Lost.{execmethod-any_lost, getdestinationnode-clear}
use round.Destination.Reach.{IsHome, getdestinationnode-id, getdestinationnode-any}
use round.Tests.Node.{same, null_text, at_port, at_port-IsAddressed}

abbrev club : List ℕ
club = b'c' ∷ []

-- Each node has its address as its port.
abbrev by_port : Nodes
by_port n = at_port n club

-- "h:3" and "h:5"
abbrev three : List ℕ
three = b'h' ∷ b':' ∷ b'3' ∷ []

abbrev five : List ℕ
five = b'h' ∷ b':' ∷ b'5' ∷ []

three-IsKnown : IsKnown by_port 3 club three
unfolding getclustername strlen seed full_seed print_int digits_from
three-IsKnown = record { nonnull = omega arith; in_cluster = refl; has_id = refl }

five-IsKnown : IsKnown by_port 5 club five
unfolding getclustername strlen seed full_seed print_int digits_from
five-IsKnown = record { nonnull = omega arith; in_cluster = refl; has_id = refl }

abbrev added : List Cluster × Nodes × Bool
added = addnode same null_text by_port [] 3 100 9

addnode-hasnode_example :
    (added.2 ≡ true)
    × IsManager added.1 added.0
    × (hasnode added.1 added.0 5 ≡ (
        hasnode by_port [] 5 || (streq (some club) (some club) && streq (some five) (some three))))
addnode-hasnode_example =
    addnode-hasnode same null_text by_port 3 9 (at_port-IsAddressed 3 b'c' [] (omega arith)) club
      three three-IsKnown (omega arith) [] 100 5 club five tt tt tt (omega arith) five-IsKnown

-- A cluster with one node
abbrev one : Cluster
one = record { at = 100; name = some club; ring = 3 ∷ [] }

one-IsManager : IsManager by_port (one ∷ [])
unfolding gethash hash_of seed full_seed print_int digits_from
one-IsManager = (
  record {
    named = (club, refl);
    ordered = record { hashed = ((omega arith, three, refl), tt); ascending = (tt, tt) };
    members = (refl, tt);
  },
  tt,
  tt,
)

removenode-hasnode_example :
    IsManager by_port (removenode by_port (one ∷ []) 3).0
    × ((removenode by_port (one ∷ []) 3).1 ≡ hasnode by_port (one ∷ []) 3)
    × (hasnode by_port (removenode by_port (one ∷ []) 3).0 5 ≡ (
        hasnode by_port (one ∷ []) 5
        && not (streq (some club) (some club) && streq (some five) (some three))))
removenode-hasnode_example =
    removenode-hasnode by_port 3 club three three-IsKnown (one ∷ []) one-IsManager 5 club five
      five-IsKnown

-- The copy stands in the ring of a new cluster, and the node is then found.
found : (hasnode added.1 added.0 3 ≡ true) × (hasnode added.1 added.0 5 ≡ false)
unfolding addnode hasnode remote_copy getclustername strlen seed full_seed print_int digits_from
    node_init update gethash hash_of Ring.addnode place is_greater streq strcmp strcmp_bytes
    has_hash getequalnode Ring.hasnode
found = (refl, refl)

home : IsHome by_port (one ∷ []) 4 club one
unfolding getclusterbyname streq strcmp_bytes
home = record {
  manager = one-IsManager;
  named = refl;
  found = refl;
  nonnull = omega arith;
  kept_pointer = inl refl;
}

getdestinationnode-id_example :
    (d : ℕ) × (getdestinationnode by_port (one ∷ []) 4 (some three) 7 new_error
      ≡ some (
        (
          (getcluster by_port (one ∷ []) 4).0,
          has by_port (one ∷ []) (some club) (some three),
          some d,
        ),
        new_error,
      ))
    × (((d ≡ 0) × (has by_port (one ∷ []) (some club) (some three) ≡ false))
        ⊎ ((d ≢ 0)
            × (has by_port (one ∷ []) (some club) (some three) ≡ true)
            × (hash_of by_port d ≡ some three)))
unfolding streq strcmp_bytes
getdestinationnode-id_example =
    getdestinationnode-id by_port (one ∷ []) 4 club one home three 7 new_error (refl, refl, refl)

any_destination :
    (k : ℕ) × (k < length one.ring)
    × (getdestinationnode by_port (one ∷ []) 4 (some dest_any_node) 7 new_error
        ≡ some (((getcluster by_port (one ∷ []) 4).0, true, some (get_or one.ring k 0)), new_error))
    × (get_or one.ring k 0 ≢ 0)
any_destination = getdestinationnode-any by_port (one ∷ []) 4 club one home 7 new_error (λ e. cc)

lost_destination :
    execmethod by_port [] 4 (some dest_any_node) (some (b'm' ∷ [])) (some []) 7 new_error
    ≡ some ((getcluster by_port [] 4).0, posted 0 (b'm' ∷ []) [] new_error)
unfolding getclusterbyname
lost_destination = execmethod-any_lost by_port [] 4 (b'm' ∷ []) [] 7 new_error refl refl

cleared_destination :
    getdestinationnode
      (getcluster by_port (one ∷ []) 4).0
      (manager_clear (one ∷ [])).0
      4
      (some three)
      7
      new_error
    ≡ none
unfolding streq strcmp_bytes
cleared_destination =
    getdestinationnode-clear by_port (one ∷ []) 4 club one three 7 new_error home (refl, refl, refl)
