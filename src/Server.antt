-- ===== src/Server.antt =====
-- The server of src/round/server.c with the listeners of server_finder.c, and the client of
-- src/round/client.c with those of client_finder.c. The server of HTTP, with the address and the
-- port that it binds, and the finder are libraries: what their calls return is a parameter.
-- Nothing is NULL but an address.
pub mod Joined
use round.Common.{
  ℕ, Bool, true, false, not, ◌&&◌, Option, none, some, List, [], ◌∷◌, if◌then◌else◌, update,
}
use round.Common.Int.{ℤ, pos}
use round.Text.{CString}
use round.Node.{RoundNode, setaddress, setport}
use round.Cluster.{Cluster, Nodes, addnode, removenode, manager_clear}
use round.NodeThreads.{NodeRun, local_stop, local_clear, local_isrunning, local_start}

-- What the calls of the libraries return: the start and the stop of the server of HTTP and of the
-- finder, the search, and the address and the port that are bound.
pub record Libraries : Type 0 where
  pub rpc_starts : Bool
  pub rpc_stops : Bool
  pub finder_starts : Bool
  pub finder_stops : Bool
  pub finder_searches : Bool
  pub bind_address : CString
  pub bind_port : ℤ

-- `RoundServer`: its local node, by its address, with the parts that a start writes to, and the
-- flag of the finder.
pub record RoundServer : Type 0 where
  pub self : ℕ
  pub run : NodeRun
  pub finder_enabled : Bool

module _ (digest_func : List ℕ → List ℕ) (null_text : List ℕ) (libs : Libraries) where
  -- `round_local_node_setaddress` and `round_local_node_setport` of the local node
  unfoldable pub set_place : RoundServer → CString → ℤ → RoundServer
  set_place server addr port =
      let node : RoundNode = server.run.nodes server.self in
      let placed : RoundNode =
        (setport digest_func null_text (setaddress digest_func null_text node addr).0 port).0 in
      record server {
        run = record server.run { nodes = update server.run.nodes server.self placed };
      }

  -- `round_server_stop`
  unfoldable pub server_stop : Bool → RoundServer → RoundServer × Bool
  unfolding set_place
  server_stop creates server =
      let stopped : NodeRun × Bool = local_stop creates server.run in
      (
        set_place (record server { run = stopped.0 }) (some []) (pos 0),
        stopped.1 && libs.rpc_stops && libs.finder_stops,
      )

  -- `round_server_clear`
  unfoldable pub server_clear : RoundServer → RoundServer × Bool
  server_clear server =
      let cleared : NodeRun × Bool = local_clear server.run in
      (record server { run = cleared.0 }, cleared.1)

  -- `round_server_start`: the local node is started, and joins its cluster, before it gets the
  -- address and the port that the server of HTTP has bound.
  unfoldable pub server_start : Bool → RoundServer → ℕ → ℕ → RoundServer × Bool
  unfolding server_clear server_stop set_place
  server_start creates server new_cluster new_node =
      let cleared : RoundServer × Bool = server_clear server in
      let started : NodeRun × Bool =
        local_start digest_func null_text creates cleared.0.run server.self new_cluster new_node in
      let running : RoundServer = record server { run = started.0 } in
      let finder : Bool = if server.finder_enabled then libs.finder_starts else true in
      if not (cleared.1 && started.1 && libs.rpc_starts && finder)
      then ((server_stop creates running).0, false)
      else (set_place running libs.bind_address libs.bind_port, true)

  -- `round_server_restart`
  unfoldable pub server_restart : Bool → RoundServer → ℕ → ℕ → RoundServer × Bool
  unfolding server_stop server_start
  server_restart creates server new_cluster new_node =
      let stopped : RoundServer × Bool = server_stop creates server in
      let started : RoundServer × Bool = server_start creates stopped.0 new_cluster new_node in
      if not stopped.1 then (stopped.0, false) else (started.0, started.1)

  -- `round_server_isrunning`
  unfoldable pub server_isrunning : Bool → RoundServer → RoundServer × Bool
  server_isrunning creates server =
      let tested : NodeRun × Bool = local_isrunning creates server.run in
      (record server { run = tested.0 }, tested.1)

  -- `round_server_nodeaddedlistener` and `round_server_noderemovedlistener`
  unfoldable pub server_nodeadded : RoundServer → ℕ → ℕ → ℕ → RoundServer
  server_nodeadded server node new_cluster new_node =
      let added : List Cluster × Nodes × Bool =
        addnode digest_func null_text server.run.nodes server.run.clusters node new_cluster
          new_node in
      record server { run = record server.run { clusters = added.0; nodes = added.1 } }

  unfoldable pub server_noderemoved : RoundServer → ℕ → RoundServer
  server_noderemoved server node =
      let removed : List Cluster × Bool = removenode server.run.nodes server.run.clusters node in
      record server { run = record server.run { clusters = removed.0 } }

-- `RoundClient`: its clusters
pub record RoundClient : Type 0 where
  pub client_clusters : List Cluster

-- `round_client_clear`
unfoldable pub client_clear : RoundClient → RoundClient × Bool
client_clear client = (record { client_clusters = (manager_clear client.client_clusters).0 }, true)

module _ (libs : Libraries) where
  -- `round_client_stop`
  unfoldable pub client_stop : RoundClient → RoundClient × Bool
  client_stop client = (client, libs.finder_stops)

  -- `round_client_search`
  unfoldable pub client_search : RoundClient → Bool
  client_search client = libs.finder_searches

  -- `round_client_start`
  unfoldable pub client_start : RoundClient → RoundClient × Bool
  unfolding client_clear client_stop client_search
  client_start client =
      let cleared : RoundClient × Bool = client_clear client in
      if not (client_stop client).1
      then (client, false)
      else if not (cleared.1 && libs.finder_starts && client_search cleared.0)
      then ((client_stop cleared.0).0, false)
      else (cleared.0, true)

module _ (digest_func : List ℕ → List ℕ) (null_text : List ℕ) where
  -- `round_client_nodeaddedlistener`, with the nodes that it leaves
  unfoldable pub client_nodeadded : Nodes → RoundClient → ℕ → ℕ → ℕ → RoundClient × Nodes
  client_nodeadded nodes client node new_cluster new_node =
      let added : List Cluster × Nodes × Bool =
        addnode digest_func null_text nodes client.client_clusters node new_cluster new_node in
      (record { client_clusters = added.0 }, added.1)

-- `round_client_noderemovedlistener`
unfoldable pub client_noderemoved : Nodes → RoundClient → ℕ → RoundClient
client_noderemoved nodes client node = record {
  client_clusters = (removenode nodes client.client_clusters node).0;
}
