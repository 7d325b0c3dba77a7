-- ===== src/Tests/Server.antt =====
-- Tests of the server (server.c), with the identity in place of the digest.
use round.Common.{All, ℕ, ◌≡◌, refl, true, false, some, List, [], ◌∷◌, arith}
use round.Common.Int.{pos}
use round.Node.{RoundNode, seed}
use round.Cluster.{Nodes, hasnode, cluster_hasnode}
use round.NodeThreads.{NodeRun}
use round.Server.{Libraries, RoundServer, server_start}
use round.Server.Joined.{server_start-hasnode}
use round.Tests.Node.{same, null_text}

abbrev club : List ℕ
club = b'c' ∷ []

abbrev host : List ℕ
host = b'h' ∷ []

-- A node as `round_server_init` leaves it
abbrev unplaced : RoundNode
unplaced = record {
  addr = some [];
  port = pos 0;
  digest = some (seed null_text (some []) (pos 0));
  cluster_name = some club;
  clock = pos 0;
  request_timeout = pos 60;
  cluster = 0;
}

abbrev nodes : Nodes
nodes n = unplaced

abbrev halted : NodeRun
halted = record { threads = []; triggers = []; clusters = []; nodes = nodes }

abbrev server : RoundServer
server = record { self = 3; run = halted; finder_enabled = true }

abbrev libs : Libraries
libs = record {
  rpc_starts = true;
  rpc_stops = true;
  finder_starts = true;
  finder_stops = true;
  finder_searches = true;
  bind_address = some host;
  bind_port = pos 80;
}

server_start-hasnode_example :
    ((server_start same null_text libs true server 100 9).1 ≡ true)
    × ((server_start same null_text libs true server 100 9).0.run.nodes 3 ≡ record unplaced {
      addr = some host;
      port = pos 80;
      digest = some (seed null_text (some host) (pos 80));
    })
    × (hasnode
          (server_start same null_text libs true server 100 9).0.run.nodes
          (server_start same null_text libs true server 100 9).0.run.clusters
          3
        ≡ false)
    × All
        (λ c.
          cluster_hasnode (server_start same null_text libs true server 100 9).0.run.nodes c 3
          ≡ false)
        (server_start same null_text libs true server 100 9).0.run.clusters
server_start-hasnode_example =
    server_start-hasnode same null_text libs server 100 9 club host (λ e. cc) (omega arith)
      (omega arith) (omega arith) (record { no_address = refl; no_port = refl; in_cluster = refl })
      refl refl refl
