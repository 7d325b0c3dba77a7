-- ===== src/Lib.antt =====
-- A model of the core of Round for C, the framework whose nodes run scripted methods that are
-- called by JSON-RPC and hold a share of the keys of a consistent hashing ring.
--
-- The parts, and the files that model them (paths from the root of the repository):
--   Text, Text.*            src/round/util/string_func.c; Text.Buffer and Text.Replace,
--                           src/round/util/string.c
--   LinkedList, .*          src/round/util/list.c, the circular list that all other structures use
--   OrderedList, .*         src/round/util/list_ordered.c
--   Ring, .*                src/round/util/consistent_hashing_ring.c, consistent_hashing_node.c
--   Map, .*                 src/round/util/map.c, map_object.c, map_object_list.c
--   Queue, .*               src/round/util/queue.c
--   MessageManager, .*      src/round/message_manager.c, src/round/util/semaphore.c
--   Clock                   src/round/clock.c, and the update of a node's clock in node.c
--   RpcError                src/round/error.c, error_rpc.c, src/round/util/json_rpc.c
--   JsonRpc                 src/round/util/json_rpc.c, json_map.c, json_array.c
--   Registry, .*            src/round/registry.c
--   Message, .*             src/round/message.c, and the timeout of src/round/util/semaphore.c
--   Node, .*                src/round/node.c; Node.Remote, src/round/remote_node.c
--   Cluster, .*             src/round/cluster.c, cluster_manager.c
--   Destination, .*         src/round/node.c, the destination of a method call
--   NodeThreads, .*         src/round/util/thread.c, thread_manager.c, src/round/trigger.c,
--                           trigger_manager.c, and the start and the stop of src/round/local_node.c
--   SystemMethod, .*        src/round/method, and src/round/util/base64.c
--   NodeMethods, .*         src/round/node_methods.c
--   Server, .*              src/round/server.c, client.c, server_finder.c, client_finder.c
--   RpcServer, .*           src/round/rpc_server.c
--   Route, .*               src/round/route.c, route_object.c, route_manager.c
--   Method, .*              src/round/method.c, method_manager.c, script_engine.c
--   LocalNode, .*           src/round/local_node.c; LocalNode.Message, local_node_thread.c
-- A function has the name of the C function without its prefix: `round_list_insert` is
-- `LinkedList.insert`. A loop is a function of its own, with a name that ends in `_from`.
--
-- How the parts interact: an ordered list and a queue are linked lists; the ring keeps its nodes in
-- an ordered list, and Ring.Linked states its operations over the links once more; a bucket of a
-- map is a list of objects; the method manager keeps its methods and its engines in two maps; the
-- local node guards the methods that are final, keeps its registry in a third map, and runs the
-- methods that a request or a batch of requests names; messages go through a queue that a semaphore
-- counts, and the clock of the node takes up the timestamp of each request. The threads of a node
-- take these messages, execute them and notify the callers, through the semaphore of the message. A
-- node looks up its cluster in a manager of clusters, each with a ring of copies of the nodes it
-- knows, and a method call goes to the node of the ring that has the identifier. The start of a
-- local node clears its clusters, joins the one of its own name and starts its threads. The system
-- methods change the methods and the registry of a node by a request, and node_methods.c makes such
-- requests for another node. A server starts its local node and gives it the address that is bound;
-- the finder adds the nodes that it finds to the clusters.
--
-- State. A pointer is a number, and 0 is NULL. The links of all lists stand in one store, so two
-- lists share nodes, and a removal writes to the neighbours, as in C. `Represents s h xs` says
-- that the links of the store `s` from the header `h` are those of the list `xs`. A function that
-- writes returns the new store with its result. Keys, methods and engines are values. A lock makes
-- the functions that take it one step; MessageManager.Threads has a step for each such part, and a
-- thread may be between any two of them; LocalNode.Message has the steps of the threads that
-- answer messages and of their callers. The nodes of the clusters stand in a store by their
-- pointers. A node goes through the requests of a batch and through the messages, since the
-- function that executes a method may change its methods, its clock and its other parts. A text of
-- a JSON map may be one that the next read frees; a function that reads it afterwards has no
-- result.
--
-- Bounds. Sizes, addresses and codes are natural numbers or integers. The distances on the ring
-- convert size_t to off_t, written out with 64 bits; the clock is a signed 64-bit integer, whose
-- overflow has no result; the nodes of a list are counted in an int, whose 32 bits wrap, and the
-- theorems that need the count ask for fewer than 2 ^ 31 nodes; an error code is cut to 32 bits
-- where it is read. A loop along links, and the loop that raises a negative offset, take fuel, one
-- unit for each round, and give `none` where it runs out; the fuel that is enough is the length of
-- the list with one to spare, and two more than the number of nodes for an offset; the replacement
-- in a string takes one more than its length.
--
-- Parameters: the callbacks, which are the hash of a node, the hash of a key, the comparison of an
-- ordered list, the execution function of an engine and the post of a message; the JSON library
-- and its parser; the digest of an identifier and the decoder of base64; what printf prints for
-- NULL; what new memory holds and where it is; the time, `rand`, and whether the system starts a
-- thread and whether its action comes to an end; what the server of HTTP and the finder return.
--
-- Not modelled: the allocation of memory, which succeeds; the creation and deletion of the
-- structures; the default hash of keys, which uses floating point; the parser and the printer of
-- JSON, which call a library; the actions of threads but for the one that answers messages,
-- timers, sockets, HTTP, the finder and the script engines.
mod Common
pub mod Text
pub mod LinkedList
pub mod OrderedList
pub mod Ring
pub mod Map
pub mod Clock
pub mod Node
pub mod Cluster
pub mod Destination
pub mod Queue
pub mod MessageManager
pub mod Message
pub mod RpcError
pub mod Method
pub mod JsonRpc
pub mod Registry
pub mod LocalNode
pub mod SystemMethod
pub mod Route
pub mod NodeMethods
pub mod Server
pub mod RpcServer
pub mod NodeThreads
mod Tests
