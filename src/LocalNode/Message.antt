-- ===== src/LocalNode/Message.antt =====
-- The threads of a local node that answer messages (src/round/local_node_thread.c), the execution
-- of a message, and the callers that wait for it (`round_local_node_execmessage` and
-- `round_local_node_postrequest` of src/round/local_node.c). The parser of JSON is a parameter.
pub mod Served
pub mod Hazard
use round.Common.{
  ℕ, zero, suc, ◌+◌, ◌≡◌, ◌≢◌, Bool, true, false, Option, none, some, List, [], ◌∷◌, ◌++◌, update,
}
use round.Text.{CString}
use round.RpcError.{
  RoundError, ErrorMessage, new_error, setjsonrpcerrorcode, invalid_request, internal_error,
}
use round.Method.{ExecNode}
use round.JsonRpc.{JsonLibrary}
use round.LocalNode.Request.{Response, Posted, postmessage}

-- `round_json_parse`: the root object, or the message that it leaves in the error.
pub data Parsed (J : Type 0) : Type 0 where
  parsed : J → Parsed J
  refused : ErrorMessage → Parsed J

module _ {J : Type 0} (json : JsonLibrary J) (hash : CString → ℕ) (parse : List ℕ → Parsed J) where
  -- `round_local_node_execmessage`, by the contents of the message. Where the contents are missing
  -- or no JSON it returns what `round_node_rpcerrorcode2error` returns, which is true.
  unfoldable pub execmessage : ExecNode → CString → RoundError → Option (Posted json hash)
  execmessage node none err = some (node, true, [], setjsonrpcerrorcode err invalid_request)
  execmessage node (some content) err = elim (parse content) [
    | refused msg ↦
        some (node, true, [], setjsonrpcerrorcode (record err { msg = some msg }) invalid_request)
    | parsed req ↦ postmessage json hash node req err
  ]

  -- `round_local_node_execjsonrequest`, with the responses that it prints: none where it fails and
  -- where the message gives none. It returns false where the message succeeds.
  unfoldable pub execjsonrequest : ExecNode → CString → RoundError → Option (Posted json hash)
  execjsonrequest node none err = some (node, true, [], setjsonrpcerrorcode err internal_error)
  execjsonrequest node (some text) err = elim (parse text) [
    | refused msg ↦
        some (node, true, [], setjsonrpcerrorcode (record err { msg = some msg }) invalid_request)
    | parsed req ↦ elim (postmessage json hash node req err) [
      | none ↦ none
      | some (after, true, responses, err') ↦ some (after, false, [], err')
      | some (after, false, responses, err') ↦ some (after, true, responses, err')
    ]
  ]

-- Where a caller of `round_local_node_postrequest` is: before the push of its message, in the wait
-- for the notification, or back with true or with false.
pub data Caller : Type 0 where
  outside : Caller
  waiting : Caller
  returned : Bool → Caller

-- Where a thread of the node is in the loop of `round_local_node_message_thread`, with the message
-- it has.
pub data Worker : Type 0 where
  idle : Worker
  has : ℕ → Worker
  executed : ℕ → Worker
  notified : ℕ → Worker

-- The node with its threads and its callers, each of which posts one message, the one of its
-- number, which is no NULL and is pushed once: the node as the execution of messages sees it, the
-- queue of the messages, whether a message has a semaphore and how many notifications it counts,
-- what the threads have written to the callers' variables, the messages whose response or which
-- themselves are deleted, and the logs of the messages that were pushed and of those that the
-- threads took. The node has any number of threads, since each test whether it runs starts them
-- once more (`round.NodeThreads`). A caller that waits for a message that is deleted may still be
-- let through: what the freed semaphore does is not determined.
pub record Posts : Type 0 where
  pub node : ExecNode
  pub queue : List ℕ
  pub worker : ℕ → Worker
  pub caller : ℕ → Caller
  pub enabled : ℕ → Bool
  pub notices : ℕ → ℕ
  pub response : ℕ → Option (Bool × List Response × RoundError)
  pub deleted : ℕ → Bool
  pub pushed : List ℕ
  pub taken : List ℕ
  pub discarded : ℕ → Bool

abbrev pub at_rest : ExecNode → Posts
at_rest node = record {
  node = node;
  queue = [];
  worker = λ w. idle;
  caller = λ m. outside;
  enabled = λ m. false;
  notices = λ m. 0;
  response = λ m. none;
  deleted = λ m. false;
  pushed = [];
  taken = [];
  discarded = λ m. false;
}

-- The node at the start, and the content of each message. The execution of a message is one step;
-- it may change the methods, the clock and the other parts of the node.
module _ {J : Type 0} (json : JsonLibrary J) (hash : CString → ℕ) (parse : List ℕ → Parsed J)
    (start : ExecNode) (content : ℕ → CString) where
  -- One step of a thread or of a caller. The test whether a message has a semaphore and the post
  -- of it are one step.
  pub data Step : Posts → Posts → Type 0 where
    push :
        (t : Posts) (m : ℕ)
        → t.caller m ≡ outside
        → Step t (record t {
          caller = update t.caller m waiting;
          enabled = update t.enabled m true;
          queue = t.queue ++ m ∷ [];
          pushed = t.pushed ++ m ∷ [];
        })
    take :
        (t : Posts) (w m : ℕ) (rest : List ℕ)
        → t.worker w ≡ idle
        → t.queue ≡ m ∷ rest
        → Step t (record t {
          worker = update t.worker w (has m);
          queue = rest;
          taken = t.taken ++ m ∷ [];
        })
    exec :
        (t : Posts) (w m : ℕ) (after : ExecNode) (done : Bool) (responses : List Response)
        (err : RoundError)
        → t.worker w ≡ has m
        → execmessage json hash parse t.node (content m) new_error
          ≡ some (after, done, responses, err)
        → Step t (record t {
          node = after;
          worker = update t.worker w (executed m);
          response = update t.response m (some (done, responses, err));
        })
    notice :
        (t : Posts) (w m : ℕ)
        → t.worker w ≡ executed m
        → t.enabled m ≡ true
        → Step t (record t {
          worker = update t.worker w (notified m);
          notices = update t.notices m (suc (t.notices m));
        })
    discard :
        (t : Posts) (w m : ℕ)
        → t.worker w ≡ executed m
        → t.enabled m ≡ false
        → Step t (record t {
          worker = update t.worker w (notified m);
          discarded = update t.discarded m true;
        })
    delete :
        (t : Posts) (w m : ℕ)
        → t.worker w ≡ notified m
        → Step t (record t { worker = update t.worker w idle; deleted = update t.deleted m true })
    wake :
        (t : Posts) (m n : ℕ)
        → t.caller m ≡ waiting
        → t.notices m ≡ suc n
        → Step t (record t {
          caller = update t.caller m (returned true);
          notices = update t.notices m n;
        })
    timeout :
        (t : Posts) (m : ℕ)
        → t.caller m ≡ waiting
        → t.notices m ≡ 0
        → Step t (record t {
          caller = update t.caller m (returned false);
          enabled = update t.enabled m false;
        })

  pub data Reachable : Posts → Type 0 where
    init : Reachable (at_rest start)
    step : {t u : Posts} → Reachable t → Step t u → Reachable u
