-- ===== src/RpcServer.antt =====
-- The reading of a request in src/round/rpc_server.c: a message is made of its content and
-- executed on the local node. The server, the device and the node are not NULL, and HTTP and the
-- parser of JSON are parameters.
pub mod Received
use round.Common.{ℕ, Bool, true, false, Option, none, some, List, [], ◌∷◌, if◌then◌else◌}
use round.Common.Int.{ℤ, pos}
use round.Text.{CString}
use round.RpcError.{RoundError, new_error, errorcode2httpstatuscode, invalid_request}
use round.Method.{ExecNode}
use round.JsonRpc.{JsonLibrary}
use round.Message.{RoundMessage, message_new, setstring, getstring}
use round.LocalNode.Request.{Response, Posted}
use round.LocalNode.Message.{Parsed, execmessage}

-- A response over HTTP: its status and the responses that its content prints, which are none as
-- well where there is no content.
pub record HttpResponse : Type 0 where
  pub status : ℕ
  pub content : List Response

-- `round_rpc_server_postresponse`
unfoldable pub postresponse : List Response → HttpResponse
postresponse responses = record { status = 200; content = responses }

-- `round_rpc_server_posterrorresponse`
unfoldable pub posterrorresponse : ℤ → HttpResponse
posterrorresponse code = record { status = errorcode2httpstatuscode code; content = [] }

module _ {J : Type 0} (json : JsonLibrary J) (hash : CString → ℕ) (parse : List ℕ → Parsed J)
    (garbage : ℕ → List ℕ) where
  -- The end of `round_rpc_server_jsonrpcrequestrecieved`, behind the execution of the message;
  -- `none` is one that does not end.
  unfoldable pub post_result : Option (Posted json hash) → Option (ExecNode × HttpResponse)
  unfolding postresponse posterrorresponse
  post_result none = none
  post_result (some (node, done, responses, err)) =
      some (node, if done then postresponse responses else posterrorresponse err.detail_code)

  -- `round_rpc_server_jsonrpcrequestrecieved`, with the node that it leaves
  unfoldable pub request_received : ExecNode → CString → Option (ExecNode × HttpResponse)
  unfolding post_result
  request_received node none = some (node, posterrorresponse invalid_request)
  request_received node (some text) =
      let msg : RoundMessage = (setstring garbage message_new (some text)).0 in
      post_result (execmessage json hash parse node (getstring msg) new_error)
