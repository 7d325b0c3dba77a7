-- ===== src/RpcServer/Received.antt =====
-- What a request over HTTP gets from a local node (src/round/rpc_server.c).
use round.Common.{ℕ, ◌≡◌, ◌≢◌, refl, ap, ◌∙◌, true, false, Option, none, some, List, [], All}
use round.Text.{CString}
use round.RpcError.{new_error, setjsonrpcerrorcode, invalid_request, errorcode2httpstatuscode}
use round.Method.{ExecNode}
use round.JsonRpc.{JsonLibrary}
use round.Message.{message_new}
use round.Message.Contents.{getstring-setstring}
use round.LocalNode.Request.{Posted, postmessage}
use round.LocalNode.Message.{Parsed, parsed, refused, execmessage}
use round.RpcServer.{HttpResponse, postresponse, posterrorresponse, post_result, request_received}

module _ {J : Type 0} (json : JsonLibrary J) (hash : CString → ℕ) (parse : List ℕ → Parsed J)
    (garbage : ℕ → List ℕ) (node : ExecNode) where
  -- What is to be answered to a text that is parsed so: to one that is no JSON, a success that says
  -- nothing.
  pub answer_to : Parsed J → Option (ExecNode × HttpResponse)
  answer_to (refused msg) = some (node, record { status = 200; content = [] })
  answer_to (parsed req) = elim (postmessage json hash node req new_error) [
    | none ↦ none
    | some (after, true, responses, err) ↦
        some (after, record { status = 200; content = responses })
    | some (after, false, responses, err) ↦
        some (after, record { status = errorcode2httpstatuscode err.detail_code; content = [] })
  ]

  -- A request over HTTP whose text holds no bytes 0 and 1 is answered, where it is no JSON, with
  -- the status 200 and no responses, and else with what postmessage of the parsed request gives
  -- from a new error: its responses and the status 200 where it succeeds, and the status of the
  -- code of its error where it fails; the node is the one that postmessage leaves.
  pub request_received-answer_to :
      (text : List ℕ)
      → All (λ x. x ≢ 0) text
      → All (λ x. x ≢ 1) text
      → request_received json hash parse garbage node (some text) ≡ answer_to (parse text)
  unfolding request_received execmessage answer_to post_result postresponse posterrorresponse
  request_received-answer_to text h k =
      ap (λ c. post_result json hash parse garbage (execmessage json hash parse node c new_error))
        (getstring-setstring garbage message_new text h k)
      ∙ shown (parse text)
    where
      ended :
          (o : Option (Posted json hash))
          → post_result json hash parse garbage o ≡ elim o [
            | none ↦ none
            | some (after, true, responses, err) ↦
                some (after, record { status = 200; content = responses })
            | some (after, false, responses, err) ↦
                some (
                  after,
                  record { status = errorcode2httpstatuscode err.detail_code; content = [] },
                )
          ]
      ended none = refl
      ended (some (after, true, responses, err)) = refl
      ended (some (after, false, responses, err)) = refl

      shown :
          (p : Parsed J)
          → post_result json hash parse garbage (elim p [
            | refused msg ↦ some (
              node,
              true,
              [],
              setjsonrpcerrorcode (record new_error { msg = some msg }) invalid_request,
            )
            | parsed req ↦ postmessage json hash node req new_error
          ])
            ≡ answer_to p
      shown (refused msg) = refl
      shown (parsed req) = ended (postmessage json hash node req new_error)
