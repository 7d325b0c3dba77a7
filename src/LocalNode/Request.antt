-- ===== src/LocalNode/Request.antt =====
-- The requests of a local node: `round_local_node_execrequest` and `round_local_node_postmessage`
-- of src/round/local_node.c. The arguments are not NULL.
pub mod Answers
pub mod Batch
use round.Common.{
  ℕ, zero, suc, ◌+◌, Bool, true, false, not, ◌&&◌, Option, none, some, List, [], ◌∷◌, if◌then◌else◌,
  ltb,
}
use round.Text.{CString, strlen}
use round.Clock.{updateclock}
use round.RpcError.{RoundError, ErrorObject, setjsonrpcerrorcode, error2object, invalid_request}
use round.Method.{ExecNode, Outcome, execmethod}
use round.JsonRpc.{
  JsonLibrary, array_size, array_get, map_text, is_cached, map_getinteger, ts_key, id_key,
  method_key, params_key,
}

-- The response of one request; its timestamp is never written.
pub record Response : Type 0 where
  pub response_id : CString
  pub result : Option (List ℕ)
  pub error : Option ErrorObject

-- What `execrequest` returns: the flag, the response and the error.
abbrev pub Reply : Type 0
Reply = Bool × Response × RoundError

abbrev pub fail : CString → RoundError → Reply
fail id err =
    (false, record { response_id = id; result = none; error = some (error2object err) }, err)

-- The response to the outcome of a method
abbrev pub respond : CString → Outcome → Reply
respond id (executed, result, err) =
    if executed
    then (true, record { response_id = id; result = result; error = none }, err)
    else fail id err

-- `!round_json_rpc_getmethod(…) && (0 < round_strlen(method))`, for a name that is NULL where there
-- is none.
unfoldable pub is_missing : CString → Bool
is_missing method = (elim method [ none ↦ true | some _ ↦ false ]) && ltb 0 (strlen method)

module _ {J : Type 0} (json : JsonLibrary J) where
  -- `round_json_rpc_setrequestid` into a new response
  unfoldable pub request_id : J → CString
  unfolding map_text
  request_id req = if not (json.is_object req) then none else map_text json req id_key

module _ {J : Type 0} (json : JsonLibrary J) (hash : CString → ℕ) where
  -- `round_local_node_execrequest`; `none` is the read through NULL in `execmethod`, and the read
  -- of a cached name of the method that the read of the parameters has freed.
  unfoldable pub execrequest : ExecNode → J → RoundError → Option (ExecNode × Reply)
  unfolding request_id execmethod map_text is_missing
  execrequest node req err =
      let method : CString = map_text json req method_key in
      if not (json.is_object req)
      then some (node, fail (request_id json req) (setjsonrpcerrorcode err invalid_request))
      else if is_missing method
      then some (node, fail (request_id json req) (setjsonrpcerrorcode err invalid_request))
      else if is_cached json req method_key
      then none
      else elim (execmethod hash node method (map_text json req params_key) err) [
        | none ↦ none
        | some (after, outcome) ↦ some (after, respond (request_id json req) outcome)
      ]

  -- The loop of `round_local_node_postmessage` over a batch, with the rounds left and the index.
  -- The node and one error are handed from request to request. An index without an object
  -- is an invalid request that gives no response.
  unfoldable pub batch_from :
      ℕ → ℕ → ExecNode → J → RoundError → Option (ExecNode × List Response × RoundError)
  unfolding execrequest
  batch_from zero n node reqs err = some (node, [], err)
  batch_from (suc count) n node reqs err = elim (array_get json reqs n) [
    | none ↦ batch_from count (n + 1) node reqs (setjsonrpcerrorcode err invalid_request)
    | some req ↦ elim (execrequest node req err) [
      | none ↦ none
      | some (after, (ok, response, err')) ↦ elim (batch_from count (n + 1) after reqs err') [
        | none ↦ none
        | some (last, responses, err'') ↦ some (last, response ∷ responses, err'')
      ]
    ]
  ]

  -- What `postmessage` leaves: the node, the flag, the responses and the error.
  abbrev pub Posted : Type 0
  Posted = ExecNode × Bool × List Response × RoundError

  -- The part of `round_local_node_postmessage` behind the update of the clock
  unfoldable pub dispatch : ExecNode → J → RoundError → Option Posted
  unfolding execrequest batch_from array_size
  dispatch node req err =
      if not (json.is_object req) && not (json.is_array req)
      then some (node, false, [], setjsonrpcerrorcode err invalid_request)
      else if json.is_object req
      then (elim (execrequest node req err) [
        | none ↦ none
        | some (after, (ok, response, err')) ↦ some (after, ok, response ∷ [], err')
      ])
      else elim (batch_from (array_size json req) 0 node req err) [
        | none ↦ none
        | some (after, responses, err') ↦ some (after, true, responses, err')
      ]

  -- `round_local_node_postmessage`; `none` also where the clock overflows.
  unfoldable pub postmessage : ExecNode → J → RoundError → Option Posted
  unfolding dispatch updateclock map_getinteger
  postmessage node req err = elim (updateclock node.clock (map_getinteger json req ts_key)) [
    | none ↦ none
    | some new_clock ↦ dispatch (record node { clock = new_clock }) req err
  ]
