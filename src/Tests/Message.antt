-- ===== src/Tests/Message.antt =====
-- Tests of the messages (message.c), of the requests over HTTP (rpc_server.c), and of the threads
-- that answer them (local_node_thread.c).
use round.Common.{ℕ, ◌≡◌, refl, true, false, none, some, List, [], ◌∷◌, ◌++◌, arith, update}
use round.Common.Int.{pos}
use round.Text.{CString, strlen}
use round.RpcError.{RoundError, new_error, setjsonrpcerrorcode, invalid_request}
use round.Map.{new_map}
use round.Method.{MethodManager, ExecNode}
use round.JsonRpc.{absent, JsonLibrary}
use round.Message.{message_new, getstring, setstring, setdata, up_to, memccpy}
use round.Message.Contents.{getstring-setstring}
use round.LocalNode.Request.{Response}
use round.RpcServer.{request_received}
use round.RpcServer.Received.{answer_to, request_received-answer_to}
use round.LocalNode.Message.{
  Parsed, parsed, execmessage, execjsonrequest, Posts, at_rest, push, take, exec, notice, wake,
  waiting, returned, has, executed, notified, Reachable, init, step,
}
use round.LocalNode.Message.Served.{Reachable-taken}
use round.LocalNode.Message.Hazard.{deleted-waiting}

-- New memory holds fours.
abbrev fours : ℕ → List ℕ
fours size = 4 ∷ 4 ∷ 4 ∷ 4 ∷ []

getstring-setstring_test :
    getstring (setstring fours message_new (some (b'h' ∷ b'i' ∷ []))).0 ≡ some (b'h' ∷ b'i' ∷ [])
getstring-setstring_test =
    getstring-setstring fours message_new (b'h' ∷ b'i' ∷ []) (omega arith, (omega arith, tt))
      (omega arith, (omega arith, tt))

-- A text with the byte 1 is cut behind it, and new memory shows behind that.
cut_text :
    (setstring fours message_new (some (b'h' ∷ 1 ∷ b'i' ∷ []))).0.contents
    ≡ some (b'h' ∷ 1 ∷ 4 ∷ 4 ∷ [])
unfolding setstring setdata memccpy up_to
cut_text = refl

-- A library with one object, the number 0, that is no map.
abbrev json : JsonLibrary ℕ
json = record {
  is_object = λ n. false;
  is_array = λ n. false;
  library_array_size = λ n. 0;
  library_array_get = λ n i. none;
  array_write = λ n i child. n;
  member_value = λ n key. absent;
  member_integer = λ n key. none;
  object_set_integer = λ n key value. n;
}

abbrev parse : List ℕ → Parsed ℕ
parse text = parsed 0

abbrev methods : MethodManager
methods = record { method_map = new_map 4; engine_map = new_map 4 }

abbrev start : ExecNode
start = record { mgr = methods; clock = pos 0; others = [] }

-- No message has contents.
abbrev blank : ℕ → CString
blank m = none

blank_ends :
    execmessage json strlen parse start (blank 3) new_error
    ≡ some (start, true, [], setjsonrpcerrorcode new_error invalid_request)
unfolding execmessage
blank_ends = refl

deleted-waiting_example :
    (t : Posts) × Reachable json strlen parse start blank t
    × (t.caller 3 ≡ waiting)
    × (t.deleted 3 ≡ true)
deleted-waiting_example =
    deleted-waiting json strlen parse start blank 3 start true []
      (setjsonrpcerrorcode new_error invalid_request) blank_ends

-- A message is pushed, taken, executed and notified, and its caller wakes.
abbrev answered : Posts
answered = record {
  node = start;
  queue = [];
  worker = update (update (update (at_rest start).worker 0 (has 3)) 0 (executed 3)) 0 (notified 3);
  caller = update (update (at_rest start).caller 3 waiting) 3 (returned true);
  enabled = update (at_rest start).enabled 3 true;
  notices = update (update (at_rest start).notices 3 1) 3 0;
  response =
      update (at_rest start).response 3
        (some (true, [], setjsonrpcerrorcode new_error invalid_request));
  deleted = (at_rest start).deleted;
  pushed = 3 ∷ [];
  taken = 3 ∷ [];
  discarded = (at_rest start).discarded;
}

answered-Reachable : Reachable json strlen parse start blank answered
unfolding update
answered-Reachable =
    let r = step init (push (at_rest start) 3 refl) in
    let r = step r (take _ 0 3 [] refl refl) in
    let r =
      step r (
        exec _ 0 3 start true [] (setjsonrpcerrorcode new_error invalid_request) refl blank_ends) in
    let r = step r (notice _ 0 3 refl refl) in step r (wake _ 3 0 refl refl)

Reachable-taken_test : answered.taken ++ answered.queue ≡ answered.pushed
Reachable-taken_test = Reachable-taken json strlen parse start blank answered answered-Reachable

request_received-answer_to_example :
    request_received json strlen parse fours start (some (b'h' ∷ b'i' ∷ []))
    ≡ answer_to json strlen parse fours start (parse (b'h' ∷ b'i' ∷ []))
request_received-answer_to_example =
    request_received-answer_to json strlen parse fours start (b'h' ∷ b'i' ∷ [])
      (omega arith, (omega arith, tt)) (omega arith, (omega arith, tt))

-- Where a message succeeds, the execution of the same text returns false and prints nothing.
succeeded_false :
    (text : List ℕ) (after : ExecNode) (responses : List Response) (err : RoundError)
    → execmessage json strlen parse start (some text) new_error ≡ some (after, true, responses, err)
    → execjsonrequest json strlen parse start (some text) new_error ≡ some (after, false, [], err)
unfolding execmessage execjsonrequest
succeeded_false text after responses err h = rw (h, execjsonrequest) refl
