-- ===== src/LocalNode/Message/Hazard.antt =====
-- What may go wrong between the callers of `round_local_node_postrequest` (local_node.c) and the
-- thread that deletes their messages (local_node_thread.c).
use round.Common.{ℕ, ◌≡◌, refl, true, false, some, Bool, List, [], ◌∷◌, ==_iff, update}
use round.Text.{CString}
use round.RpcError.{RoundError, new_error}
use round.Method.{ExecNode}
use round.JsonRpc.{JsonLibrary}
use round.LocalNode.Request.{Response}
use round.LocalNode.Message.{
  Parsed, execmessage, waiting, returned, idle, has, executed, notified, Posts, at_rest, push, take,
  exec, notice, delete, timeout, Reachable, init, step,
}

update_at {ℓ} : {A : Type ℓ} (f : ℕ → A) (k : ℕ) (v : A) → update f k v k ≡ v
unfolding update
update_at f k v = rw ((==_iff k k).1 refl) refl

module _ {J : Type 0} (json : JsonLibrary J) (hash : CString → ℕ) (parse : List ℕ → Parsed J)
    (start : ExecNode) (content : ℕ → CString) (m : ℕ) (after : ExecNode) (done : Bool)
    (responses : List Response) (err : RoundError)
    (ends : execmessage json hash parse start (content m) new_error
      ≡ some (after, done, responses, err)) where
  pushed_state :
      (t : Posts) × Reachable json hash parse start content t
      × (t.caller m ≡ waiting)
      × (t.enabled m ≡ true)
      × (t.notices m ≡ 0)
      × (t.worker 0 ≡ idle)
      × (t.queue ≡ m ∷ [])
      × (t.node ≡ start)
  pushed_state = (
    _,
    step init (push (at_rest start) m refl),
    update_at (at_rest start).caller m waiting,
    update_at (at_rest start).enabled m true,
    refl,
    refl,
    refl,
    refl,
  )

  -- Where the execution of a message from the start of a node ends, the threads and the caller of
  -- postrequest reach a state in which the message is deleted and its caller still waits for the
  -- notification of it.
  pub deleted-waiting :
      (t : Posts) × Reachable json hash parse start content t
      × (t.caller m ≡ waiting)
      × (t.deleted m ≡ true)
  deleted-waiting =
      let (t, r, c, e, n, w, q, k) = pushed_state in
      let r1 = step r (take t 0 m [] w q) in
      let r2 =
        step r1 (exec _ 0 m after done responses err (update_at t.worker 0 (has m)) (rw k ends)) in
      let r3 = step r2 (notice _ 0 m (update_at (update t.worker 0 (has m)) 0 (executed m)) e) in
      let r4 = step r3 (
        delete _ 0 m
          (update_at (update (update t.worker 0 (has m)) 0 (executed m)) 0 (notified m))) in
      (_, r4, c, update_at t.deleted m true)

  -- A caller may be back from a wait that timed out, and its variables are written later.
  pub returned-written :
      (t : Posts) × Reachable json hash parse start content t
      × (t.caller m ≡ returned false)
      × (t.response m ≡ some (done, responses, err))
  returned-written =
      let (t, r, c, e, n, w, q, k) = pushed_state in
      let r1 = step r (timeout t m c n) in
      let r2 = step r1 (take _ 0 m [] w q) in
      let r3 =
        step r2 (exec _ 0 m after done responses err (update_at t.worker 0 (has m)) (rw k ends)) in
      (
        _,
        r3,
        update_at t.caller m (returned false),
        update_at t.response m (some (done, responses, err)),
      )
