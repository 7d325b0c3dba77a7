-- ===== src/LocalNode/Message/Served.antt =====
-- What the callers of `round_local_node_postrequest` (local_node.c) get from the threads of the
-- node (local_node_thread.c), in any order of their steps.
use round.Common.{
  ℕ, ◌≡◌, ◌≢◌, refl, sym, ap, ◌∙◌, ◌⊎◌, Bool, true, Option, some, List, [], ◌∷◌, ◌++◌,
}
use mathlib.Core.List.{append_assoc}
use round.Text.{CString}
use round.RpcError.{RoundError, new_error}
use round.Method.{ExecNode}
use round.JsonRpc.{JsonLibrary}
use round.LocalNode.Request.{Response}
use round.LocalNode.Message.{
  Parsed, execmessage, returned, executed, Posts, push, take, exec, notice, discard, delete, wake,
  timeout, Reachable, init, step,
}

module _ {J : Type 0} (json : JsonLibrary J) (hash : CString → ℕ) (parse : List ℕ → Parsed J)
    (start : ExecNode) (content : ℕ → CString) where
  -- In every state that the threads of a local node and the callers of postrequest reach, the
  -- messages that the threads have taken, followed by those in the queue, are those that the
  -- callers have pushed, in order.
  pub Reachable-taken :
      (t : Posts) → Reachable json hash parse start content t → t.taken ++ t.queue ≡ t.pushed
  Reachable-taken _ init = refl
  Reachable-taken _ (step r (push t m e)) =
      sym (append_assoc t.taken t.queue (m ∷ [])) ∙ ap (λ l. l ++ m ∷ []) (Reachable-taken t r)
  Reachable-taken _ (step r (take t w m rest i q)) =
      append_assoc t.taken (m ∷ []) rest ∙ ap (λ l. t.taken ++ l) (sym q) ∙ Reachable-taken t r
  Reachable-taken _ (step r (exec t w m c d rs err i e)) = Reachable-taken t r
  Reachable-taken _ (step r (notice t w m i e)) = Reachable-taken t r
  Reachable-taken _ (step r (discard t w m i e)) = Reachable-taken t r
  Reachable-taken _ (step r (delete t w m i)) = Reachable-taken t r
  Reachable-taken _ (step r (wake t m n w e)) = Reachable-taken t r
  Reachable-taken _ (step r (timeout t m w e)) = Reachable-taken t r

  -- What a caller's variables hold is what the execution of its message gave, on the node of a
  -- reachable state.
  abbrev pub IsAnswer : ℕ → Option (Bool × List Response × RoundError) → Type 0
  IsAnswer m held =
      (before : Posts) × (after : ExecNode) × (done : Bool) × (responses : List Response)
      × (err : RoundError) × Reachable json hash parse start content before
      × (held ≡ some (done, responses, err))
      × (execmessage json hash parse before.node (content m) new_error
          ≡ some (after, done, responses, err))

  record IsGood (t : Posts) (m : ℕ) : Type 0 where
    noticed : (t.notices m ≡ 0) ⊎ IsAnswer m (t.response m)
    told : (t.caller m ≢ returned true) ⊎ IsAnswer m (t.response m)
    done : (w : ℕ) → (t.worker w ≢ executed m) ⊎ IsAnswer m (t.response m)
