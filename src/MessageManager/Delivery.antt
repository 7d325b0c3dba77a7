-- ===== src/MessageManager/Delivery.antt =====
-- A message manager (message_manager.c) that one thread at a time uses.
use mathlib.Core.List.{append_assoc, append-nil}
use round.Common.{
  ℕ, zero, suc, ◌-◌, ◌≡◌, ◌≢◌, All, refl, sym, ap, ◌∙◌, true, Option, none, some, List, [], ◌∷◌,
  ◌++◌, arith, length, length-append,
}
use round.MessageManager.{
  Semaphore, semaphore_post, semaphore_wait, MessageManager, pushmessage, push_locked-new,
  pop_locked, waitmessage,
}

-- No thread is inside the functions: the semaphore counts the messages in the queue.
pub record IsIdle (mgr : MessageManager) : Type 0 where
  pub initialized : mgr.sem.is_initialized ≡ true
  pub counted : mgr.sem.count ≡ length mgr.queue

abbrev pub push_all : MessageManager → List ℕ → MessageManager
push_all mgr [] = mgr
push_all mgr (msg ∷ msgs) = push_all (pushmessage mgr msg).0 msgs

-- So many calls of `waitmessage` in a row, and the messages that they return.
abbrev pub wait_all : ℕ → MessageManager → Option (MessageManager × List ℕ)
wait_all zero mgr = some (mgr, [])
wait_all (suc n) mgr = elim (waitmessage mgr) [
  | none ↦ none
  | some (t, msg, ok) ↦ elim (wait_all n t) [ none ↦ none | some (u, msgs) ↦ some (u, msg ∷ msgs) ]
]

-- Messages that are not NULL, and neither in the queue nor repeated.
abbrev pub IsNew : List ℕ → List ℕ → Type 0
IsNew queue [] = Unit
IsNew queue (msg ∷ msgs) = (msg ≢ 0) × All (λ x. x ≢ msg) queue × IsNew (queue ++ msg ∷ []) msgs

pushmessage-IsIdle :
    (mgr : MessageManager) (msg : ℕ)
    → IsIdle mgr
    → msg ≢ 0
    → All (λ x. x ≢ msg) mgr.queue
    → IsIdle (pushmessage mgr msg).0 × ((pushmessage mgr msg).0.queue ≡ mgr.queue ++ msg ∷ [])
unfolding pushmessage semaphore_post
pushmessage-IsIdle mgr msg i m0 new = rw (push_locked-new mgr msg m0 new) (
  record {
    initialized = ground (arith, i.initialized);
    counted = ground (arith, i.initialized, i.counted, length-append mgr.queue (msg ∷ []));
  },
  refl,
)

push_all-IsIdle :
    (msgs : List ℕ) (mgr : MessageManager)
    → IsIdle mgr
    → IsNew mgr.queue msgs
    → IsIdle (push_all mgr msgs) × ((push_all mgr msgs).queue ≡ mgr.queue ++ msgs)
push_all-IsIdle [] mgr i w = (i, sym (append-nil mgr.queue))
push_all-IsIdle (msg ∷ msgs) mgr i w =
    let (j, q) = pushmessage-IsIdle mgr msg i w.0 w.1 in
    let rest : IsNew (pushmessage mgr msg).0.queue msgs = rw q w.2 in
    let (k, r) = push_all-IsIdle msgs (pushmessage mgr msg).0 j rest in
    (k, r ∙ ap (λ l. l ++ msgs) q ∙ append_assoc mgr.queue (msg ∷ []) msgs)

-- One call on a queue that is not empty
waitmessage_step :
    (mgr : MessageManager) (msg : ℕ) (msgs : List ℕ)
    → IsIdle mgr
    → mgr.queue ≡ msg ∷ msgs
    → (t : MessageManager) × (waitmessage mgr ≡ some (t, msg, true)) × IsIdle t × (t.queue ≡ msgs)
unfolding waitmessage
waitmessage_step mgr msg msgs i q = (
  record { queue = msgs; sem = record mgr.sem { count = length msgs } },
  run,
  record { initialized = i.initialized; counted = refl },
  refl,
)
  where
    passed : Semaphore
    passed = record mgr.sem { count = length msgs }

    passes : semaphore_wait mgr.sem ≡ some (record mgr.sem { count = mgr.sem.count - 1 }, true)
    passes = unfold semaphore_wait in ground (arith, i.initialized, i.counted, ap length q)

    one_less : mgr.sem.count - 1 ≡ length msgs
    one_less = omega (arith, i.counted, ap length q)

    passes_to : semaphore_wait mgr.sem ≡ some (passed, true)
    passes_to = passes ∙ ap (λ n. some (record mgr.sem { count = n }, true)) one_less

    pops :
        pop_locked (record mgr { sem = passed })
        ≡ (record { queue = msgs; sem = passed }, msg, true)
    pops = unfold pop_locked in ground (arith, q)

    run : waitmessage mgr ≡ some (record { queue = msgs; sem = passed }, msg, true)
    run = ground (arith, passes_to, pops)

waitmessage_blocks : (mgr : MessageManager) → IsIdle mgr → mgr.queue ≡ [] → waitmessage mgr ≡ none
unfolding waitmessage semaphore_wait
waitmessage_blocks mgr i q = ground (arith, i.initialized, i.counted, ap length q)

wait_all-IsIdle :
    (msgs : List ℕ) (mgr : MessageManager)
    → IsIdle mgr
    → mgr.queue ≡ msgs
    → (t : MessageManager) × (wait_all (length msgs) mgr ≡ some (t, msgs)) × (waitmessage t ≡ none)
wait_all-IsIdle [] mgr i q = (mgr, refl, waitmessage_blocks mgr i q)
wait_all-IsIdle (msg ∷ msgs) mgr i q =
    let (t, e, j, r) = waitmessage_step mgr msg msgs i q in
    let (u, f, b) = wait_all-IsIdle msgs t j r in (u, ground (arith, e, f), b)

-- Where the semaphore of a message manager is initialised and counts the messages in the queue,
-- pushmessage of some messages that are not NULL and differ from each other and from those in the
-- queue, and then waitmessage once for each message in the queue never blocks, and returns those
-- that were in the queue and those pushed, in order; one call more blocks.
pub wait_all-push_all :
    (mgr : MessageManager) (msgs : List ℕ)
    → IsIdle mgr
    → IsNew mgr.queue msgs
    → (t : MessageManager) × (wait_all (length (mgr.queue ++ msgs)) (push_all mgr msgs)
        ≡ some (t, mgr.queue ++ msgs))
      × (waitmessage t ≡ none)
wait_all-push_all mgr msgs i w =
    let (j, q) = push_all-IsIdle msgs mgr i w in
    wait_all-IsIdle (mgr.queue ++ msgs) (push_all mgr msgs) j q
