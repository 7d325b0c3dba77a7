-- ===== src/Tests/Queue.antt =====
-- Tests of the queue (util/queue.c) and the message manager (message_manager.c).
use round.Common.{◌+◌, ◌≤◌, ◌≡◌, ◌≢◌, All, ◌⊎◌, refl, true, false, none, some, [], ◌∷◌, arith}
use round.LinkedList.{Store, header_init, addlast}
use round.LinkedList.Links.{IsLinked}
use round.LinkedList.Chain.{Represents}
use round.LinkedList.Refine.{IsFresh, addlast-Represents}
use round.LinkedList.Clear.{header_init-Represents}
use round.Queue
use round.Queue.Fifo.{Popped, pop-Popped}
use round.MessageManager.{
  new_manager, MessageManager, waitmessage, Semaphore, semaphore_wait, push_locked, post,
  pop_locked,
}
use round.MessageManager.Delivery.{IsIdle, push_all, wait_all, wait_all-push_all}
use round.MessageManager.Threads.{
  Threads, start, Reachable, IsConsistent, init, step, push, posts, Reachable-IsConsistent,
  pop_locked-Reachable,
}

-- No node is in a list.
abbrev alone : Store
alone = record { next = λ n. n; prev = λ n. n; head_flag = λ n. false; freed = [] }

alone-IsLinked : IsLinked alone
alone-IsLinked = record {
  prev_next = λ n. refl;
  next_prev = λ n. refl;
  null_next = refl;
  null_prev = refl;
}

abbrev empty : Store
empty = (header_init alone 9).0

empty-Represents : Represents empty 9 []
empty-Represents = header_init-Represents alone 9 alone-IsLinked (omega arith) refl

one-IsFresh : IsFresh empty [] 1
unfolding header_init
one-IsFresh = ((omega arith, refl), tt)

pop-Popped_test : Popped (addlast empty 9 1).0 9 (1 ∷ []) (Queue.pop (addlast empty 9 1).0 9)
pop-Popped_test = pop-Popped (1 ∷ []) (addlast-Represents empty-Represents 1 one-IsFresh)

-- One thread has pushed the message 5 and posted.
abbrev pushed : Threads
pushed = record start { mgr = push_locked start.mgr 5; pushing = 1; pushed = 5 ∷ [] }

abbrev posted : Threads
posted = record pushed { mgr = post pushed.mgr; pushing = 0 }

none_queued : All (λ x. x ≢ 5) start.mgr.queue
unfolding new_manager
none_queued = tt

posted-Reachable : Reachable posted
posted-Reachable = step (step init (push start 5 (omega arith) none_queued)) (posts pushed 0 refl)

Reachable-IsConsistent_example : IsConsistent posted
Reachable-IsConsistent_example = Reachable-IsConsistent posted posted-Reachable

pop_locked-Reachable_example :
    ((posted.waking ≡ 0) ⊎ ((pop_locked posted.mgr).2 ≡ true))
    × ((posted.mgr.queue ≡ [])
        ⊎ (1 ≤ posted.waking + posted.pushing)
        ⊎ ((sem : Semaphore) × (semaphore_wait posted.mgr.sem ≡ some (sem, true))))
pop_locked-Reachable_example = pop_locked-Reachable posted posted-Reachable

new_manager-IsIdle : IsIdle new_manager
unfolding new_manager
new_manager-IsIdle = record { initialized = refl; counted = refl }

wait_all-push_all_example :
    (t : MessageManager) × (wait_all 2 (push_all new_manager (7 ∷ 8 ∷ [])) ≡ some (t, 7 ∷ 8 ∷ []))
    × (waitmessage t ≡ none)
unfolding new_manager
wait_all-push_all_example =
    wait_all-push_all new_manager (7 ∷ 8 ∷ []) new_manager-IsIdle
      (omega arith, tt, (omega arith, (omega arith, tt), tt))
