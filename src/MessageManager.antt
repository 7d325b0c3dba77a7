-- ===== src/MessageManager.antt =====
-- The message manager of src/round/message_manager.c: a queue of messages, and a semaphore
-- (src/round/util/semaphore.c) that counts them. The mutex makes each queue operation one step; the
-- threads are interleaved in any order. The queue is the list of its messages, first one first.
pub mod Threads
pub mod Delivery
use round.Common.{
  ℕ, zero, suc, ◌+◌, ◌-◌, Bool, true, false, Option, none, some, List, [], ◌∷◌, ◌++◌, ◌==◌,
  if◌then◌else◌, not, ◌≡◌, ◌≢◌, refl, All, arith,
}

-- `RoundSemaphore`: whether it is initialised, its first value, and its value. The calls of the
-- system succeed.
pub record Semaphore : Type 0 where
  pub is_initialized : Bool
  pub max_cnt : ℕ
  pub count : ℕ

-- `round_semaphore_init`
unfoldable pub semaphore_init : Semaphore → Semaphore × Bool
semaphore_init sem =
    if sem.is_initialized
    then (sem, true)
    else (record sem { is_initialized = true; count = sem.max_cnt }, true)

-- `round_semaphore_new`
unfoldable pub semaphore_new : ℕ → Semaphore
unfolding semaphore_init
semaphore_new max_cnt =
    (semaphore_init (record { is_initialized = false; max_cnt = max_cnt; count = 0 })).0

-- `round_semaphore_destory`
unfoldable pub semaphore_destory : Semaphore → Semaphore × Bool
semaphore_destory sem =
    if not sem.is_initialized then (sem, true) else (record sem { is_initialized = false }, true)

-- `round_semaphore_post`
unfoldable pub semaphore_post : Semaphore → Semaphore × Bool
semaphore_post sem =
    if not sem.is_initialized then (sem, false) else (record sem { count = suc sem.count }, true)

-- `round_semaphore_wait`, which is `round_semaphore_timedwait` with no timeout; `none` is a thread
-- that is blocked.
unfoldable pub semaphore_wait : Semaphore → Option (Semaphore × Bool)
semaphore_wait sem =
    if not sem.is_initialized
    then some (sem, false)
    else if sem.count == 0
    then none
    else some (record sem { count = sem.count - 1 }, true)

-- `round_semaphore_reset`
unfoldable pub semaphore_reset : Semaphore → Semaphore × Bool
unfolding semaphore_destory semaphore_init
semaphore_reset sem =
    if not (semaphore_destory sem).1
    then ((semaphore_destory sem).0, false)
    else semaphore_init (semaphore_destory sem).0

pub record MessageManager : Type 0 where
  pub queue : List ℕ
  pub sem : Semaphore

-- `round_message_manager_new`
unfoldable pub new_manager : MessageManager
unfolding semaphore_new
new_manager = record { queue = []; sem = semaphore_new 0 }

-- The removal at the head of `round_list_insert`, of a message that is in the queue.
unfoldable pub take_out : ℕ → List ℕ → List ℕ
take_out msg [] = []
take_out msg (x ∷ queue) = if x == msg then queue else x ∷ take_out msg queue

-- The locked part of `round_message_manager_pushmessage`: `round_list_addlast` refuses NULL, and
-- its result is dropped.
unfoldable pub push_locked : MessageManager → ℕ → MessageManager
unfolding take_out
push_locked mgr msg =
    if msg == 0 then mgr else record mgr { queue = take_out msg mgr.queue ++ msg ∷ [] }

take_out-new : (msg : ℕ) (queue : List ℕ) → All (λ x. x ≢ msg) queue → take_out msg queue ≡ queue
unfolding take_out
take_out-new msg [] n = refl
take_out-new msg (x ∷ queue) n = ground (arith, n.0, take_out-new msg queue n.1)

-- For a message that is not NULL and not in the queue, the locked part of pushmessage appends it.
pub push_locked-new :
    (mgr : MessageManager) (msg : ℕ)
    → msg ≢ 0
    → All (λ x. x ≢ msg) mgr.queue
    → push_locked mgr msg ≡ record mgr { queue = mgr.queue ++ msg ∷ [] }
unfolding push_locked
push_locked-new mgr msg m0 new = ground (arith, m0, take_out-new msg mgr.queue new)

-- The call of `round_semaphore_post` in it
unfoldable pub post : MessageManager → MessageManager
unfolding semaphore_post
post mgr = record mgr { sem = (semaphore_post mgr.sem).0 }

-- `round_message_manager_pushmessage`, where no other thread is between
unfoldable pub pushmessage : MessageManager → ℕ → MessageManager × Bool
unfolding push_locked post
pushmessage mgr msg = (post (push_locked mgr msg), true)

-- The locked part of `round_message_manager_waitmessage`: the message is NULL, and the flag false,
-- where the queue is empty.
unfoldable pub pop_locked : MessageManager → MessageManager × ℕ × Bool
pop_locked mgr = elim mgr.queue [
  | [] ↦ (mgr, 0, false)
  | msg ∷ msgs ↦ (record mgr { queue = msgs }, msg, true)
]

-- `round_message_manager_waitmessage`, where no other thread is between
unfoldable pub waitmessage : MessageManager → Option (MessageManager × ℕ × Bool)
unfolding semaphore_wait pop_locked
waitmessage mgr = elim (semaphore_wait mgr.sem) [
  | none ↦ none
  | some (sem, ok) ↦
      some
        (if ok then pop_locked (record mgr { sem = sem }) else (record mgr { sem = sem }, 0, false))
]

-- The loop of `round_message_manager_clear`: the messages that it deletes, in order.
unfoldable pub clear_manager : MessageManager → MessageManager × List ℕ
unfolding semaphore_reset
clear_manager mgr = (record { queue = []; sem = (semaphore_reset mgr.sem).0 }, mgr.queue)
