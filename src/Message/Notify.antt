-- ===== src/Message/Notify.antt =====
-- Notifications of a message (src/round/message.c) over its semaphore (util/semaphore.c).
use round.Common.{◌≡◌, true, false, some, arith, inl, inr, Bool-cases}
use round.Common.Int.{ℤ, pos, ltb_ℤ}
use round.MessageManager.{Semaphore, semaphore_post, semaphore_wait}
use round.Message.{RoundMessage, notify, semaphore_timedwait, timedwaitnotify}

-- A wait takes what a post gave, whatever the timeout and the time.
post-timedwait :
    (now timeout : ℤ) (sem : Semaphore)
    → sem.is_initialized ≡ true
    → semaphore_timedwait now (semaphore_post sem).0 timeout ≡ some (sem, true)
unfolding semaphore_timedwait semaphore_post semaphore_wait
post-timedwait now timeout sem i = rw i (elim (Bool-cases (ltb_ℤ (pos 0) timeout)) [
  | inl b ↦ ground (arith, b, i)
  | inr b ↦ ground (arith, b, i)
])

post_true : (sem : Semaphore) → sem.is_initialized ≡ true → (semaphore_post sem).1 ≡ true
unfolding semaphore_post
post_true sem i = ground (arith, i)

module _ (msg : RoundMessage) (sem : Semaphore) (e : msg.sem ≡ some sem)
    (i : sem.is_initialized ≡ true) where
  -- A wait takes the notification that was given, and leaves the message as it was before.
  pub timedwaitnotify-notify :
      (now timeout : ℤ)
      → ((notify msg).1 ≡ true) × (timedwaitnotify now (notify msg).0 timeout ≡ some (msg, true))
  unfolding notify timedwaitnotify
  timedwaitnotify-notify now timeout =
      let w = post-timedwait now timeout sem i in
      (ground (arith, e, post_true sem i), ground (arith, e, w))

  -- A wait whose timeout in seconds, read as a time, is past fails at once.
  pub timedwaitnotify_past :
      (now timeout : ℤ)
      → sem.count ≡ 0
      → ltb_ℤ (pos 0) timeout ≡ true
      → ltb_ℤ now timeout ≡ false
      → timedwaitnotify now msg timeout ≡ some (msg, false)
  unfolding timedwaitnotify semaphore_timedwait
  timedwaitnotify_past now timeout z p q = ground (arith, e, i, z, p, q)
