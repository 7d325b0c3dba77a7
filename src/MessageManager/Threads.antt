-- ===== src/MessageManager/Threads.antt =====
-- The threads that share a message manager (message_manager.c), as a step relation.
use round.Common.{
  ℕ, zero, suc, ◌+◌, ◌-◌, ◌≡◌, ◌≢◌, All, refl, sym, ap, ◌∙◌, Bool, true, Option, some, List, [],
  ◌∷◌, ◌++◌, arith, length, length-append, ◌==◌,
}
use round.MessageManager.{
  Semaphore, semaphore_post, semaphore_wait, MessageManager, new_manager, push_locked,
  push_locked-new, post, pop_locked,
}
use round.Common.{Bool-cases, ◌⊎◌, inl, inr, ◌≤◌}
use mathlib.Core.Option
use mathlib.Core.List.{append_assoc}

-- The manager with the threads inside its functions: how many have pushed and not posted yet, how
-- many have passed the semaphore and not popped yet. The messages that were pushed, and what
-- `waitmessage` has returned, are logged, the first one first.
pub record Threads : Type 0 where
  pub mgr : MessageManager
  pub pushing : ℕ
  pub waking : ℕ
  pub pushed : List ℕ
  pub received : List ℕ

abbrev pub start : Threads
start = record { mgr = new_manager; pushing = 0; waking = 0; pushed = []; received = [] }

-- One step of one thread; the messages pushed are not NULL and not in the queue, as the callers
-- see to.
pub data Step : Threads → Threads → Type 0 where
  push :
      (t : Threads) (msg : ℕ)
      → msg ≢ 0
      → All (λ x. x ≢ msg) t.mgr.queue
      → Step t (record t {
        mgr = push_locked t.mgr msg;
        pushing = suc t.pushing;
        pushed = t.pushed ++ msg ∷ [];
      })
  posts :
      (t : Threads) (n : ℕ)
      → t.pushing ≡ suc n
      → Step t (record t { mgr = post t.mgr; pushing = n })
  wake :
      (t : Threads) (sem : Semaphore)
      → semaphore_wait t.mgr.sem ≡ some (sem, true)
      → Step t (record t { mgr = record t.mgr { sem = sem }; waking = suc t.waking })
  pop :
      (t : Threads) (n : ℕ)
      → t.waking ≡ suc n
      → Step t (record t {
        mgr = (pop_locked t.mgr).0;
        waking = n;
        received = t.received ++ (pop_locked t.mgr).1 ∷ [];
      })

pub data Reachable : Threads → Type 0 where
  init : Reachable start
  step : {t u : Threads} → Reachable t → Step t u → Reachable u

-- Each message is counted once, and the messages come out in the order in which they went in.
pub record IsConsistent (t : Threads) : Type 0 where
  pub initialized : t.mgr.sem.is_initialized ≡ true
  pub counted : t.mgr.sem.count + t.waking + t.pushing ≡ length t.mgr.queue
  pub ordered : t.received ++ t.mgr.queue ≡ t.pushed

semaphore_wait_passes :
    (sem after : Semaphore)
    → semaphore_wait sem ≡ some (after, true)
    → (after.is_initialized ≡ true) × (suc after.count ≡ sem.count)
unfolding semaphore_wait
semaphore_wait_passes sem after e = elim (Bool-cases sem.is_initialized) [
  | inl i ↦ elim (Bool-cases (sem.count == 0)) [
    | inl z ↦ absurd (ground (arith, e, i, z))
    | inr z ↦
        let passed : Option (Semaphore × Bool) =
          some (
            record { is_initialized = true; max_cnt = sem.max_cnt; count = sem.count - 1 },
            true,
          ) in
        let q : passed ≡ some (after, true) = rw (i, z) at e in
        let w = ap (λ o. Option.get_or (Option.map (λ p. p.0) o) sem) q in
        (sym (ap (λ x. x.is_initialized) w), rw (← ap (λ x. x.count) w) (ground arith))
  ]
  | inr i ↦ absurd (ground (arith, e, i))
]

List-cases : (xs : List ℕ) → (xs ≡ []) ⊎ ((x : ℕ) × (ys : List ℕ) × (xs ≡ x ∷ ys))
List-cases [] = inl refl
List-cases (x ∷ xs) = inr (x, xs, refl)

pop_locked_some :
    (mgr : MessageManager) (n : ℕ)
    → suc n ≡ length mgr.queue
    → ((pop_locked mgr).2 ≡ true)
      × ((pop_locked mgr).1 ∷ (pop_locked mgr).0.queue ≡ mgr.queue)
      × ((pop_locked mgr).0.sem ≡ mgr.sem)
unfolding pop_locked
pop_locked_some mgr n e = elim (List-cases mgr.queue) [
  | inl q ↦ absurd (omega (arith, e, ap length q))
  | inr (x, xs, q) ↦ rw q (refl, refl, refl)
]

zero-cases : (n : ℕ) → (n ≡ 0) ⊎ ((m : ℕ) × (n ≡ suc m))
zero-cases zero = inl refl
zero-cases (suc n) = inr (n, refl)

step-IsConsistent : {t u : Threads} → Step t u → IsConsistent t → IsConsistent u
step-IsConsistent (push t msg m0 new) c = rw (push_locked-new t.mgr msg m0 new) (record {
  initialized = c.initialized;
  counted = omega (arith, c.counted, length-append t.mgr.queue (msg ∷ []));
  ordered =
      sym (append_assoc t.received t.mgr.queue (msg ∷ [])) ∙ ap (λ l. l ++ msg ∷ []) c.ordered;
})
step-IsConsistent (posts t n e) c =
    unfold post semaphore_post in
    record {
      initialized = ground (arith, c.initialized);
      counted = ground (arith, c.initialized, c.counted, e);
      ordered = c.ordered;
    }
step-IsConsistent (wake t sem e) c =
    let (i, k) = semaphore_wait_passes t.mgr.sem sem e in
    record { initialized = i; counted = omega (arith, c.counted, k); ordered = c.ordered }
step-IsConsistent (pop t n e) c =
    let (_, q, k) =
      pop_locked_some t.mgr (t.mgr.sem.count + n + t.pushing) (omega (arith, c.counted, e)) in
    record {
      initialized = rw k c.initialized;
      counted = omega (arith, c.counted, e, ap length q, ap (λ x. x.count) k);
      ordered =
          append_assoc t.received ((pop_locked t.mgr).1 ∷ []) (pop_locked t.mgr).0.queue
          ∙ ap (λ l. t.received ++ l) q
          ∙ c.ordered;
    }

-- In every state that the threads of a message manager reach from the start by pushing, posting,
-- passing the semaphore and popping, where no message that is pushed is NULL or in the queue
-- already, the semaphore is initialised, its value with the numbers of threads it has let through
-- and of threads about to post make up the length of the queue, and the messages received,
-- followed by those in the queue, are those pushed, in order.
pub Reachable-IsConsistent : (t : Threads) → Reachable t → IsConsistent t
Reachable-IsConsistent _ init =
    unfold new_manager in record { initialized = refl; counted = refl; ordered = refl }
Reachable-IsConsistent u (step r s) = step-IsConsistent s (Reachable-IsConsistent _ r)

-- In every state that the threads reach, where no message that is pushed is NULL or in the queue
-- already, no thread has passed the semaphore or the pop of the next one finds a message; and the
-- queue is empty, or a thread is inside the functions, or the semaphore lets a thread through.
pub pop_locked-Reachable :
    (t : Threads)
    → Reachable t
    → ((t.waking ≡ 0) ⊎ ((pop_locked t.mgr).2 ≡ true))
      × ((t.mgr.queue ≡ [])
          ⊎ (1 ≤ t.waking + t.pushing)
          ⊎ ((sem : Semaphore) × (semaphore_wait t.mgr.sem ≡ some (sem, true))))
pop_locked-Reachable t r = (
  elim (zero-cases t.waking) [
    | inl z ↦ inl z
    | inr (n, e) ↦
        inr
          (pop_locked_some t.mgr (t.mgr.sem.count + n + t.pushing) (omega (arith, c.counted, e))).0
  ],
  elim (zero-cases (t.waking + t.pushing)) [
    | inl z ↦ elim (zero-cases t.mgr.sem.count) [
      | inl w ↦ inl (empty t.mgr.queue (omega (arith, c.counted)))
      | inr (n, e) ↦ inr (
          inr (
            record t.mgr.sem { count = t.mgr.sem.count - 1 },
            unfold semaphore_wait in ground (arith, c.initialized, e),
          ))
    ]
    | inr (n, e) ↦ inr (inl (omega arith))
  ],
)
  where
    c : IsConsistent t
    c = Reachable-IsConsistent t r

    empty : (xs : List ℕ) → 0 ≡ length xs → xs ≡ []
    empty [] e = refl
    empty (x ∷ xs) e = absurd (omega arith)
