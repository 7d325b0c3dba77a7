-- ===== src/Message.antt =====
-- The messages of src/round/message.c: their data and their notification. A message is not NULL;
-- allocation succeeds, and what `malloc` puts into new bytes is a parameter, as is the time that
-- the system takes a timeout for. The semaphore is that of `round.MessageManager`.
pub mod Contents
pub mod Notify
use round.Common.{
  ℕ, zero, suc, ◌+◌, ◌-◌, ◌<◌, Bool, true, false, not, ◌||◌, Option, none, some, List, [], ◌∷◌,
  ◌++◌, ltb, ◌==◌, if◌then◌else◌, length, drop,
}
use round.Common.Int.{ℤ, pos, ltb_ℤ}
use round.Text.{CString}
use round.MessageManager.{Semaphore, semaphore_new, semaphore_post, semaphore_wait}

-- `RoundMessage`
pub record RoundMessage : Type 0 where
  pub contents : Option (List ℕ)
  pub data_len : ℕ
  pub sem : Option Semaphore

-- `round_message_new`
unfoldable pub message_new : RoundMessage
message_new = record { contents = none; data_len = 0; sem = none }

-- `round_message_clear`
unfoldable pub message_clear : RoundMessage → RoundMessage
message_clear msg = record msg { contents = none; data_len = 0 }

-- The bytes that `memccpy` copies: those up to the first one that is the byte to stop at, and it.
unfoldable pub up_to : ℕ → List ℕ → List ℕ
up_to stop [] = []
up_to stop (x ∷ xs) = if x == stop then x ∷ [] else x ∷ up_to stop xs

-- `memccpy(memory, bytes, stop, length)` into a memory that is large enough
unfoldable pub memccpy : List ℕ → List ℕ → ℕ → List ℕ
unfolding up_to
memccpy memory bytes stop = up_to stop bytes ++ drop (length (up_to stop bytes)) memory

-- The bytes in front of the first 0
unfoldable pub c_string : List ℕ → List ℕ
c_string [] = []
c_string (x ∷ xs) = if x == 0 then [] else x ∷ c_string xs

-- `round_message_getstring`
unfoldable pub getstring : RoundMessage → CString
unfolding c_string
getstring msg = elim msg.contents [ none ↦ none | some memory ↦ some (c_string memory) ]

module _ (garbage : ℕ → List ℕ) where
  -- `round_message_setdata`, the data with its length as a list; the third argument of `memccpy` is
  -- `sizeof(byte)`, which is 1.
  unfoldable pub setdata : RoundMessage → Option (List ℕ) → RoundMessage × Bool
  unfolding message_clear memccpy
  setdata msg none = (message_clear msg, true)
  setdata msg (some bytes) = if length bytes == 0 then (message_clear msg, true) else (
    record msg {
      contents = some (memccpy (garbage (length bytes)) bytes 1);
      data_len = length bytes;
    },
    true,
  )

  -- `round_message_setstring`, with the 0 behind the text
  unfoldable pub setstring : RoundMessage → CString → RoundMessage × Bool
  unfolding setdata
  setstring msg none = setdata msg none
  setstring msg (some str) = setdata msg (some (str ++ 0 ∷ []))

-- `round_message_isnotifyenabled`
unfoldable pub isnotifyenabled : RoundMessage → Bool
isnotifyenabled msg = elim msg.sem [ none ↦ false | some _ ↦ true ]

-- `round_message_setnotifyenabled`
unfoldable pub setnotifyenabled : RoundMessage → Bool → RoundMessage × Bool
unfolding isnotifyenabled semaphore_new
setnotifyenabled msg true = elim msg.sem [
  | some _ ↦ (msg, true)
  | none ↦
      let enabled : RoundMessage = record msg { sem = some (semaphore_new 0) } in
      (enabled, isnotifyenabled enabled)
]
setnotifyenabled msg false = (record msg { sem = none }, true)

-- `round_message_notify`
unfoldable pub notify : RoundMessage → RoundMessage × Bool
unfolding semaphore_post
notify msg = elim msg.sem [
  | none ↦ (msg, false)
  | some sem ↦ (record msg { sem = some (semaphore_post sem).0 }, (semaphore_post sem).1)
]

-- `round_semaphore_timedwait`, where the system's clock reads so many seconds: the timeout is given
-- to the system as the time at which the wait ends. `none` is a thread that is blocked.
unfoldable pub semaphore_timedwait : ℤ → Semaphore → ℤ → Option (Semaphore × Bool)
unfolding semaphore_wait
semaphore_timedwait now sem timeout_sec =
    if not sem.is_initialized
    then some (sem, false)
    else if ltb_ℤ (pos 0) timeout_sec
    then (if not (sem.count == 0)
        then some (record sem { count = sem.count - 1 }, true)
        else if ltb_ℤ now timeout_sec
        then none
        else some (sem, false))
    else semaphore_wait sem

-- `round_message_timedwaitnotify`
unfoldable pub timedwaitnotify : ℤ → RoundMessage → ℤ → Option (RoundMessage × Bool)
unfolding semaphore_timedwait
timedwaitnotify now msg timeout_sec = elim msg.sem [
  | none ↦ some (msg, false)
  | some sem ↦ elim (semaphore_timedwait now sem timeout_sec) [
    | none ↦ none
    | some (sem', ok) ↦ some (record msg { sem = some sem' }, ok)
  ]
]

-- `round_message_waitnotify`
unfoldable pub waitnotify : RoundMessage → Option (RoundMessage × Bool)
unfolding timedwaitnotify
waitnotify msg = timedwaitnotify (pos 0) msg (pos 0)
