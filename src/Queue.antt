-- ===== src/Queue.antt =====
-- The queue of src/round/util/queue.c: the header of a linked list, whose nodes are the objects.
pub mod Fifo
use round.Common.{ℕ, Bool, true, false, Option, none, some, not, ◌==◌, if◌then◌else◌}
use round.LinkedList.{Store, header_init, addlast, next, remove, clear, free}

-- `round_queue_push`
unfoldable pub push : Store → ℕ → ℕ → Store × Bool
push s queue obj = if queue == 0 then (s, false) else addlast s queue obj

-- `round_queue_pop`: the store, the object where there is one, and the flag that is returned.
unfoldable pub pop : Store → ℕ → Store × ℕ × Bool
pop s queue =
    if queue == 0
    then (s, 0, false)
    else if next s queue == 0
    then (s, 0, false)
    else if not (remove s (next s queue)).1
    then (s, 0, false)
    else ((remove s (next s queue)).0, next s queue, true)
