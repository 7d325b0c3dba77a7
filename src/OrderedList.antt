-- ===== src/OrderedList.antt =====
-- The ordered list of src/round/util/list_ordered.c: a list with a comparison of nodes.
pub mod Add
use round.Common.{ℕ, zero, suc, Bool, true, false, ◌||◌, Option, none, some, ◌==◌, if◌then◌else◌}
use round.LinkedList.{Store, insert, addfirst, getlast, prev, clear}

-- `RoundListNodeCompareType`
pub data NodeCompare : Type 0 where
  same less greater : NodeCompare

-- `RoundOrderedList`. 0 stands for a list that was not allocated, `none` for no comparison.
pub record OrderedList : Type 0 where
  pub sorted_list : ℕ
  pub cmp_func : Option (ℕ → ℕ → NodeCompare)

unfoldable pub is_greater : NodeCompare → Bool
is_greater greater = true
is_greater _ = false

-- The loop of `round_ordered_list_add`, from the last node backwards; `none` means that the fuel
-- ran out.
unfoldable pub add_from : ℕ → Store → (ℕ → ℕ → NodeCompare) → ℕ → ℕ → ℕ → Option (Store × Bool)
unfolding is_greater
add_from zero s cmp list node new_node = none
add_from (suc fuel) s cmp list node new_node =
    let rest = add_from fuel s cmp list (prev s node) new_node in
    if node == 0
    then some (addfirst s list new_node)
    else if is_greater (cmp node new_node)
    then some (insert s node new_node)
    else rest

-- `round_ordered_list_add`; the list itself is no NULL.
unfoldable pub add : ℕ → Store → OrderedList → ℕ → Option (Store × Bool)
unfolding add_from
add fuel s list new_node = elim (list.cmp_func) [
  | none ↦ some (s, false)
  | some cmp ↦ add_from fuel s cmp list.sorted_list (getlast s list.sorted_list) new_node
]

-- `round_ordered_list_clear`, with `free` for the destructor.
unfoldable pub clear_ordered : ℕ → Store → OrderedList → Option (Store × Bool)
clear_ordered fuel s list =
    if list.sorted_list == 0
    then some (s, false)
    else elim (clear fuel s list.sorted_list) [ none ↦ none | some r ↦ some (r.0, true) ]
