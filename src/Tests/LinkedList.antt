-- ===== src/Tests/LinkedList.antt =====
-- Tests of the linked list and the ordered list (util/list.c, util/list_ordered.c).
use round.Common.{
  ℕ, ◌≡◌, refl, true, false, some, [], ◌∷◌, ◌++◌, ltb, if◌then◌else◌, length, get_or, arith,
}
use mathlib.Core.List.{reverse}
use round.LinkedList.{
  Store, header_init, insert, remove, addlast, size, get, getfirst, getlast, clear, next_circular,
}
use round.LinkedList.Links.{IsLinked}
use round.LinkedList.Chain.{Represents, IsNode, erase, insert_from}
use round.LinkedList.Refine.{IsFresh, insert-Represents, remove-Represents, addlast-Represents}
use round.LinkedList.Clear.{header_init-Represents, clear-Represents}
use round.LinkedList.Walk.{size-length, get-get_or}
use round.LinkedList.Ends.{ends-Represents, Circle, next_circular-Circle, first_or, last_or}
use round.OrderedList.{NodeCompare, less, greater, add, is_greater}
use round.OrderedList.Add.{add-place, place}
use round.Text.{CString}
use round.Ring.{gethash, addnode, gethandlenode}
use round.Ring.Hash.{IsHashed}
use round.Ring.Linked.{
  addnode_linked, gethandlenode_linked, addnode_linked-Represents, gethandlenode_linked-eq,
}

-- No node is in a list.
abbrev alone : Store
alone = record { next = λ n. n; prev = λ n. n; head_flag = λ n. false; freed = [] }

alone-IsLinked : IsLinked alone
alone-IsLinked = record {
  prev_next = λ n. refl;
  next_prev = λ n. refl;
  null_next = refl;
  null_prev = refl;
}

abbrev empty : Store
empty = (header_init alone 9).0

empty-Represents : Represents empty 9 []
empty-Represents = header_init-Represents alone 9 alone-IsLinked (omega arith) refl

one-IsFresh : IsFresh empty [] 1
unfolding header_init
one-IsFresh = ((omega arith, refl), tt)

abbrev one : Store
one = (addlast empty 9 1).0

one-Represents : Represents one 9 (1 ∷ [])
one-Represents = addlast-Represents empty-Represents 1 one-IsFresh

two-IsFresh : IsFresh one (1 ∷ []) 2
unfolding header_init addlast insert
two-IsFresh = ((omega arith, refl), omega arith)

abbrev two : Store
two = (addlast one 9 2).0

two-Represents : Represents two 9 (1 ∷ 2 ∷ [])
two-Represents = addlast-Represents one-Represents 2 two-IsFresh

addlast-Represents_test : Represents (addlast one 9 2).0 9 ((1 ∷ []) ++ 2 ∷ [])
addlast-Represents_test = addlast-Represents one-Represents 2 two-IsFresh

three-IsNode : IsNode two 3
unfolding header_init addlast insert
three-IsNode = (omega arith, refl)

-- 3 goes between 1 and 2.
insert-Represents_example :
    Represents (insert two 1 3).0 9 (insert_from 9 1 3 (erase 3 (1 ∷ 2 ∷ [])))
insert-Represents_example =
    insert-Represents two-Represents 3 three-IsNode 1 (omega arith) (omega arith)

inserted : insert_from 9 1 3 (erase 3 (1 ∷ 2 ∷ [])) ≡ 1 ∷ 3 ∷ 2 ∷ []
unfolding insert_from erase
inserted = refl

remove-Represents_example : Represents (remove two 1).0 9 (erase 1 (1 ∷ 2 ∷ []))
remove-Represents_example = remove-Represents two-Represents 1 (omega arith) (omega arith)

size-length_test : size 3 two 9 ≡ some (length {A = ℕ} (1 ∷ 2 ∷ []))
size-length_test = size-length two-Represents 3 (omega arith) (omega arith)

get-get_or_test : get two 9 1 ≡ get_or (1 ∷ 2 ∷ []) 1 0
get-get_or_test = get-get_or two-Represents 1

ends-Represents_test :
    (getfirst two 9 ≡ first_or (1 ∷ 2 ∷ [])) × (getlast two 9 ≡ last_or (1 ∷ 2 ∷ []))
ends-Represents_test = ends-Represents two 9 (1 ∷ 2 ∷ []) two-Represents

next_circular-Circle_test : Circle (next_circular two) 1 1 (2 ∷ [])
next_circular-Circle_test = next_circular-Circle two 9 1 (2 ∷ []) two-Represents

clear-Represents_example :
    (t : Store) × (clear 3 two 9 ≡ some (t, true))
    × Represents t 9 []
    × (t.freed ≡ reverse (1 ∷ 2 ∷ []) ++ two.freed)
clear-Represents_example = clear-Represents 9 3 (1 ∷ 2 ∷ []) two-Represents (omega arith)

-- Nodes ordered by their addresses.
abbrev by_address : ℕ → ℕ → NodeCompare
by_address x y = if ltb x y then greater else less

three-IsFresh : IsFresh two (1 ∷ 2 ∷ []) 3
three-IsFresh = (three-IsNode, omega arith)

add-place_example :
    (t : Store) × (add 3 two (record { sorted_list = 9; cmp_func = some by_address }) 3
      ≡ some (t, true))
    × Represents t 9 (place (λ x. is_greater (by_address x 3)) 3 (1 ∷ 2 ∷ []))
add-place_example = add-place two-Represents 3 three-IsFresh by_address 3 (omega arith)

-- The hash of a node is its address, one byte.
abbrev hash_byte : ℕ → CString
hash_byte n = some (n ∷ [])

three-IsHashed : IsHashed hash_byte 3
unfolding gethash
three-IsHashed = (omega arith, 3 ∷ [], refl)

addnode_linked-Represents_example :
    (t : Store) × (addnode_linked hash_byte 3 two 9 3
      ≡ some (t, (addnode hash_byte (1 ∷ 2 ∷ []) 3).1))
    × Represents t 9 (addnode hash_byte (1 ∷ 2 ∷ []) 3).0
addnode_linked-Represents_example =
    addnode_linked-Represents hash_byte two-Represents 3 (omega arith) 3 three-IsNode three-IsHashed

gethandlenode_linked-eq_example :
    gethandlenode_linked hash_byte 3 two 9 (some (2 ∷ []))
    ≡ some (gethandlenode hash_byte (1 ∷ 2 ∷ []) (some (2 ∷ [])))
gethandlenode_linked-eq_example =
    gethandlenode_linked-eq hash_byte two-Represents 3 (omega arith) (some (2 ∷ [])) (omega arith)
