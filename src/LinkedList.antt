-- ===== src/LinkedList.antt =====
-- The intrusive circular list of src/round/util/list.c, over an explicit store of nodes.
-- A pointer is a number, and 0 is NULL. The links of a node that `free` has taken are logged in
-- `freed`, in the order of the calls.
pub mod Links
pub mod Chain
pub mod Refine
pub mod Walk
pub mod Clear
pub mod Ends
use round.Common.{
  ℕ, zero, suc, ◌+◌, ◌-◌, ◌%◌, ◌^◌, ltb, Bool, true, false, ◌||◌, Option, none, some, List, [], ◌∷◌,
  ◌==◌, if◌then◌else◌, update,
}

pub record Store : Type 0 where
  pub next : ℕ → ℕ
  pub prev : ℕ → ℕ
  pub head_flag : ℕ → Bool
  pub freed : List ℕ

-- `free(node)`
unfoldable pub free : Store → ℕ → Store
free s node = record s { freed = node ∷ s.freed }

-- `round_list_header_init`; the object part of the structure is left out.
unfoldable pub header_init : Store → ℕ → Store × Bool
unfolding update
header_init s list = if list == 0 then (s, false) else (
  record s {
    head_flag = update s.head_flag list true;
    next = update s.next list list;
    prev = update s.prev list list;
  },
  true,
)

unfoldable pub node_init : Store → ℕ → Store × Bool
unfolding update
node_init s list = if list == 0 then (s, false) else (
  record s {
    head_flag = update s.head_flag list false;
    next = update s.next list list;
    prev = update s.prev list list;
  },
  true,
)

-- The two writes through the neighbours, and then those to the node itself.
unfoldable pub unlink_next : Store → ℕ → Store
unfolding update
unlink_next s node = record s { next = update s.next (s.prev node) (s.next node) }

unfoldable pub unlink_prev : Store → ℕ → Store
unfolding update
unlink_prev s node = record s { prev = update s.prev (s.next node) (s.prev node) }

unfoldable pub self_link : Store → ℕ → Store
unfolding update
self_link s node = record s { next = update s.next node node; prev = update s.prev node node }

unfoldable pub remove : Store → ℕ → Store × Bool
unfolding unlink_next unlink_prev self_link
remove s node =
    if node == 0
    then (s, false)
    else if s.prev node == 0 || s.next node == 0
    then (s, false)
    else (self_link (unlink_prev (unlink_next s node) node) node, true)

-- The four assignments of `round_list_insert`, each over the store that the one before it left.
unfoldable pub link_after : Store → ℕ → ℕ → Store
unfolding update
link_after s prev_node node =
    let s1 : Store = record s { prev = update s.prev node prev_node } in
    let s2 : Store = record s1 { next = update s1.next node (s1.next prev_node) } in
    let s3 : Store = record s2 { prev = update s2.prev (s2.next prev_node) node } in
    record s3 { next = update s3.next prev_node node }

unfoldable pub insert : Store → ℕ → ℕ → Store × Bool
unfolding link_after remove
insert s prev_node node =
    if prev_node == 0 || node == 0
    then (s, false)
    else (link_after (remove s node).0 prev_node node, true)

unfoldable pub addfirst : Store → ℕ → ℕ → Store × Bool
addfirst s list node = if list == 0 || node == 0 then (s, false) else ((insert s list node).0, true)

unfoldable pub addlast : Store → ℕ → ℕ → Store × Bool
addlast s list node =
    if list == 0 || node == 0
    then (s, false)
    else if s.prev list == 0
    then (s, false)
    else ((insert s (s.prev list) node).0, true)

unfoldable pub next : Store → ℕ → ℕ
next s node =
    if node == 0
    then 0
    else if s.next node == 0
    then 0
    else if s.head_flag (s.next node)
    then 0
    else s.next node

unfoldable pub prev : Store → ℕ → ℕ
prev s node =
    if node == 0
    then 0
    else if s.prev node == 0
    then 0
    else if s.head_flag (s.prev node)
    then 0
    else s.prev node

unfoldable pub next_circular : Store → ℕ → ℕ
next_circular s node =
    if node == 0
    then 0
    else if s.next node == 0
    then 0
    else s.next (if s.head_flag (s.next node) then s.next node else node)

unfoldable pub prev_circular : Store → ℕ → ℕ
prev_circular s node =
    if node == 0
    then 0
    else if s.prev node == 0
    then 0
    else s.prev (if s.head_flag (s.prev node) then s.prev node else node)

unfoldable pub getfirst : Store → ℕ → ℕ
unfolding next
getfirst s list = if list == 0 then 0 else next s list

unfoldable pub getlast : Store → ℕ → ℕ
unfolding prev
getlast s list = if list == 0 then 0 else prev s list

-- The count of `round_list_size` is an `int`: its 32 bits wrap, and at the return a value from 2 ^
-- 31 on, a negative count, is read as a `size_t`.
unfoldable pub node_count : ℕ → ℕ
node_count count = if ltb count (2 ^ 31) then count else 2 ^ 64 - 2 ^ 32 + count

-- The loop of `round_list_size`; `none` means that the fuel ran out.
unfoldable pub size_from : ℕ → Store → ℕ → ℕ → Option ℕ
unfolding next node_count
size_from zero s node count = none
size_from (suc fuel) s node count =
    let rest = size_from fuel s (next s node) ((count + 1) % 2 ^ 32) in
    if node == 0 then some (node_count count) else rest

unfoldable pub size : ℕ → Store → ℕ → Option ℕ
unfolding size_from next
size fuel s list = if list == 0 then some 0 else size_from fuel s (next s list) 0

-- The loop of `round_list_get` makes `index` rounds at most, and stops at NULL.
unfoldable pub get_from : Store → ℕ → ℕ → ℕ
unfolding next
get_from s node zero = node
get_from s node (suc index) =
    let rest = get_from s (next s node) index in if node == 0 then node else rest

unfoldable pub get : Store → ℕ → ℕ → ℕ
unfolding get_from next
get s list index = if list == 0 then 0 else get_from s (next s list) index

-- The `while` loop of `round_list_clear`, with `free` for the destructor.
unfoldable pub clear_from : ℕ → Store → ℕ → ℕ → Option Store
unfolding next remove free
clear_from zero s list node = none
clear_from (suc fuel) s list node =
    let s' : Store = free (remove s node).0 node in
    let rest = clear_from fuel s' list (next s' list) in if node == 0 then some s else rest

unfoldable pub clear : ℕ → Store → ℕ → Option (Store × Bool)
unfolding clear_from next
clear fuel s list =
    if list == 0
    then some (s, false)
    else elim (clear_from fuel s list (next s list)) [ none ↦ none | some s' ↦ some (s', true) ]
