-- ===== src/Ring/Offset.antt =====
-- Neighbours and distances on the ring of util/consistent_hashing_ring.c. An index or an offset is
-- an integer; a difference that the source takes in `size_t` wraps at 2 ^ 64 before it is read
-- back as an `off_t`.
pub mod Step
pub mod Distance
use round.Common.{
  ℕ, zero, suc, ◌+◌, ◌-◌, ◌%◌, ◌^◌, Bool, true, false, Option, none, some, List, ltb, ◌==◌,
  if◌then◌else◌, length, get_or,
}
use round.Common.Int.{ℤ, pos, negsuc, ◌+ℤ◌, sub_ℕ, pos_part, neg_part, is_neg, abs, ltb_ℤ}
use round.Text.{CString}
use round.Ring.{getnodeindex}

-- `round_consistenthashing_ring_getnode`; an index below 0 is a large `size_t`, past the end.
unfoldable pub getnode : List ℕ → ℤ → ℕ
getnode ring (pos n) = get_or ring n 0
getnode ring (negsuc n) = 0

-- The remainder of C, which has the sign of the dividend.
unfoldable pub rem : ℤ → ℕ → ℤ
rem (pos n) m = pos (n % m)
rem (negsuc n) m = sub_ℕ 0 (suc n % m)

-- `while (offsetNodeIndex < 0) { offsetNodeIndex += ringSize; }`
unfoldable pub raise_from : ℕ → ℕ → ℤ → Option ℤ
raise_from zero size idx = none
raise_from (suc fuel) size idx =
    let rest = raise_from fuel size (idx +ℤ pos size) in if is_neg idx then rest else some idx

unfoldable pub offset_index : ℕ → ℕ → ℤ → Option ℤ
unfolding raise_from rem
offset_index fuel size idx =
    if is_neg idx
    then elim (raise_from fuel size idx) [ none ↦ none | some i ↦ some (rem (rem i size) size) ]
    else some (rem idx size)

abbrev pub word : ℕ
word = 2 ^ 64

-- A `size_t` read as an `off_t`.
unfoldable pub to_off_t : ℕ → ℤ
to_off_t x = if ltb x (2 ^ 63) then pos x else sub_ℕ x word

-- The three branches of the forward distance, between two indices that were found.
unfoldable pub clockwise_offset : ℕ → ℕ → ℕ → ℤ
unfolding to_off_t
clockwise_offset size first last =
    if first == last
    then pos 0
    else if ltb last first
    then to_off_t (((last + size) % word + word - first) % word)
    else sub_ℕ last first

unfoldable pub counter_clockwise_offset : ℕ → ℕ → ℕ → ℤ
unfolding to_off_t
counter_clockwise_offset size first last =
    if first == last
    then pos 0
    else if ltb last first
    then sub_ℕ last first
    else to_off_t ((last + word - (first + size) % word) % word)

module _ (hash_func : ℕ → CString) where
  -- `round_consistenthashing_ring_getoffsetnode`; the outer `none` means that the fuel ran out.
  unfoldable pub getoffsetnode : ℕ → List ℕ → ℕ → ℤ → Option ℕ
  unfolding offset_index getnode
  getoffsetnode fuel ring node offset =
      let node_index : ℤ = getnodeindex hash_func ring node in
      if is_neg node_index
      then some 0
      else elim (offset_index fuel (length ring) (node_index +ℤ offset)) [
        | none ↦ none
        | some i ↦ some (getnode ring i)
      ]

  unfoldable pub getnextnode : List ℕ → ℕ → Option ℕ
  unfolding getoffsetnode
  getnextnode ring node = getoffsetnode 3 ring node (pos 1)

  unfoldable pub getprevnode : List ℕ → ℕ → Option ℕ
  unfolding getoffsetnode
  getprevnode ring node = getoffsetnode 3 ring node (negsuc 0)

  unfoldable pub getforwardnodedistance : List ℕ → ℕ → ℕ → ℤ
  unfolding clockwise_offset
  getforwardnodedistance ring first_node last_node =
      let first : ℤ = getnodeindex hash_func ring first_node in
      let last : ℤ = getnodeindex hash_func ring last_node in
      if is_neg first
      then pos 0
      else if is_neg last
      then pos 0
      else clockwise_offset (length ring) (pos_part first) (pos_part last)

  unfoldable pub getbackwardnodedistance : List ℕ → ℕ → ℕ → ℤ
  unfolding counter_clockwise_offset
  getbackwardnodedistance ring first_node last_node =
      let first : ℤ = getnodeindex hash_func ring first_node in
      let last : ℤ = getnodeindex hash_func ring last_node in
      if is_neg first
      then pos 0
      else if is_neg last
      then pos 0
      else counter_clockwise_offset (length ring) (pos_part first) (pos_part last)

  -- `round_consistenthashing_ring_getminnodedistance`
  unfoldable pub getminnodedistance : List ℕ → ℕ → ℕ → ℤ
  unfolding abs
  getminnodedistance ring first_node last_node =
      let clockwise : ℤ = getforwardnodedistance ring first_node last_node in
      let counter_clockwise : ℤ = getbackwardnodedistance ring first_node last_node in
      if ltb (abs clockwise) (abs counter_clockwise) then clockwise else counter_clockwise
