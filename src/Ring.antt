-- ===== src/Ring.antt =====
-- The consistent hashing ring of src/round/util/consistent_hashing_ring.c and its nodes
-- (consistent_hashing_node.c). The nodes of the ordered list stand for the ring, first node first;
-- `round.Ring.Linked` has the operations over the links. The hash function of a node is a callback
-- of the program, so the whole module takes it as a parameter.
pub mod Hash
pub mod Handle
pub mod Offset
pub mod Linked
use Prim.Native.Nat.{lt, eq, gt}
use round.Common.{
  ℕ, zero, suc, ◌+◌, ◌-◌, ◌%◌, ◌^◌, Bool, true, false, not, ◌&&◌, ◌||◌, Option, none, some, List,
  [], ◌∷◌, ltb, leb, ◌==◌, if◌then◌else◌, length, get_or,
}
use round.Common.Int.{ℤ, pos, negsuc, ◌+ℤ◌, sub_ℕ, pos_part, neg_part, is_neg, abs, ltb_ℤ}
use round.Text.{CString, strcmp, is_zero}
use round.OrderedList.{NodeCompare, same, less, greater, is_greater}
use round.OrderedList.Add.{place}
use round.LinkedList.Chain.{erase}

-- The comparison of two hashes, with the early return where one is missing.
unfoldable pub compare_hash : CString → CString → NodeCompare
compare_hash none other_hash = same
compare_hash (some this_hash) none = same
compare_hash (some this_hash) (some other_hash) = elim (strcmp (some this_hash) (some other_hash)) [
  | eq ↦ same
  | gt ↦ less
  | lt ↦ greater
]

-- `round_consistenthashing_ring_getlastnode`
unfoldable pub getlastnode : List ℕ → ℕ
getlastnode ring = if length ring == 0 then 0 else get_or ring (length ring - 1) 0

module _ (hash_func : ℕ → CString) where
  -- `round_consistenthashing_node_gethash`
  unfoldable pub gethash : ℕ → CString
  gethash node = if node == 0 then none else hash_func node

  -- `round_consistenthashing_node_compfunc`
  unfoldable pub compfunc : ℕ → ℕ → NodeCompare
  unfolding compare_hash
  compfunc this_node other_node =
      if this_node == 0 || other_node == 0
      then same
      else compare_hash (gethash this_node) (gethash other_node)

  -- `round_consistenthashing_node_equals`
  unfoldable pub equals : ℕ → ℕ → Bool
  unfolding compfunc
  equals this_node other_node = elim (compfunc this_node other_node) [ same ↦ true | _ ↦ false ]

  -- `if (nodeHash) { if (round_strcmp(targetNodeHash, nodeHash) == 0) … }`
  unfoldable pub has_hash : CString → ℕ → Bool
  has_hash target node = elim (gethash node) [
    | none ↦ false
    | some h ↦ is_zero (strcmp target (some h))
  ]

  -- `round_consistenthashing_ring_getnodebyhashcode`; 0 is NULL.
  unfoldable pub getnodebyhashcode : List ℕ → CString → ℕ
  unfolding has_hash
  getnodebyhashcode [] target = 0
  getnodebyhashcode (node ∷ nodes) target =
      if has_hash target node then node else getnodebyhashcode nodes target

  unfoldable pub getequalnode : List ℕ → ℕ → ℕ
  unfolding getnodebyhashcode
  getequalnode ring node = elim (gethash node) [
    | none ↦ 0
    | some h ↦ getnodebyhashcode ring (some h)
  ]

  -- The loop of `round_consistenthashing_ring_getnodeindex`
  unfoldable pub index_from : ℕ → List ℕ → CString → ℤ
  unfolding has_hash
  index_from idx [] target = negsuc 0
  index_from idx (node ∷ nodes) target =
      if has_hash target node then pos idx else index_from (idx + 1) nodes target

  unfoldable pub getnodeindex : List ℕ → ℕ → ℤ
  unfolding index_from
  getnodeindex ring node = elim (gethash node) [
    | none ↦ negsuc 0
    | some h ↦ index_from 0 ring (some h)
  ]

  -- `round_consistenthashing_ring_hasnode`
  unfoldable pub hasnode : List ℕ → ℕ → Bool
  unfolding getnodeindex
  hasnode ring node = not (is_neg (getnodeindex ring node))

  unfoldable pub addnode : List ℕ → ℕ → List ℕ × Bool
  addnode ring node =
      if node == 0
      then (ring, false)
      else if hasnode ring node
      then (ring, false)
      else (place (λ x. is_greater (compfunc x node)) node ring, true)

  unfoldable pub removenode : List ℕ → ℕ → List ℕ × Bool
  unfolding getequalnode
  removenode ring node =
      if node == 0
      then (ring, false)
      else if getequalnode ring node == 0
      then (ring, false)
      else (erase (getequalnode ring node) ring, true)

  unfoldable pub islastnode : List ℕ → ℕ → Bool
  unfolding getnodeindex
  islastnode ring node =
      if length ring == 0
      then false
      else if is_neg (getnodeindex ring node)
      then false
      else pos_part (getnodeindex ring node) == length ring - 1

  -- `round_strcmp(hashCode, nodeHash) < 0`
  unfoldable pub is_below : CString → ℕ → Bool
  is_below hash_code node = elim (strcmp hash_code (gethash node)) [ lt ↦ true | _ ↦ false ]

  -- The loop of `round_consistenthashing_ring_gethandlenode`, over a ring whose last node is given.
  unfoldable pub handle_from : ℕ → List ℕ → CString → ℕ
  unfolding is_below
  handle_from last_node [] hash_code = last_node
  handle_from last_node (node ∷ []) hash_code = last_node
  handle_from last_node (node ∷ next_node ∷ nodes) hash_code =
      let rest = handle_from last_node (next_node ∷ nodes) hash_code in
      if is_below hash_code node
      then rest
      else if not (is_below hash_code next_node)
      then rest
      else node

  unfoldable pub gethandlenode : List ℕ → CString → ℕ
  gethandlenode ring hash_code = handle_from (getlastnode ring) ring hash_code

  unfoldable pub ishandlenode : List ℕ → ℕ → CString → Bool
  unfolding gethandlenode
  ishandlenode ring node hash_code = node == gethandlenode ring hash_code
