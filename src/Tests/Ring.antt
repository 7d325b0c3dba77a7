-- ===== src/Tests/Ring.antt =====
-- Tests of the consistent hashing ring (util/consistent_hashing_ring.c).
use round.Common.{ℕ, ◌+◌, ◌*◌, ◌≤◌, ◌≡◌, ◌≢◌, ◌⊎◌, refl, true, some, List, [], ◌∷◌, get_or, arith}
use round.Common.Int.{abs}
use round.Text.{CString, strcmp, strcmp_bytes}
use round.Ring.{
  gethash, has_hash, compfunc, hasnode, addnode, removenode, getequalnode, is_below, handle_from,
  gethandlenode, getlastnode,
}
use round.OrderedList.{is_greater}
use round.OrderedList.Add.{place}
use round.LinkedList.Chain.{erase}
use round.Ring.Hash.{IsHashed, IsRing, addnode-IsRing}
use round.Ring.Handle.{owner, gethandlenode-owner, gethandlenode-addnode, gethandlenode-removenode}
use round.Ring.Offset.{
  getoffsetnode, getnextnode, getprevnode, getforwardnodedistance, getbackwardnodedistance,
  getminnodedistance,
}
use round.Ring.Offset.Step.{getprevnode-getnextnode}
use round.Ring.Offset.Distance.{getoffsetnode-distance, abs-getminnodedistance}

-- The hash of a node is its address, one byte.
abbrev by_address : ℕ → CString
by_address n = some (n ∷ [])

abbrev three : List ℕ
three = 10 ∷ 20 ∷ 30 ∷ []

hashed : (n : ℕ) → n ≢ 0 → IsHashed by_address n
unfolding gethash
hashed n n0 = (n0, n ∷ [], ground (arith, n0))

three-IsRing : IsRing by_address three
unfolding gethash strcmp strcmp_bytes
three-IsRing = record {
  hashed = (hashed 10 (omega arith), (hashed 20 (omega arith), (hashed 30 (omega arith), tt)));
  ascending = ((refl, (refl, tt)), ((refl, tt), (tt, tt)));
}

addnode-IsRing_example : IsRing by_address (addnode by_address three 25).0
addnode-IsRing_example = addnode-IsRing by_address 25 (hashed 25 (omega arith)) three three-IsRing

added : addnode by_address three 25 ≡ (10 ∷ 20 ∷ 25 ∷ 30 ∷ [], true)
unfolding addnode hasnode compfunc gethash strcmp place is_greater has_hash strcmp_bytes
added = refl

removed : removenode by_address three 20 ≡ (10 ∷ 30 ∷ [], true)
unfolding removenode getequalnode has_hash gethash strcmp erase strcmp_bytes
removed = refl

gethandlenode-owner_example :
    gethandlenode by_address three (some (25 ∷ []))
    ≡ owner by_address (some (25 ∷ [])) (getlastnode three) three
gethandlenode-owner_example =
    gethandlenode-owner by_address (some (25 ∷ [])) three three-IsRing.ascending

handled :
    (gethandlenode by_address three (some (25 ∷ [])) ≡ 20)
    × (gethandlenode by_address three (some (5 ∷ [])) ≡ 30)
unfolding gethandlenode handle_from is_below gethash strcmp getlastnode strcmp_bytes
handled = (refl, refl)

gethandlenode-addnode_example :
    (gethandlenode by_address (addnode by_address three 25).0 (some (27 ∷ [])) ≡ 25)
    ⊎ (gethandlenode by_address (addnode by_address three 25).0 (some (27 ∷ []))
        ≡ gethandlenode by_address three (some (27 ∷ [])))
gethandlenode-addnode_example =
    gethandlenode-addnode by_address three three-IsRing 25 (some (27 ∷ []))
      (hashed 25 (omega arith))

other_node : gethandlenode by_address three (some (35 ∷ [])) ≢ getequalnode by_address three 20
unfolding gethandlenode handle_from is_below gethash strcmp getlastnode getequalnode has_hash
    strcmp_bytes
other_node = omega arith

gethandlenode-removenode_example :
    gethandlenode by_address (removenode by_address three 20).0 (some (35 ∷ []))
    ≡ gethandlenode by_address three (some (35 ∷ []))
gethandlenode-removenode_example =
    gethandlenode-removenode by_address three three-IsRing 20 (some (35 ∷ [])) other_node

getprevnode-getnextnode_test :
    (m : ℕ) × (getnextnode by_address three (get_or three 2 0) ≡ some m)
    × (getprevnode by_address three m ≡ some (get_or three 2 0))
getprevnode-getnextnode_test = getprevnode-getnextnode by_address three three-IsRing 2 (omega arith)

getoffsetnode-distance_example :
    (getoffsetnode by_address 5 three 10 (getforwardnodedistance by_address three 10 30) ≡ some 30)
    × (getoffsetnode by_address 5 three 10 (getbackwardnodedistance by_address three 10 30)
        ≡ some 30)
    × (getoffsetnode by_address 5 three 10 (getminnodedistance by_address three 10 30) ≡ some 30)
getoffsetnode-distance_example =
    getoffsetnode-distance by_address three three-IsRing 0 2 (omega arith) (omega arith)
      (omega arith) 5 (omega arith)

abs-getminnodedistance_example :
    (abs (getminnodedistance by_address three 10 30)
      ≤ abs (getforwardnodedistance by_address three 10 30))
    × (abs (getminnodedistance by_address three 10 30)
        ≤ abs (getbackwardnodedistance by_address three 10 30))
    × (2 * abs (getminnodedistance by_address three 10 30) ≤ 3)
    × (abs (getforwardnodedistance by_address three 10 30)
          + abs (getbackwardnodedistance by_address three 10 30)
        ≡ 3)
abs-getminnodedistance_example =
    abs-getminnodedistance by_address three three-IsRing 0 2 (omega arith) (omega arith)
      (omega arith)
