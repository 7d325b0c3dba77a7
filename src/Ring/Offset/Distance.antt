-- ===== src/Ring/Offset/Distance.antt =====
-- Distances on the ring of src/round/util/consistent_hashing_ring.c as offsets.
use native.Mathlib.Nat.{mod-eq_of_lt}
use round.Common.{
  ℕ, zero, suc, ◌+◌, ◌-◌, ◌*◌, ◌%◌, ◌^◌, ◌<◌, ◌≤◌, ◌≡◌, refl, ap, ◌∙◌, ◌⊎◌, inl, inr, some, List,
  arith, ◌==◌, ltb, if◌then◌else◌, Bool-cases, length, get_or,
}
use round.Common.Int.{pos, negsuc, abs}
use round.Text.{CString}
use round.Ring.Hash.{IsRing}
use round.Ring.Offset.{
  clockwise_offset, counter_clockwise_offset, getoffsetnode, getforwardnodedistance,
  getbackwardnodedistance, getminnodedistance,
}
use round.Ring.Offset.Step.{getnodeindex_nth, getoffsetnode_forth, getoffsetnode_back}

-- The distance in places, going forward.
abbrev places : ℕ → ℕ → ℕ → ℕ
places size i j = if ltb j i then j + size - i else j - i

clockwise_lem :
    (size i j : ℕ)
    → i < size
    → j < size
    → size < 2 ^ 31
    → clockwise_offset size i j ≡ pos (places size i j)
unfolding clockwise_offset
clockwise_lem size i j hi hj hs = ground arith

counter_clockwise_lem :
    (size i j : ℕ)
    → i < size
    → j < size
    → size < 2 ^ 31
    → counter_clockwise_offset size i j
      ≡ (if i == j then pos 0 else negsuc (size - places size i j - 1))
unfolding counter_clockwise_offset
counter_clockwise_lem size i j hi hj hs = ground arith

-- The place that a backward offset reaches.
land :
    (size i j r q : ℕ)
    → i < size
    → j < size
    → r < size
    → r + (size - places size i j - 1) + 1 ≡ i + q * size
    → r ≡ j
land size i j r zero hi hj hr e = ground arith
land size i j r (suc zero) hi hj hr e = ground arith
land size i j r (suc (suc q)) hi hj hr e = absurd (grind arith)

turn : (size i j : ℕ) → i < size → j < size → (i + places size i j) % size ≡ j
turn size i j hi hj = elim (Bool-cases (ltb j i)) [
  | inl e ↦ rw e (ap (λ x. x % size) (sum (ground arith)) ∙ grind arith)
  | inr e ↦ rw e (ap (λ x. x % size) (ground arith) ∙ mod-eq_of_lt hj)
]
  where
    sum : j < i → i + (j + size - i) ≡ j + size
    sum h = omega arith

module _ (hash_func : ℕ → CString) (ring : List ℕ) (r : IsRing hash_func ring) (i j : ℕ)
    (hi : i < length ring) (hj : j < length ring) (small : length ring < 2 ^ 31) where
  abbrev first_node : ℕ
  first_node = get_or ring i 0

  abbrev last_node : ℕ
  last_node = get_or ring j 0

  abbrev size : ℕ
  size = length ring

  forward_lem : getforwardnodedistance hash_func ring first_node last_node ≡ pos (places size i j)
  unfolding getforwardnodedistance
  forward_lem =
      rw (getnodeindex_nth hash_func ring i r hi, getnodeindex_nth hash_func ring j r hj)
        (clockwise_lem size i j hi hj small)

  backward_lem :
      getbackwardnodedistance hash_func ring first_node last_node
      ≡ (if i == j then pos 0 else negsuc (size - places size i j - 1))
  unfolding getbackwardnodedistance
  backward_lem =
      rw (getnodeindex_nth hash_func ring i r hi, getnodeindex_nth hash_func ring j r hj)
        (counter_clockwise_lem size i j hi hj small)

  reach_forth :
      (fuel p : ℕ)
      → p ≡ places size i j
      → getoffsetnode hash_func fuel ring first_node (pos p) ≡ some last_node
  reach_forth fuel p e =
      getoffsetnode_forth hash_func ring first_node i (getnodeindex_nth hash_func ring i r hi) fuel
        p
      ∙ ap (λ x. some (get_or ring x 0)) (ap (λ x. (i + x) % size) e ∙ turn size i j hi hj)

  reach_back :
      (fuel p : ℕ)
      → size + 2 ≤ fuel
      → p ≡ size - places size i j - 1
      → getoffsetnode hash_func fuel ring first_node (negsuc p) ≡ some last_node
  reach_back fuel p f e =
      let (k, q, g, c, b) =
        getoffsetnode_back hash_func ring first_node i (getnodeindex_nth hash_func ring i r hi) fuel
          p hi (ground arith) in
      g ∙ ap (λ x. some (get_or ring x 0)) (land size i j k q hi hj b (rw (← e) c))

  min_cases :
      (getminnodedistance hash_func ring first_node last_node
        ≡ getforwardnodedistance hash_func ring first_node last_node)
      ⊎ (getminnodedistance hash_func ring first_node last_node
          ≡ getbackwardnodedistance hash_func ring first_node last_node)
  unfolding getminnodedistance
  min_cases =
      elim (Bool-cases (
        ltb (abs (getforwardnodedistance hash_func ring first_node last_node))
          (abs (getbackwardnodedistance hash_func ring first_node last_node)))) [
            | inl e ↦ rw e (inl refl)
            | inr e ↦ rw e (inr refl)
          ]

  -- For two nodes at given places of a ring in order with fewer than 2 ^ 31 nodes, which the int
  -- that counts them holds, the forward, the backward and the least distance from the first to the
  -- second are offsets that lead from the first to the second, with fuel of two more than the
  -- number of nodes.
  pub getoffsetnode-distance :
      (fuel : ℕ)
      → length ring + 2 ≤ fuel
      → (getoffsetnode hash_func fuel ring first_node
            (getforwardnodedistance hash_func ring first_node last_node)
          ≡ some last_node)
        × (getoffsetnode hash_func fuel ring first_node
              (getbackwardnodedistance hash_func ring first_node last_node)
            ≡ some last_node)
        × (getoffsetnode hash_func fuel ring first_node
              (getminnodedistance hash_func ring first_node last_node)
            ≡ some last_node)
  getoffsetnode-distance fuel f = (forth, back, shortest)
    where
      forth :
          getoffsetnode hash_func fuel ring first_node
            (getforwardnodedistance hash_func ring first_node last_node)
          ≡ some last_node
      forth = rw forward_lem (reach_forth fuel (places size i j) refl)

      back :
          getoffsetnode hash_func fuel ring first_node
            (getbackwardnodedistance hash_func ring first_node last_node)
          ≡ some last_node
      back = rw backward_lem (elim (Bool-cases (i == j)) [
        | inl e ↦ rw e (reach_forth fuel 0 (ground arith))
        | inr e ↦ rw e (reach_back fuel (size - places size i j - 1) f refl)
      ])

      shortest :
          getoffsetnode hash_func fuel ring first_node
            (getminnodedistance hash_func ring first_node last_node)
          ≡ some last_node
      shortest = elim min_cases [ inl e ↦ rw e forth | inr e ↦ rw e back ]

  -- For two nodes at given places of a ring in order with fewer than 2 ^ 31 nodes, which the int
  -- that counts them holds, the least distance is at most the forward and the backward distance
  -- and at most half a turn, and those two make up one turn, or nothing where the places are
  -- equal.
  pub abs-getminnodedistance :
      (abs (getminnodedistance hash_func ring first_node last_node)
        ≤ abs (getforwardnodedistance hash_func ring first_node last_node))
      × (abs (getminnodedistance hash_func ring first_node last_node)
          ≤ abs (getbackwardnodedistance hash_func ring first_node last_node))
      × (2 * abs (getminnodedistance hash_func ring first_node last_node) ≤ length ring)
      × (abs (getforwardnodedistance hash_func ring first_node last_node)
            + abs (getbackwardnodedistance hash_func ring first_node last_node)
          ≡ (if i == j then 0 else length ring))
  unfolding getminnodedistance
  abs-getminnodedistance = rw (forward_lem, backward_lem) (ground arith)
