-- ===== src/Ring/Offset/Step.antt =====
-- The index that an offset gives, on the ring of src/round/util/consistent_hashing_ring.c.
use native.Mathlib.Decide.{dec_le}
use native.Mathlib.Nat.{mod-eq_of_lt, mod-lt}
use round.Common.{
  ℕ, zero, suc, ◌+◌, ◌-◌, ◌*◌, ◌%◌, ◌<◌, ◌≤◌, ◌≡◌, refl, ap, ◌∙◌, true, false, inl, inr, some, List,
  [], ◌∷◌, arith, Option-cases, All, length, get_or,
}
use round.Common.Int.{pos, negsuc, ◌+ℤ◌}
use round.Text.{CString}
use round.Text.Order.{strcmp-eq, strcmp-flip}
use round.Ring.{gethash, has_hash, index_from, getnodeindex}
use round.Ring.Hash.{IsRing, IsHashed, Before, IsAscending}
use round.Ring.Offset.{rem, raise_from, offset_index, getoffsetnode, getnextnode, getprevnode}

raise_from_pos : (fuel size i : ℕ) → 0 < fuel → raise_from fuel size (pos i) ≡ some (pos i)
unfolding raise_from
raise_from_pos zero size i h = elim h [ ]
raise_from_pos (suc fuel) size i h = refl

raise_step : (size n : ℕ) → size < n + 1 → negsuc n +ℤ pos size ≡ negsuc (n - size)
unfolding ◌+ℤ◌
raise_step size n h = ground arith

raise_last : (size n : ℕ) → n + 1 ≤ size → negsuc n +ℤ pos size ≡ pos (size - (n + 1))
unfolding ◌+ℤ◌
raise_last size n h = ground arith

-- The loop adds a multiple of the size, and stops below the size.
raise_from_lem :
    (fuel size n : ℕ)
    → 0 < size
    → n + 1 < fuel
    → (r : ℕ) × (q : ℕ) × (raise_from fuel size (negsuc n) ≡ some (pos r))
      × (r + n + 1 ≡ q * size)
      × (r < size)
unfolding raise_from
raise_from_lem zero size n s lt = absurd (omega arith)
raise_from_lem (suc fuel) size n s lt = elim (dec_le (n + 1) size) [
  | yes h ↦ (
    size - (n + 1),
    1,
    rw (raise_last size n h) (raise_from_pos fuel size (size - (n + 1)) (omega arith)),
    omega arith,
    omega arith,
  )
  | no h ↦
      let (r, q, e, c, b) = raise_from_lem fuel size (n - size) s (omega arith) in
      (r, q + 1, rw (raise_step size n (omega arith)) e, omega arith, b)
]

-- An index below 0 comes back to the one place on the ring that lies so far before the start.
offset_index_neg :
    (fuel size n : ℕ)
    → 0 < size
    → n + 1 < fuel
    → (r : ℕ) × (q : ℕ) × (offset_index fuel size (negsuc n) ≡ some (pos r))
      × (r + n + 1 ≡ q * size)
      × (r < size)
unfolding offset_index rem
offset_index_neg fuel size n s lt =
    let (r, q, e, c, b) = raise_from_lem fuel size n s lt in
    (r, q, rw e (rw (mod-eq_of_lt b, mod-eq_of_lt b) refl), c, b)

offset_index_pos : (fuel size i : ℕ) → offset_index fuel size (pos i) ≡ some (pos (i % size))
unfolding offset_index rem
offset_index_pos fuel size i = refl

back_neg : (i n : ℕ) → i < n + 1 → pos i +ℤ negsuc n ≡ negsuc (n - i)
unfolding ◌+ℤ◌
back_neg i n h = ground arith

back_pos : (i n : ℕ) → n + 1 ≤ i → pos i +ℤ negsuc n ≡ pos (i - (n + 1))
unfolding ◌+ℤ◌
back_pos i n h = ground arith

forth : (i n : ℕ) → pos i +ℤ pos n ≡ pos (i + n)
unfolding ◌+ℤ◌
forth i n = ground arith

index_back :
    (fuel size i n : ℕ)
    → i < size
    → n + 2 < fuel
    → (r : ℕ) × (q : ℕ) × (offset_index fuel size (pos i +ℤ negsuc n) ≡ some (pos r))
      × (r + n + 1 ≡ i + q * size)
      × (r < size)
index_back fuel size i n s lt = elim (dec_le (n + 1) i) [
  | yes h ↦ (
    i - (n + 1),
    0,
    rw (back_pos i n h, offset_index_pos fuel size (i - (n + 1)))
        (ap (λ x. some (pos x)) (mod-eq_of_lt (omega arith))),
    omega arith,
    omega arith,
  )
  | no h ↦
      let (r, q, e, c, b) = offset_index_neg fuel size (n - i) (omega arith) (omega arith) in
      (r, q, rw (back_neg i n (omega arith)) e, omega arith, b)
]

module _ (hash_func : ℕ → CString) (ring : List ℕ) (node i : ℕ)
    (found : getnodeindex hash_func ring node ≡ pos i) where
  pub getoffsetnode_forth :
      (fuel n : ℕ)
      → getoffsetnode hash_func fuel ring node (pos n)
        ≡ some (get_or ring ((i + n) % length ring) 0)
  unfolding getoffsetnode
  getoffsetnode_forth fuel n = rw (found, forth i n) refl

  pub getoffsetnode_back :
      (fuel n : ℕ)
      → i < length ring
      → n + 2 < fuel
      → (r : ℕ) × (q : ℕ) × (getoffsetnode hash_func fuel ring node (negsuc n)
          ≡ some (get_or ring r 0))
        × (r + n + 1 ≡ i + q * length ring)
        × (r < length ring)
  unfolding getoffsetnode
  getoffsetnode_back fuel n s lt =
      let (r, q, e, c, b) = index_back fuel (length ring) i n s lt in
      (r, q, rw found (rw e refl), c, b)

pub All-get_or {κ} :
    (P : ℕ → Type κ) (xs : List ℕ) (j : ℕ) → All P xs → j < length xs → P (get_or xs j 0)
All-get_or P [] j h lt = absurd (omega arith)
All-get_or P (x ∷ xs) zero h lt = h.0
All-get_or P (x ∷ xs) (suc j) h lt = All-get_or P xs j h.1 (omega arith)

module _ (hash_func : ℕ → CString) where
  pub has_hash_self :
      (x : ℕ) → IsHashed hash_func x → has_hash hash_func (gethash hash_func x) x ≡ true
  unfolding has_hash
  has_hash_self x (x0, h, e) = rw e (ground (arith, (strcmp-eq h h).1 refl))

  has_hash-Before :
      (x y : ℕ)
      → Before hash_func x y
      → IsHashed hash_func y
      → has_hash hash_func (gethash hash_func y) x ≡ false
  unfolding has_hash
  has_hash-Before x y b (y0, h, e) = elim (Option-cases (gethash hash_func x)) [
    | inl n ↦ rw (n, has_hash) refl
    | inr (g, q) ↦ ground (arith, e, q, b, strcmp-flip g h)
  ]

  index_from_nth :
      (k : ℕ) (xs : List ℕ) (j : ℕ)
      → All (IsHashed hash_func) xs
      → IsAscending hash_func xs
      → j < length xs
      → index_from hash_func k xs (gethash hash_func (get_or xs j 0)) ≡ pos (k + j)
  unfolding index_from
  index_from_nth k [] j hs a lt = absurd (omega arith)
  index_from_nth k (x ∷ xs) zero hs a lt = rw (has_hash_self x hs.0) (ap pos (omega arith))
  index_from_nth k (x ∷ xs) (suc j) hs a lt =
      rw
        (has_hash-Before x (get_or xs j 0) (All-get_or (Before hash_func x) xs j a.0 (omega arith))
          (All-get_or (IsHashed hash_func) xs j hs.1 (omega arith)))
        (index_from_nth (k + 1) xs j hs.1 a.1 (omega arith) ∙ ap pos (omega arith))

  -- On a ring the index of the node at a place is that place.
  pub getnodeindex_nth :
      (ring : List ℕ) (j : ℕ)
      → IsRing hash_func ring
      → j < length ring
      → getnodeindex hash_func ring (get_or ring j 0) ≡ pos j
  unfolding getnodeindex
  getnodeindex_nth ring j r lt =
      let (x0, h, e) = All-get_or (IsHashed hash_func) ring j r.hashed lt in
      rw (e, getnodeindex)
        (rw e at (index_from_nth 0 ring j r.hashed r.ascending lt) ∙ ap pos (omega arith))

-- One step back undoes one step forward, on the places of a ring.
step_back : (size j r q : ℕ) → j < size → r < size → r + 0 + 1 ≡ (j + 1) % size + q * size → r ≡ j
step_back size j r zero lt b e = grind arith
step_back size j r (suc zero) lt b e = grind arith
step_back size j r (suc (suc q)) lt b e = absurd (grind arith)

module _ (hash_func : ℕ → CString) (ring : List ℕ) (r : IsRing hash_func ring) where
  -- For a node at a given place of a ring in order, getnextnode ends with a node whose getprevnode
  -- is the node at that place.
  pub getprevnode-getnextnode :
      (j : ℕ)
      → j < length ring
      → (m : ℕ) × (getnextnode hash_func ring (get_or ring j 0) ≡ some m)
        × (getprevnode hash_func ring m ≡ some (get_or ring j 0))
  unfolding getnextnode getprevnode
  getprevnode-getnextnode j lt =
      let size = length ring in
      let i = (j + 1) % size in
      let within : i < size = mod-lt (j + 1) (omega arith) in
      let (k, q, e, c, b) =
        getoffsetnode_back hash_func ring (get_or ring i 0) i
          (getnodeindex_nth hash_func ring i r within) 3 0 within (omega arith) in
      let same : k ≡ j = step_back size j k q lt b c in
      (
        get_or ring i 0,
        getoffsetnode_forth hash_func ring (get_or ring j 0) j
            (getnodeindex_nth hash_func ring j r lt) 3 1,
        e ∙ ap (λ p. some (get_or ring p 0)) same,
      )
