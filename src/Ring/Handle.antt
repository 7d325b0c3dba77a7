-- ===== src/Ring/Handle.antt =====
-- Which node handles a hash code, and what changes when a node comes or goes.
use round.Common.{
  ℕ, ◌≡◌, refl, sym, ap, ◌∙◌, ◌≢◌, Bool, true, false, ◌⊎◌, inl, inr, List, [], ◌∷◌, arith, ◌==◌,
  if◌then◌else◌, Bool-cases, All,
}
use round.Text.{CString}
use round.Text.Order.{strcmp_trans}
use round.LinkedList.Chain.{erase}
use round.LinkedList.Refine.{last}
use round.OrderedList.{is_greater}
use round.OrderedList.Add.{place, any}
use round.Ring.{
  gethash, compfunc, hasnode, addnode, removenode, getequalnode, is_below, getlastnode, handle_from,
  gethandlenode,
}
use round.Ring.Hash.{
  IsHashed, Before, IsAscending, IsRing, addnode_old, addnode_new, addnode-IsRing, erase-IsRing,
  removenode-erase,
}

getlastnode_cons : (x : ℕ) (xs : List ℕ) → getlastnode (x ∷ xs) ≡ last x xs
unfolding getlastnode last
getlastnode_cons x [] = ground arith
getlastnode_cons x (y ∷ xs) = ground (arith, getlastnode_cons y xs)

getlastnode-last : (xs : List ℕ) → getlastnode xs ≡ last 0 xs
getlastnode-last [] = unfold getlastnode last in refl
getlastnode-last (x ∷ xs) = unfold last in getlastnode_cons x xs

last-place :
    (g : ℕ → Bool) (a n : ℕ) (xs : List ℕ)
    → (last a (place g n xs) ≡ n) ⊎ (last a (place g n xs) ≡ last a xs)
unfolding place last
last-place g a n [] = inl refl
last-place g a n (x ∷ xs) = elim (Bool-cases (any g (x ∷ xs))) [
  | inl e ↦ rw e (last-place g x n xs)
  | inr e ↦ rw e (inr refl)
]

last-erase : (a m : ℕ) (xs : List ℕ) → last a xs ≢ m → last a (erase m xs) ≡ last a xs
unfolding erase last
last-erase a m [] h = refl
last-erase a m (x ∷ []) h = ground (arith, h)
last-erase a m (x ∷ y ∷ xs) h = elim (Bool-cases (x == m)) [
  | inl e ↦ rw e refl
  | inr e ↦ rw e (last-erase x m (y ∷ xs) h)
]

module _ (hash_func : ℕ → CString) (k : CString) where
  -- The specification: the last node whose hash is at most `k`, and `d` where there is none.
  unfoldable pub owner : ℕ → List ℕ → ℕ
  owner d [] = d
  owner d (x ∷ xs) = owner (if is_below hash_func k x then d else x) xs

  below_mono :
      (x y : ℕ)
      → Before hash_func x y
      → is_below hash_func k x ≡ true
      → is_below hash_func k y ≡ true
  unfolding is_below
  below_mono x y b h = ground (arith, strcmp_trans k (gethash hash_func x) (gethash hash_func y))

  owner_below :
      (d x : ℕ) (xs : List ℕ)
      → is_below hash_func k x ≡ true
      → All (Before hash_func x) xs
      → owner d xs ≡ d
  unfolding owner
  owner_below d x [] h b = refl
  owner_below d x (y ∷ xs) h b = rw (below_mono x y b.0 h) (owner_below d x xs h b.1)

  handle_from_below :
      (l x : ℕ) (xs : List ℕ)
      → is_below hash_func k x ≡ true
      → IsAscending hash_func (x ∷ xs)
      → handle_from hash_func l (x ∷ xs) k ≡ l
  unfolding handle_from
  handle_from_below l x [] h a = refl
  handle_from_below l x (y ∷ xs) h a =
      ground (arith, handle_from_below l y xs (below_mono x y a.0.0 h) a.1)

  handle_from-owner :
      (x : ℕ) (xs : List ℕ)
      → is_below hash_func k x ≡ false
      → IsAscending hash_func (x ∷ xs)
      → handle_from hash_func (last x xs) (x ∷ xs) k ≡ owner x xs
  unfolding handle_from owner last
  handle_from-owner x [] h a = refl
  handle_from-owner x (y ∷ xs) h a = elim (Bool-cases (is_below hash_func k y)) [
    | inl e ↦ ground (arith, owner_below x y xs e a.1.0)
    | inr e ↦ ground (arith, handle_from-owner y xs e a.1)
  ]

  -- On a ring in ascending order of the hashes, gethandlenode gives what the scan for the last
  -- node whose hash is at most the code gives, and the last node of the ring where there is no
  -- such node.
  pub gethandlenode-owner :
      (ring : List ℕ)
      → IsAscending hash_func ring
      → gethandlenode hash_func ring k ≡ owner (getlastnode ring) ring
  unfolding gethandlenode owner
  gethandlenode-owner [] a = unfold handle_from in refl
  gethandlenode-owner (x ∷ xs) a = elim (Bool-cases (is_below hash_func k x)) [
    | inl e ↦ rw e (
        handle_from_below (getlastnode (x ∷ xs)) x xs e a
        ∙ sym (owner_below (getlastnode (x ∷ xs)) x xs e a.0))
    | inr e ↦ rw e (
        ap (λ l. handle_from hash_func l (x ∷ xs) k) (getlastnode_cons x xs)
        ∙ handle_from-owner x xs e a)
  ]

  -- The default is either given, or plays no part.
  owner-cases : (n : ℕ) (xs : List ℕ) → (owner n xs ≡ n) ⊎ ((d : ℕ) → owner n xs ≡ owner d xs)
  unfolding owner
  owner-cases n [] = inl refl
  owner-cases n (x ∷ xs) = elim (Bool-cases (is_below hash_func k x)) [
    | inl e ↦ rw e (owner-cases n xs)
    | inr e ↦ rw e (inr (λ d. refl))
  ]

  owner-place :
      (g : ℕ → Bool) (d n : ℕ) (xs : List ℕ)
      → (owner d (place g n xs) ≡ n) ⊎ (owner d (place g n xs) ≡ owner d xs)
  unfolding owner place
  owner-place g d n [] = elim (Bool-cases (is_below hash_func k n)) [
    | inl e ↦ rw e (inr refl)
    | inr e ↦ rw e (inl refl)
  ]
  owner-place g d n (x ∷ xs) = elim (Bool-cases (any g (x ∷ xs))) [
    | inl e ↦ rw e (owner-place g (if is_below hash_func k x then d else x) n xs)
    | inr e ↦ rw e (front (owner-cases n (x ∷ xs)))
  ]
    where
      front :
          (owner n (x ∷ xs) ≡ n) ⊎ ((d' : ℕ) → owner n (x ∷ xs) ≡ owner d' (x ∷ xs))
          → (owner d (n ∷ x ∷ xs) ≡ n) ⊎ (owner d (n ∷ x ∷ xs) ≡ owner d (x ∷ xs))
      front c = elim (Bool-cases (is_below hash_func k n)) [
        | inl e ↦ rw e (inr refl)
        | inr e ↦ rw e (elim c [ inl q ↦ inl q | inr q ↦ inr (q d) ])
      ]

  owner-erase : (d m : ℕ) (xs : List ℕ) → owner d xs ≢ m → owner d (erase m xs) ≡ owner d xs
  unfolding owner erase
  owner-erase d m [] h = refl
  owner-erase d m (x ∷ xs) h = elim (Bool-cases (x == m)) [
    | inl e ↦ let q : x ≡ m = ground arith in rw e (first q)
    | inr e ↦ rw e (owner-erase (if is_below hash_func k x then d else x) m xs h)
  ]
    where
      first : x ≡ m → owner d xs ≡ owner (if is_below hash_func k x then d else x) xs
      first q = elim (Bool-cases (is_below hash_func k x)) [
        | inl e ↦ rw e refl
        | inr e ↦
            rw e (elim (owner-cases x xs) [ inl u ↦ absurd (h (rw e (u ∙ q))) | inr u ↦ sym (u d) ])
      ]

  owner-place-last :
      (g : ℕ → Bool) (n : ℕ) (xs : List ℕ)
      → (owner (last 0 (place g n xs)) (place g n xs) ≡ n)
        ⊎ (owner (last 0 (place g n xs)) (place g n xs) ≡ owner (last 0 xs) xs)
  owner-place-last g n xs = elim (last-place g 0 n xs) [
    | inl q ↦ rw q (elim (owner-cases n (place g n xs)) [
      | inl u ↦ inl u
      | inr u ↦ rw (u (last 0 xs)) (owner-place g (last 0 xs) n xs)
    ])
    | inr q ↦ rw q (owner-place g (last 0 xs) n xs)
  ]

  owner-erase-last :
      (m : ℕ) (xs : List ℕ)
      → owner (last 0 xs) xs ≢ m
      → owner (last 0 (erase m xs)) (erase m xs) ≡ owner (last 0 xs) xs
  owner-erase-last m xs h = elim (Bool-cases (last 0 xs == m)) [
    | inl e ↦ elim (owner-cases (last 0 xs) xs) [
      | inl u ↦ absurd (h (u ∙ ground arith))
      | inr u ↦ let d = last 0 (erase m xs) in owner-erase d m xs (λ q. h (u d ∙ q)) ∙ sym (u d)
    ]
    | inr e ↦
        ap (λ d. owner d (erase m xs)) (last-erase 0 m xs (ground arith))
        ∙ owner-erase (last 0 xs) m xs h
  ]

module _ (hash_func : ℕ → CString) (ring : List ℕ) (r : IsRing hash_func ring) (n : ℕ)
    (k : CString) where
  abbrev handler : List ℕ → ℕ
  handler ring' = gethandlenode hash_func ring' k

  gethandlenode_last :
      (ring' : List ℕ)
      → IsAscending hash_func ring'
      → handler ring' ≡ owner hash_func k (last 0 ring') ring'
  gethandlenode_last ring' a =
      rw (← getlastnode-last ring') (gethandlenode-owner hash_func k ring' a)

  -- When a node with a hash is added to a ring that is in order, each hash code is handled by the
  -- node that is added or by the node that handled it before.
  pub gethandlenode-addnode :
      IsHashed hash_func n
      → (handler (addnode hash_func ring n).0 ≡ n)
        ⊎ (handler (addnode hash_func ring n).0 ≡ handler ring)
  gethandlenode-addnode hn = elim (Bool-cases (hasnode hash_func ring n)) [
    | inl e ↦ inr (ap (λ p. handler p.0) (addnode_old hash_func n hn.0 ring e))
    | inr e ↦
        rw
          (
            gethandlenode_last ring r.ascending,
            gethandlenode_last (addnode hash_func ring n).0
                (addnode-IsRing hash_func n hn ring r).ascending,
            addnode_new hash_func n hn.0 ring e,
          )
          (owner-place-last hash_func k (λ x. is_greater (compfunc hash_func x n)) n ring)
  ]

  -- When a node is removed from a ring that is in order, each hash code that was not handled by
  -- the node of that hash is handled by the same node as before.
  pub gethandlenode-removenode :
      handler ring ≢ getequalnode hash_func ring n
      → handler (removenode hash_func ring n).0 ≡ handler ring
  gethandlenode-removenode h = elim (removenode-erase hash_func ring n) [
    | inl e ↦ ap (λ p. handler p.0) e
    | inr e ↦
        let m = getequalnode hash_func ring n in
        let own : handler ring ≡ owner hash_func k (last 0 ring) ring =
          gethandlenode_last ring r.ascending in
        ap (λ p. handler p.0) e
        ∙ gethandlenode_last (erase m ring) (erase-IsRing hash_func m ring r).ascending
        ∙ owner-erase-last hash_func k m ring (λ q. h (own ∙ q))
        ∙ sym own
  ]
