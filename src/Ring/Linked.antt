-- ===== src/Ring/Linked.antt =====
-- The loops of src/round/util/consistent_hashing_ring.c over the links of the ordered list, against
-- the functions over the list of nodes.
use round.Common.{
  ◌^◌, ℕ, zero, suc, ◌+◌, ◌-◌, ◌<◌, ◌≡◌, refl, ◌≢◌, Bool, true, false, not, inl, inr, Option, none,
  some, List, [], ◌∷◌, arith, ◌==◌, if◌then◌else◌, Bool-cases, Option-cases, All, All-map, length,
}
use mathlib.Core.Option
use round.Common.Int.{ℤ, pos, negsuc, is_neg}
use round.Text.{CString}
use round.LinkedList.{Store, next, size, get}
use round.LinkedList.Chain.{Chain, IsNode, Represents}
use round.LinkedList.Walk.{next-end, next-node, size-length, get-get_or}
use round.OrderedList.{add}
use round.OrderedList.Add.{add-place}
use round.Ring.{
  gethash, has_hash, compfunc, index_from, getnodeindex, hasnode, addnode, is_below, getlastnode,
  handle_from, gethandlenode,
}
use round.Ring.Hash.{IsHashed, hasnode_absent, addnode_old, addnode_new}
use round.Ring.Offset.Step.{has_hash_self}

module _ (hash_func : ℕ → CString) where
  -- The loop of `round_consistenthashing_ring_getnodeindex`, along the links.
  unfoldable pub index_linked : ℕ → Store → ℕ → ℕ → CString → Option ℤ
  index_linked zero s idx node target = none
  index_linked (suc fuel) s idx node target =
      let rest = index_linked fuel s (idx + 1) (next s node) target in
      if node == 0
      then some (negsuc 0)
      else if has_hash hash_func target node
      then some (pos idx)
      else rest

  unfoldable pub getnodeindex_linked : ℕ → Store → ℕ → ℕ → Option ℤ
  unfolding index_linked
  getnodeindex_linked fuel s list node = elim (gethash hash_func node) [
    | none ↦ some (negsuc 0)
    | some h ↦ index_linked fuel s 0 (next s list) (some h)
  ]

  unfoldable pub addnode_linked : ℕ → Store → ℕ → ℕ → Option (Store × Bool)
  unfolding getnodeindex_linked
  addnode_linked fuel s list node =
      if node == 0 then some (s, false) else elim (getnodeindex_linked fuel s list node) [
        | none ↦ none
        | some i ↦
            if not (is_neg i)
            then some (s, false)
            else add fuel s (record { sorted_list = list; cmp_func = some (compfunc hash_func) })
                node
      ]

  -- The loop of `round_consistenthashing_ring_gethandlenode`; `none` in the result is the `break`,
  -- or the end of the list.
  unfoldable pub handle_linked : ℕ → Store → ℕ → CString → Option (Option ℕ)
  handle_linked zero s node hash_code = none
  handle_linked (suc fuel) s node hash_code =
      let rest = handle_linked fuel s (next s node) hash_code in
      if node == 0
      then some none
      else if next s node == 0
      then some none
      else if is_below hash_func hash_code node
      then rest
      else if not (is_below hash_func hash_code (next s node))
      then rest
      else some (some node)

unfoldable pub getlastnode_linked : ℕ → Store → ℕ → Option ℕ
getlastnode_linked fuel s list = elim (size fuel s list) [
  | none ↦ none
  | some ring_size ↦ some (if ring_size == 0 then 0 else get s list (ring_size - 1))
]

unfoldable pub gethandlenode_linked : (ℕ → CString) → ℕ → Store → ℕ → CString → Option ℕ
gethandlenode_linked hash_func fuel s list hash_code =
    elim (handle_linked hash_func fuel s (next s list) hash_code) [
      | none ↦ none
      | some none ↦ getlastnode_linked fuel s list
      | some (some node) ↦ some node
    ]

module _ (hash_func : ℕ → CString) (s : Store) (h : ℕ) (flagged : s.head_flag h ≡ true)
    (header : h ≢ 0) where
  index_linked-Chain :
      (fuel idx a : ℕ) (xs : List ℕ) (target : CString)
      → a ≢ 0
      → All (IsNode s) xs
      → Chain s a xs h
      → length xs < fuel
      → index_linked hash_func fuel s idx (next s a) target
        ≡ some (index_from hash_func idx xs target)
  unfolding index_linked index_from
  index_linked-Chain zero idx a xs target a0 k c lt = absurd (omega arith)
  index_linked-Chain (suc fuel) idx a [] target a0 k c lt =
      rw (next-end s h flagged header a a0 c) refl
  index_linked-Chain (suc fuel) idx a (x ∷ xs) target a0 k c lt =
      rw (next-node s h flagged header a x a0 k.0 c.0)
        (ground (arith, k.0.0, index_linked-Chain fuel (idx + 1) x xs target k.0.0 k.1 c.1))

  -- What the loop over the nodes returns, with `none` where it comes to the last one.
  stop_from : List ℕ → CString → Option ℕ
  stop_from [] hash_code = none
  stop_from (node ∷ []) hash_code = none
  stop_from (node ∷ next_node ∷ nodes) hash_code =
      let rest = stop_from (next_node ∷ nodes) hash_code in
      if is_below hash_func hash_code node
      then rest
      else if not (is_below hash_func hash_code next_node)
      then rest
      else some node

  handle_from-stop :
      (l : ℕ) (xs : List ℕ) (k : CString)
      → handle_from hash_func l xs k ≡ Option.get_or (stop_from xs k) l
  unfolding handle_from stop_from
  handle_from-stop l [] k = refl
  handle_from-stop l (x ∷ []) k = refl
  handle_from-stop l (x ∷ y ∷ xs) k = ground (arith, handle_from-stop l (y ∷ xs) k)

  handle_linked-Chain :
      (fuel a : ℕ) (xs : List ℕ) (k : CString)
      → a ≢ 0
      → All (IsNode s) xs
      → Chain s a xs h
      → length xs < fuel
      → handle_linked hash_func fuel s (next s a) k ≡ some (stop_from xs k)
  unfolding handle_linked stop_from
  handle_linked-Chain zero a xs k a0 n c lt = absurd (omega arith)
  handle_linked-Chain (suc fuel) a [] k a0 n c lt = rw (next-end s h flagged header a a0 c) refl
  handle_linked-Chain (suc fuel) a (x ∷ []) k a0 n c lt =
      rw (next-node s h flagged header a x a0 n.0 c.0)
        (ground (arith, n.0.0, next-end s h flagged header x n.0.0 c.1))
  handle_linked-Chain (suc fuel) a (x ∷ y ∷ xs) k a0 n c lt =
      rw (next-node s h flagged header a x a0 n.0 c.0) (
        ground (
          arith,
          n.0.0,
          n.1.0.0,
          next-node s h flagged header x y n.0.0 n.1.0 c.1.0,
          handle_linked-Chain fuel x (y ∷ xs) k n.0.0 n.1 c.1,
        ))

module _ (hash_func : ℕ → CString) {s : Store} {h : ℕ} {ring : List ℕ} (r : Represents s h ring)
    (fuel : ℕ) (lt : length ring < fuel) where
  getnodeindex_linked-eq :
      (node : ℕ)
      → getnodeindex_linked hash_func fuel s h node ≡ some (getnodeindex hash_func ring node)
  unfolding getnodeindex_linked getnodeindex
  getnodeindex_linked-eq node = elim (Option-cases (gethash hash_func node)) [
    | inl e ↦ rw (e, getnodeindex_linked, getnodeindex) refl
    | inr (c, e) ↦
        rw (e, getnodeindex_linked, getnodeindex)
          (index_linked-Chain hash_func s h r.flagged r.header fuel 0 h ring (some c) r.header
            r.nodes r.chain lt)
  ]

  -- On links that represent a ring, with more fuel than its length, addnode of a node with a hash
  -- ends, reports what the function on the list of nodes reports, and leaves links that represent
  -- the ring that this function gives.
  pub addnode_linked-Represents :
      (n : ℕ)
      → IsNode s n
      → IsHashed hash_func n
      → (t : Store) × (addnode_linked hash_func fuel s h n ≡ some (t, (addnode hash_func ring n).1))
        × Represents t h (addnode hash_func ring n).0
  addnode_linked-Represents n node hn = elim (Bool-cases (hasnode hash_func ring n)) [
    | inl e ↦ (
      s,
      rw (addnode_old hash_func n hn.0 ring e) (run_old e),
      rw (addnode_old hash_func n hn.0 ring e) r,
    )
    | inr e ↦
        let (t, run, rep) =
          add-place r n
            (
              node,
              All-map ring (λ x f q. cc (f, has_hash_self hash_func n hn))
                  (hasnode_absent hash_func ring n hn e),
            )
            (compfunc hash_func) fuel lt in
        (
          t,
          rw (addnode_new hash_func n hn.0 ring e) (run_new e run),
          rw (addnode_new hash_func n hn.0 ring e) rep,
        )
  ]
    where
      run_old :
          hasnode hash_func ring n ≡ true → addnode_linked hash_func fuel s h n ≡ some (s, false)
      run_old e = unfold addnode_linked hasnode in ground (arith, hn.0, e, getnodeindex_linked-eq n)

      run_new :
          {t : Store}
          → hasnode hash_func ring n ≡ false
          → add fuel s (record { sorted_list = h; cmp_func = some (compfunc hash_func) }) n
            ≡ some (t, true)
          → addnode_linked hash_func fuel s h n ≡ some (t, true)
      run_new e run =
          unfold addnode_linked hasnode in ground (arith, hn.0, e, run, getnodeindex_linked-eq n)

  getlastnode_linked-eq :
      length ring < 2 ^ 31 → getlastnode_linked fuel s h ≡ some (getlastnode ring)
  unfolding getlastnode_linked getlastnode
  getlastnode_linked-eq small =
      ground (arith, size-length r fuel lt small, get-get_or r (length ring - 1))

  -- On links that represent a ring of fewer than 2 ^ 31 nodes, which the int that counts them
  -- holds, with more fuel than its length, the search for the handling node ends with the node
  -- that the function on the list of nodes gives.
  pub gethandlenode_linked-eq :
      (k : CString)
      → length ring < 2 ^ 31
      → gethandlenode_linked hash_func fuel s h k ≡ some (gethandlenode hash_func ring k)
  unfolding gethandlenode_linked gethandlenode
  gethandlenode_linked-eq k small =
      elim (Option-cases (stop_from hash_func s h r.flagged r.header ring k)) [
        | inl e ↦ ground (arith, loop, getlastnode_linked-eq small, spec, e)
        | inr (x, e) ↦ ground (arith, loop, spec, e)
      ]
    where
      loop :
          handle_linked hash_func fuel s (next s h) k
          ≡ some (stop_from hash_func s h r.flagged r.header ring k)
      loop =
          handle_linked-Chain hash_func s h r.flagged r.header fuel h ring k r.header r.nodes
            r.chain lt

      spec :
          handle_from hash_func (getlastnode ring) ring k
          ≡ Option.get_or (stop_from hash_func s h r.flagged r.header ring k) (getlastnode ring)
      spec = handle_from-stop hash_func s h r.flagged r.header (getlastnode ring) ring k
