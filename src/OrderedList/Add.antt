-- ===== src/OrderedList/Add.antt =====
-- Where `round_ordered_list_add` puts a node.
use mathlib.Core.List.{reverse, reverse-append}
use round.Common.{
  ℕ, zero, suc, ◌<◌, ◌≡◌, refl, ap, ◌∙◌, ◌≢◌, Bool, true, false, ◌||◌, inl, inr, List, [], ◌∷◌,
  ◌++◌, some, arith, if◌then◌else◌, Bool-cases, All, All-map, Distinct, length, length-reverse,
  All-reverse,
}
use round.LinkedList.{Store, insert, prev, getlast}
use round.LinkedList.Links.{insert-true}
use round.LinkedList.Chain.{Represents, IsNode, insert_from}
use round.LinkedList.Refine.{
  Distinct-all, insert-Represents, node-ne-header, erase_absent, IsFresh, addfirst-insert,
}
use round.LinkedList.Ends.{BackChain, BackChain-reverse, prev-end, prev-node}
use round.OrderedList.{NodeCompare, is_greater, add_from, add}

-- Whether a comparison holds of some node.
unfoldable pub any : (ℕ → Bool) → List ℕ → Bool
any g [] = false
any g (x ∷ xs) = g x || any g xs

-- The specification: `n` stands behind the last node of which `g` holds, or else first.
unfoldable pub place : (ℕ → Bool) → ℕ → List ℕ → List ℕ
unfolding any
place g n [] = n ∷ []
place g n (x ∷ xs) = if any g (x ∷ xs) then x ∷ place g n xs else n ∷ x ∷ xs

-- The pointer behind which the loop inserts.
anchor_back : (ℕ → Bool) → ℕ → List ℕ → ℕ
anchor_back g h [] = h
anchor_back g h (x ∷ rs) = if g x then x else anchor_back g h rs

anchor : (ℕ → Bool) → ℕ → List ℕ → ℕ
anchor g a [] = a
anchor g a (x ∷ xs) = anchor g (if g x then x else a) xs

anchor_back-snoc :
    (g : ℕ → Bool) (a : ℕ) (rs : List ℕ) (x : ℕ)
    → anchor_back g a (rs ++ x ∷ []) ≡ anchor_back g (if g x then x else a) rs
unfolding anchor_back
anchor_back-snoc g a [] x = refl
anchor_back-snoc g a (r ∷ rs) x = ap (λ y. if g r then r else y) (anchor_back-snoc g a rs x)

anchor_step :
    (g : ℕ → Bool) (a x : ℕ) (xs : List ℕ)
    → anchor g (if g x then x else a) xs ≡ anchor g a (x ∷ xs)
unfolding anchor
anchor_step g a x xs = refl

anchor_back-reverse :
    (g : ℕ → Bool) (a : ℕ) (xs : List ℕ) → anchor_back g a (reverse xs) ≡ anchor g a xs
anchor_back-reverse g a [] = unfold anchor_back anchor in refl
anchor_back-reverse g a (x ∷ xs) =
    rw (reverse-append (x ∷ []) xs, anchor_back-snoc g a (reverse xs) x)
      (anchor_back-reverse g (if g x then x else a) xs ∙ anchor_step g a x xs)

-- With no such node the anchor is the start, and otherwise the start does not matter.
anchor-none : (g : ℕ → Bool) (a : ℕ) (xs : List ℕ) → any g xs ≡ false → anchor g a xs ≡ a
unfolding anchor any
anchor-none g a [] e = refl
anchor-none g a (x ∷ xs) e = ground (arith, anchor-none g a xs)

anchor-some :
    (g : ℕ → Bool) (a b : ℕ) (xs : List ℕ) → any g xs ≡ true → anchor g a xs ≡ anchor g b xs
unfolding anchor any
anchor-some g a b [] e = cc
anchor-some g a b (x ∷ xs) e = ground (arith, anchor-some g a b xs)

anchor_absent :
    (g : ℕ → Bool) (n a : ℕ) (xs : List ℕ)
    → any g xs ≡ true
    → All (λ x. n ≢ x) xs
    → n ≢ anchor g a xs
unfolding anchor any
anchor_absent g n a [] e h = cc
anchor_absent g n a (x ∷ xs) e h = elim (Bool-cases (any g xs)) [
  | inl later ↦ anchor_absent g n (if g x then x else a) xs later h.1
  | inr here ↦ ground (arith, h.0, anchor-none g x xs here)
]

insert_from-anchor :
    (g : ℕ → Bool) (a n : ℕ) (xs : List ℕ)
    → Distinct (a ∷ xs)
    → insert_from a (anchor g a xs) n xs ≡ place g n xs
unfolding insert_from anchor place
insert_from-anchor g a n [] d = ground arith
insert_from-anchor g a n (x ∷ xs) d = elim (Bool-cases (any g xs)) [
  | inl later ↦ ground (
    arith,
    d.0.0,
    insert_from-anchor g x n xs d.1,
    anchor-some g (if g x then x else a) x xs later,
    anchor_absent g a x xs later d.0.1,
  )
  | inr here ↦ ground (
    arith,
    d.0.0,
    insert_from-anchor g x n xs d.1,
    anchor-none g (if g x then x else a) xs here,
    anchor-none g x xs here,
  )
]

-- The loop stops at the anchor and inserts there.
add_from-BackChain :
    (s : Store) (cmp : ℕ → ℕ → NodeCompare) (h n : ℕ)
    → s.head_flag h ≡ true
    → h ≢ 0
    → n ≢ 0
    → (fuel b : ℕ) (rs : List ℕ) → b ≢ 0
    → All (IsNode s) rs
    → BackChain s b rs h
    → length rs < fuel
    → add_from fuel s cmp h (prev s b) n
      ≡ some ((insert s (anchor_back (λ x. is_greater (cmp x n)) h rs) n).0, true)
add_from-BackChain s cmp h n f h0 n0 zero b rs b0 k c lt = absurd (omega arith)
add_from-BackChain s cmp h n f h0 n0 (suc fuel) b [] b0 k c lt =
    rw (prev-end s h f h0 b b0 c)
      (unfold add_from anchor_back in ap some (addfirst-insert s h n h0 n0))
add_from-BackChain s cmp h n f h0 n0 (suc fuel) b (x ∷ rs) b0 k c lt =
    rw (prev-node s h f h0 b x b0 k.0 c.0)
      (step (add_from-BackChain s cmp h n f h0 n0 fuel x rs k.0.0 k.1 c.1 (omega arith)))
  where
    step :
        add_from fuel s cmp h (prev s x) n
          ≡ some ((insert s (anchor_back (λ y. is_greater (cmp y n)) h rs) n).0, true)
        → add_from (suc fuel) s cmp h x n
          ≡ some ((insert s (anchor_back (λ y. is_greater (cmp y n)) h (x ∷ rs)) n).0, true)
    step ih = unfold add_from anchor_back in ground (arith, k.0.0, ih, insert-true s x n k.0.0 n0)

anchor_holds {κ} :
    (P : ℕ → Type κ) (g : ℕ → Bool) (a : ℕ) (xs : List ℕ) → P a → All P xs → P (anchor g a xs)
unfolding anchor
anchor_holds P g a [] pa h = pa
anchor_holds P g a (x ∷ xs) pa h = elim (Bool-cases (g x)) [
  | inl e ↦ rw e (anchor_holds P g x xs h.0 h.1)
  | inr e ↦ rw e (anchor_holds P g a xs pa h.1)
]

module _ {s : Store} {h : ℕ} {xs : List ℕ} (r : Represents s h xs) (n : ℕ) (fresh : IsFresh s xs n)
    (cmp : ℕ → ℕ → NodeCompare) where
  abbrev behind : ℕ → Bool
  behind x = is_greater (cmp x n)

  insert_anchor-Represents :
      Represents (insert s (anchor_back behind h (reverse xs)) n).0 h (place behind n xs)
  insert_anchor-Represents = rw (anchor_back-reverse behind h xs) (
      rw (erase_absent n xs fresh.1, insert_from-anchor behind h n xs (Distinct-all r)) at
        (insert-Represents r n fresh.0 (anchor behind h xs)
          (anchor_holds (λ x. x ≢ 0) behind h xs r.header (All-map xs (λ x k. k.0) r.nodes))
          (anchor_holds (λ x. x ≢ n) behind h xs (node-ne-header r n fresh.0) fresh.1)))

  -- On links that represent a list, with more fuel than its length, add of a node that is not in
  -- the list ends, succeeds, and leaves links that represent the list with the node behind the
  -- last node that compares as greater, or first where there is none.
  pub add-place :
      (fuel : ℕ)
      → length xs < fuel
      → (t : Store) × (add fuel s (record { sorted_list = h; cmp_func = some cmp }) n
          ≡ some (t, true))
        × Represents t h (place behind n xs)
  add-place fuel lt =
      ((insert s (anchor_back behind h (reverse xs)) n).0, run, insert_anchor-Represents)
    where
      loop :
          add_from fuel s cmp h (prev s h) n
          ≡ some ((insert s (anchor_back behind h (reverse xs)) n).0, true)
      loop =
          add_from-BackChain s cmp h n r.flagged r.header fresh.0.0 fuel h (reverse xs) r.header
            (All-reverse (IsNode s) xs r.nodes) (BackChain-reverse s h xs h r.linked r.chain)
            (rw (length-reverse xs) lt)

      run :
          add fuel s (record { sorted_list = h; cmp_func = some cmp }) n
          ≡ some ((insert s (anchor_back behind h (reverse xs)) n).0, true)
      run = unfold add getlast in ground (arith, loop, r.header)
