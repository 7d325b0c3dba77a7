-- ===== src/LinkedList/Ends.antt =====
-- The two ends of a list of src/round/util/list.c, and the walk around it.
use mathlib.Core.List.{reverse, reverse-append}
use round.Common.{ℕ, ◌≡◌, ◌≢◌, true, List, [], ◌∷◌, ◌++◌, arith, All}
use round.LinkedList.{Store, prev, getfirst, getlast, next_circular}
use round.LinkedList.Links.{IsLinked}
use round.LinkedList.Chain.{Chain, IsNode, Represents}
use round.LinkedList.Refine.{prev-last, last}
use round.LinkedList.Walk.{next-end, next-node}

-- The chain read backwards: the `prev` links lead from `b` through `rs` to `a`.
abbrev pub BackChain : Store → ℕ → List ℕ → ℕ → Type 0
BackChain s b [] a = s.prev b ≡ a
BackChain s b (x ∷ rs) a = (s.prev b ≡ x) × BackChain s x rs a

BackChain-snoc :
    (s : Store) (b : ℕ) (rs : List ℕ) (x a : ℕ)
    → BackChain s b rs x
    → s.prev x ≡ a
    → BackChain s b (rs ++ x ∷ []) a
BackChain-snoc s b [] x a c e = (c, e)
BackChain-snoc s b (r ∷ rs) x a c e = (c.0, BackChain-snoc s r rs x a c.1 e)

pub BackChain-reverse :
    (s : Store) (a : ℕ) (xs : List ℕ) (b : ℕ)
    → IsLinked s
    → Chain s a xs b
    → BackChain s b (reverse xs) a
BackChain-reverse s a [] b v c = rw (← c) (v.prev_next a)
BackChain-reverse s a (x ∷ xs) b v c = rw (reverse-append (x ∷ []) xs) (
    BackChain-snoc s b (reverse xs) x a (BackChain-reverse s x xs b v c.1)
      (let e : s.next a ≡ x = c.0 in rw (← e) (v.prev_next a)))

module _ (s : Store) (h : ℕ) (flagged : s.head_flag h ≡ true) (header : h ≢ 0) where
  pub prev-end : (b : ℕ) → b ≢ 0 → s.prev b ≡ h → prev s b ≡ 0
  unfolding prev
  prev-end b b0 c = ground arith

  pub prev-node : (b x : ℕ) → b ≢ 0 → IsNode s x → s.prev b ≡ x → prev s b ≡ x
  unfolding prev
  prev-node b x b0 k c = ground (arith, k.0, k.1)

-- The first node or NULL, and the last or NULL.
abbrev pub first_or : List ℕ → ℕ
first_or [] = 0
first_or (x ∷ xs) = x

abbrev pub last_or : List ℕ → ℕ
last_or [] = 0
last_or (x ∷ xs) = last x xs

last_node : (s : Store) (x : ℕ) (xs : List ℕ) → All (IsNode s) (x ∷ xs) → IsNode s (last x xs)
unfolding last
last_node s x [] k = k.0
last_node s x (y ∷ xs) k = last_node s y xs k.1

getfirst-Represents :
    (s : Store) (h : ℕ) (xs : List ℕ) → Represents s h xs → getfirst s h ≡ first_or xs
unfolding getfirst
getfirst-Represents s h [] r =
    ground (arith, r.header, next-end s h r.flagged r.header h r.header r.chain)
getfirst-Represents s h (x ∷ xs) r =
    ground (arith, r.header, next-node s h r.flagged r.header h x r.header r.nodes.0 r.chain.0)

getlast-Represents :
    (s : Store) (h : ℕ) (xs : List ℕ) → Represents s h xs → getlast s h ≡ last_or xs
unfolding getlast last
getlast-Represents s h [] r = ground (
  arith,
  r.header,
  prev-end s h r.flagged r.header h r.header (prev-last s h [] h r.linked r.chain),
)
getlast-Represents s h (x ∷ xs) r = ground (
  arith,
  r.header,
  prev-node s h r.flagged r.header h (last x xs) r.header (last_node s x xs r.nodes)
      (prev-last s h (x ∷ xs) h r.linked r.chain),
)

-- On links that represent a list, getfirst and getlast give its first and its last node, and NULL
-- where it is empty.
pub ends-Represents :
    (s : Store) (h : ℕ) (xs : List ℕ)
    → Represents s h xs
    → (getfirst s h ≡ first_or xs) × (getlast s h ≡ last_or xs)
ends-Represents s h xs r = (getfirst-Represents s h xs r, getlast-Represents s h xs r)

-- Each node leads to the next one on the circle, and the last one to the first.
abbrev pub Circle : (ℕ → ℕ) → ℕ → ℕ → List ℕ → Type 0
Circle step first a [] = step a ≡ first
Circle step first a (x ∷ xs) = (step a ≡ x) × Circle step first x xs

module _ (s : Store) (h : ℕ) (flagged : s.head_flag h ≡ true) (header : h ≢ 0) (first : ℕ)
    (start : s.next h ≡ first) where
  next_circular-Chain :
      (a : ℕ) (xs : List ℕ)
      → a ≢ 0
      → All (IsNode s) xs
      → Chain s a xs h
      → Circle (next_circular s) first a xs
  next_circular-Chain a [] a0 k c = unfold next_circular in ground (arith, flagged)
  next_circular-Chain a (x ∷ xs) a0 k c = (
    unfold next_circular in ground (arith, k.0.0, k.0.1, c.0),
    next_circular-Chain x xs k.0.0 k.1 c.1,
  )

-- On links that represent a list with a first node, next_circular leads from each node to the next
-- one, and from the last one to the first.
pub next_circular-Circle :
    (s : Store) (h x : ℕ) (xs : List ℕ) → Represents s h (x ∷ xs) → Circle (next_circular s) x x xs
next_circular-Circle s h x xs r =
    next_circular-Chain s h r.flagged r.header x r.chain.0 x xs r.nodes.0.0 r.nodes.1 r.chain.1
