-- ===== src/Ring/Hash.antt =====
-- The order of the nodes by their hashes, and the ring as a sorted list.
use Prim.Native.Nat.{lt}
use round.Common.{
  ℕ, ◌+◌, ◌≡◌, ◌≢◌, Bool, true, false, ◌⊎◌, inl, inr, some, List, [], ◌∷◌, arith, ◌==◌, Bool-cases,
  All,
}
use round.Common.Int.{is_neg}
use round.Text.{CString, strcmp}
use round.Text.Order.{strcmp_trans, strcmp-flip}
use round.LinkedList.Chain.{erase, All-erase}
use round.OrderedList.{is_greater}
use round.OrderedList.Add.{place, any}
use round.Ring.{
  gethash, compfunc, has_hash, index_from, getnodeindex, hasnode, addnode, removenode, getequalnode,
}

module _ (hash_func : ℕ → CString) where
  abbrev code : ℕ → CString
  code = gethash hash_func

  -- A node that is no NULL and has a hash.
  abbrev pub IsHashed : ℕ → Type 0
  IsHashed x = (x ≢ 0) × (h : List ℕ) × (code x ≡ some h)

  abbrev pub Before : ℕ → ℕ → Type 0
  Before x y = strcmp (code x) (code y) ≡ lt

  -- Strictly ascending hashes.
  abbrev pub IsAscending : List ℕ → Type 0
  IsAscending [] = Unit
  IsAscending (x ∷ xs) = All (Before x) xs × IsAscending xs

  pub record IsRing (ring : List ℕ) : Type 0 where
    pub hashed : All IsHashed ring
    pub ascending : IsAscending ring

  -- `compfunc` says that the new node is greater exactly where its hash is.
  greater_lt :
      (x n : ℕ) → IsHashed x → IsHashed n → is_greater (compfunc hash_func x n) ≡ true → Before x n
  unfolding compfunc is_greater
  greater_lt x n (x0, a, ea) (n0, b, eb) e = rw (ea, eb) (ground (arith, x0, n0, ea, eb))

  lt_greater :
      (x n : ℕ) → IsHashed x → IsHashed n → Before x n → is_greater (compfunc hash_func x n) ≡ true
  unfolding compfunc is_greater
  lt_greater x n (x0, a, ea) (n0, b, eb) e = ground (arith, x0, n0, ea, eb, e)

  not_greater_lt :
      (x n : ℕ)
      → IsHashed x
      → IsHashed n
      → is_greater (compfunc hash_func x n) ≡ false
      → has_hash hash_func (code n) x ≡ false
      → Before n x
  unfolding compfunc is_greater has_hash
  not_greater_lt x n (x0, a, ea) (n0, b, eb) e f = ground (arith, x0, n0, ea, eb, strcmp-flip a b)

  Before-trans : (x y z : ℕ) → Before x y → Before y z → Before x z
  Before-trans x y z h k = strcmp_trans (code x) (code y) (code z) h k

  pub index_from_absent :
      (i : ℕ) (xs : List ℕ) (target : CString)
      → is_neg (index_from hash_func i xs target) ≡ true
      → All (λ x. has_hash hash_func target x ≡ false) xs
  unfolding index_from
  index_from_absent i [] target h = tt
  index_from_absent i (x ∷ xs) target h = elim (Bool-cases (has_hash hash_func target x)) [
    | inl e ↦ absurd (ground arith)
    | inr e ↦ (e, index_from_absent (i + 1) xs target (rw e at h))
  ]

  -- `hasnode` looks for the hash of the node.
  pub hasnode_absent :
      (ring : List ℕ) (n : ℕ)
      → IsHashed n
      → hasnode hash_func ring n ≡ false
      → All (λ x. has_hash hash_func (code n) x ≡ false) ring
  unfolding hasnode getnodeindex
  hasnode_absent ring n (n0, b, eb) h =
      rw eb (index_from_absent 0 ring (some b) (ground (arith, eb)))

pub All-place {κ} :
    (P : ℕ → Type κ) (g : ℕ → Bool) (n : ℕ) (xs : List ℕ) → P n → All P xs → All P (place g n xs)
unfolding place
All-place P g n [] hn h = (hn, tt)
All-place P g n (x ∷ xs) hn h = elim (Bool-cases (any g (x ∷ xs))) [
  | inl e ↦ rw e (h.0, All-place P g n xs hn h.1)
  | inr e ↦ rw e (hn, h)
]

module _ (hash_func : ℕ → CString) (n : ℕ) (n0 : n ≢ 0) (ring : List ℕ) where
  pub addnode_old : hasnode hash_func ring n ≡ true → addnode hash_func ring n ≡ (ring, false)
  unfolding addnode
  addnode_old e = ground arith

  pub addnode_new :
      hasnode hash_func ring n ≡ false
      → addnode hash_func ring n ≡ (place (λ x. is_greater (compfunc hash_func x n)) n ring, true)
  unfolding addnode
  addnode_new e = ground arith

module _ (hash_func : ℕ → CString) (n : ℕ) (hn : IsHashed hash_func n) where
  abbrev greater_than : ℕ → Bool
  greater_than x = is_greater (compfunc hash_func x n)

  any-Before :
      (x : ℕ) (xs : List ℕ)
      → All (IsHashed hash_func) xs
      → All (Before hash_func x) xs
      → any greater_than xs ≡ true
      → Before hash_func x n
  unfolding any
  any-Before x [] k b e = cc
  any-Before x (y ∷ xs) k b e = elim (Bool-cases (greater_than y)) [
    | inl g ↦ Before-trans hash_func x y n b.0 (greater_lt hash_func y n k.0 hn g)
    | inr g ↦ any-Before x xs k.1 b.1 (rw g at e)
  ]

  none-Before :
      (xs : List ℕ)
      → All (IsHashed hash_func) xs
      → All (λ x. has_hash hash_func (gethash hash_func n) x ≡ false) xs
      → any greater_than xs ≡ false
      → All (Before hash_func n) xs
  unfolding any
  none-Before [] k f e = tt
  none-Before (y ∷ xs) k f e = elim (Bool-cases (greater_than y)) [
    | inl g ↦ absurd (ground arith)
    | inr g ↦ (not_greater_lt hash_func y n k.0 hn g f.0, none-Before xs k.1 f.1 (rw g at e))
  ]

  place-IsAscending :
      (xs : List ℕ)
      → All (IsHashed hash_func) xs
      → All (λ x. has_hash hash_func (gethash hash_func n) x ≡ false) xs
      → IsAscending hash_func xs
      → IsAscending hash_func (place greater_than n xs)
  unfolding place any
  place-IsAscending [] k f a = (tt, tt)
  place-IsAscending (x ∷ xs) k f a = elim (Bool-cases (any greater_than (x ∷ xs))) [
    | inl e ↦ rw e (
      All-place (Before hash_func x) greater_than n xs (first e) a.0,
      place-IsAscending xs k.1 f.1 a.1,
    )
    | inr e ↦ rw e (none-Before (x ∷ xs) k f e, a)
  ]
    where
      first : any greater_than (x ∷ xs) ≡ true → Before hash_func x n
      first e = elim (Bool-cases (greater_than x)) [
        | inl g ↦ greater_lt hash_func x n k.0 hn g
        | inr g ↦ any-Before x xs k.1 a.0 (rw g at e)
      ]

  -- addnode of a node with a hash keeps the nodes of a ring hashed and in ascending order of their
  -- hashes.
  pub addnode-IsRing :
      (ring : List ℕ) → IsRing hash_func ring → IsRing hash_func (addnode hash_func ring n).0
  addnode-IsRing ring r = elim (Bool-cases (hasnode hash_func ring n)) [
    | inl e ↦ rw (addnode_old hash_func n hn.0 ring e) r
    | inr e ↦ rw (addnode_new hash_func n hn.0 ring e) (record {
      hashed = All-place (IsHashed hash_func) greater_than n ring hn r.hashed;
      ascending =
          place-IsAscending ring r.hashed (hasnode_absent hash_func ring n hn e) r.ascending;
    })
  ]

module _ (hash_func : ℕ → CString) where
  erase-IsAscending :
      (m : ℕ) (xs : List ℕ) → IsAscending hash_func xs → IsAscending hash_func (erase m xs)
  unfolding erase
  erase-IsAscending m [] a = tt
  erase-IsAscending m (x ∷ xs) a = elim (Bool-cases (x == m)) [
    | inl e ↦ rw e a.1
    | inr e ↦ rw e (All-erase (Before hash_func x) m xs a.0, erase-IsAscending m xs a.1)
  ]

  pub erase-IsRing :
      (m : ℕ) (ring : List ℕ) → IsRing hash_func ring → IsRing hash_func (erase m ring)
  erase-IsRing m ring r = record {
    hashed = All-erase (IsHashed hash_func) m ring r.hashed;
    ascending = erase-IsAscending m ring r.ascending;
  }

  -- What `removenode` takes out, if it takes out anything.
  pub removenode-erase :
      (ring : List ℕ) (n : ℕ)
      → (removenode hash_func ring n ≡ (ring, false))
        ⊎ (removenode hash_func ring n ≡ (erase (getequalnode hash_func ring n) ring, true))
  unfolding removenode
  removenode-erase ring n = ground arith
