-- ===== src/LinkedList/Walk.antt =====
-- The loops of src/round/util/list.c that read the nodes: the size and the access by index.
use native.Mathlib.Nat.{mod-eq_of_lt}
use round.Common.{
  ℕ, zero, suc, ◌+◌, ◌%◌, ◌^◌, ◌<◌, ◌≡◌, refl, ◌≢◌, true, List, [], ◌∷◌, some, arith, All, length,
  get_or,
}
use round.LinkedList.{Store, next, node_count, size_from, size, get_from, get}
use round.LinkedList.Chain.{Chain, IsNode, Represents}

module _ (s : Store) (h : ℕ) (flagged : s.head_flag h ≡ true) (header : h ≢ 0) where
  pub next-end : (a : ℕ) → a ≢ 0 → s.next a ≡ h → next s a ≡ 0
  unfolding next
  next-end a a0 c = ground arith

  pub next-node : (a x : ℕ) → a ≢ 0 → IsNode s x → s.next a ≡ x → next s a ≡ x
  unfolding next
  next-node a x a0 k c = ground (arith, k.0, k.1)

  size_from-Chain :
      (fuel a : ℕ) (xs : List ℕ) (count : ℕ)
      → a ≢ 0
      → All (IsNode s) xs
      → Chain s a xs h
      → length xs < fuel
      → count + length xs < 2 ^ 31
      → size_from fuel s (next s a) count ≡ some (count + length xs)
  unfolding size_from node_count
  size_from-Chain zero a xs count a0 k c lt small = absurd (omega arith)
  size_from-Chain (suc fuel) a [] count a0 k c lt small = rw (next-end a a0 c) (ground arith)
  size_from-Chain (suc fuel) a (x ∷ xs) count a0 k c lt small =
      let fits : (count + 1) % 2 ^ 32 ≡ count + 1 = mod-eq_of_lt (omega arith) in
      rw (next-node a x a0 k.0 c.0, fits)
        (ground (arith, k.0.0, size_from-Chain fuel x xs (count + 1) k.0.0 k.1 c.1))

  get_from_null : (i : ℕ) → get_from s 0 i ≡ 0
  unfolding get_from
  get_from_null zero = refl
  get_from_null (suc i) = refl

  get_from-Chain :
      (a : ℕ) (xs : List ℕ) (i : ℕ)
      → a ≢ 0
      → All (IsNode s) xs
      → Chain s a xs h
      → get_from s (next s a) i ≡ get_or xs i 0
  get_from-Chain a [] i a0 k c = rw (next-end a a0 c) (get_from_null i)
  get_from-Chain a (x ∷ xs) zero a0 k c = rw (next-node a x a0 k.0 c.0) (unfold get_from in refl)
  get_from-Chain a (x ∷ xs) (suc i) a0 k c =
      rw (next-node a x a0 k.0 c.0) (step (get_from-Chain x xs i k.0.0 k.1 c.1))
    where
      step : get_from s (next s x) i ≡ get_or xs i 0 → get_from s x (suc i) ≡ get_or xs i 0
      step e = unfold get_from in ground (arith, k.0.0)

module _ {s : Store} {h : ℕ} {xs : List ℕ} (r : Represents s h xs) where
  -- On links that represent a list of fewer than 2 ^ 31 nodes, with more fuel than its length, size
  -- ends with its length.
  pub size-length :
      (fuel : ℕ) → length xs < fuel → length xs < 2 ^ 31 → size fuel s h ≡ some (length xs)
  unfolding size
  size-length fuel lt small =
      ground (
        arith,
        r.header,
        size_from-Chain s h r.flagged r.header fuel h xs 0 r.header r.nodes r.chain,
      )

  -- On links that represent a list, get gives the node at the index, and NULL beyond the end.
  pub get-get_or : (i : ℕ) → get s h i ≡ get_or xs i 0
  unfolding get
  get-get_or i =
      ground
        (arith, r.header, get_from-Chain s h r.flagged r.header h xs i r.header r.nodes r.chain)
