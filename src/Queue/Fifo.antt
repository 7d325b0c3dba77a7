-- ===== src/Queue/Fifo.antt =====
-- The links of a queue (util/queue.c) against the list of its objects.
use round.Common.{ℕ, ◌≡◌, refl, Bool, true, false, List, [], ◌∷◌, ◌++◌, arith, ◌==◌}
use round.LinkedList.{Store, addlast, next, remove}
use round.LinkedList.Links.{prev-ne-zero, next-ne-zero}
use round.LinkedList.Chain.{Represents, erase}
use round.LinkedList.Refine.{IsFresh, addlast-Represents, remove-Represents}
use round.LinkedList.Walk.{next-end, next-node}
use round.Queue.{push, pop}

module _ {s : Store} {q : ℕ} {objs : List ℕ} (r : Represents s q objs) where
  -- On links that represent a queue, push of an object that is not in it succeeds and leaves links
  -- that represent the queue with the object at its end.
  pub push-Represents :
      (obj : ℕ)
      → IsFresh s objs obj
      → ((push s q obj).1 ≡ true) × Represents (push s q obj).0 q (objs ++ obj ∷ [])
  unfolding push
  push-Represents obj fresh =
      let q0 : (q == 0) ≡ false = ground (arith, r.header) in
      let p0 = prev-ne-zero r.linked q r.header in
      rw q0
        (unfold addlast in ground (arith, r.header, fresh.0.0, p0), addlast-Represents r obj fresh)

erase_first : (n : ℕ) (xs : List ℕ) → erase n (n ∷ xs) ≡ xs
unfolding erase
erase_first n xs = ground arith

-- What `pop` does to the objects of a queue: the first one leaves it, and is returned.
abbrev pub Popped : Store → ℕ → List ℕ → Store × ℕ × Bool → Type 0
Popped s q [] result = result ≡ (s, 0, false)
Popped s q (obj ∷ objs) (t, popped, ok) = (popped ≡ obj) × (ok ≡ true) × Represents t q objs

-- On links that represent a queue, pop fails and writes nothing where it is empty, and else
-- succeeds, returns the first object and leaves links that represent the others.
pub pop-Popped :
    {s : Store} {q : ℕ} (objs : List ℕ) → Represents s q objs → Popped s q objs (pop s q)
unfolding pop
pop-Popped {s} {q} [] r = ground (arith, next-end s q r.flagged r.header q r.header r.chain)
pop-Popped {s} {q} (obj ∷ objs) r =
    let q0 : (q == 0) ≡ false = ground (arith, r.header) in
    let o0 : (obj == 0) ≡ false = ground (arith, r.nodes.0.0) in
    let e : next s q ≡ obj = next-node s q r.flagged r.header q obj r.header r.nodes.0 r.chain.0 in
    let ok : (remove s obj).1 ≡ true = removed in
    rw (q0, e, o0, ok)
      (
        refl,
        refl,
        rw (erase_first obj objs) at
            (remove-Represents r obj r.nodes.0.0 (λ q. ground (arith, r.nodes.0.1, r.flagged))),
      )
  where
    removed : (remove s obj).1 ≡ true
    removed =
        unfold remove in
        ground (
          arith,
          r.nodes.0.0,
          prev-ne-zero r.linked obj r.nodes.0.0,
          next-ne-zero r.linked obj r.nodes.0.0,
        )
