-- ===== src/LinkedList/Clear.antt =====
-- `round_list_clear` and `round_list_header_init` of src/round/util/list.c.
use mathlib.Core.List.{reverse, reverse-append, append_assoc}
use round.Common.{
  ℕ, zero, suc, ◌<◌, ◌≡◌, refl, sym, ap, ◌∙◌, ◌≢◌, true, List, [], ◌∷◌, ◌++◌, some, arith, length,
}
use round.LinkedList.{Store, free, header_init, remove, next, clear_from, clear}
use round.LinkedList.Links.{IsLinked, freed-remove}
use round.LinkedList.Chain.{Chain, Represents, erase}
use round.LinkedList.Refine.{remove-Represents, header-absent}
use round.LinkedList.Walk.{next-end, next-node}

module _ {s : Store} {h : ℕ} {xs : List ℕ} (r : Represents s h xs) where
  -- `free` writes no link.
  free-Represents : (n : ℕ) → Represents (free s n) h xs
  unfolding free
  free-Represents n = record {
    linked = record {
      prev_next = r.linked.prev_next;
      next_prev = r.linked.next_prev;
      null_next = r.linked.null_next;
      null_prev = r.linked.null_prev;
    };
    header = r.header;
    flagged = r.flagged;
    nodes = r.nodes;
    distinct = r.distinct;
    chain = free-Chain h xs r.chain;
  }
    where
      free-Chain : (a : ℕ) (ys : List ℕ) → Chain s a ys h → Chain (free s n) a ys h
      free-Chain a [] c = c
      free-Chain a (y ∷ ys) c = (c.0, free-Chain y ys c.1)

free-remove-Represents :
    {s : Store} {h : ℕ} {xs : List ℕ} (n : ℕ)
    → n ≢ 0
    → n ≢ h
    → Represents s h xs
    → Represents (free (remove s n).0 n) h (erase n xs)
free-remove-Represents n n0 nh r = free-Represents (remove-Represents r n n0 nh) n

freed-free-remove : (s : Store) (n : ℕ) → (free (remove s n).0 n).freed ≡ n ∷ s.freed
unfolding free
freed-free-remove s n = ap (◌∷◌ n) (freed-remove s n)

erase_first : (x : ℕ) (xs : List ℕ) → erase x (x ∷ xs) ≡ xs
unfolding erase
erase_first x xs = ground arith

module _ (h : ℕ) where
  clear_from_step :
      (fuel x : ℕ) (s : Store)
      → x ≢ 0
      → clear_from (suc fuel) s h x
        ≡ clear_from fuel (free (remove s x).0 x) h (next (free (remove s x).0 x) h)
  unfolding clear_from
  clear_from_step fuel x s x0 = ground (arith, x0)

  clear_from_end : (fuel : ℕ) (s : Store) → clear_from (suc fuel) s h 0 ≡ some s
  unfolding clear_from
  clear_from_end fuel s = refl

  clear_from-Represents :
      (fuel : ℕ) (xs : List ℕ) {s : Store}
      → Represents s h xs
      → length xs < fuel
      → (t : Store) × (clear_from fuel s h (next s h) ≡ some t)
        × Represents t h []
        × (t.freed ≡ reverse xs ++ s.freed)
  clear_from-Represents zero xs r lt = absurd (omega arith)
  clear_from-Represents (suc fuel) [] {s} r lt =
      (s, rw (next-end s h r.flagged r.header h r.header r.chain) (clear_from_end fuel s), r, refl)
  clear_from-Represents (suc fuel) (x ∷ xs) {s} r lt =
      let xh : x ≢ h = (header-absent r).0 in
      let r' : Represents (free (remove s x).0 x) h xs =
        rw (erase_first x xs) at (free-remove-Represents x r.nodes.0.0 xh r) in
      let (t, e, rt, f) = clear_from-Represents fuel xs r' (omega arith) in
      (
        t,
        rw (next-node s h r.flagged r.header h x r.header r.nodes.0 r.chain.0)
            (clear_from_step fuel x s r.nodes.0.0 ∙ e),
        rt,
        rw (f, freed-free-remove s x) (regroup xs),
      )
    where
      regroup : (ys : List ℕ) → reverse ys ++ x ∷ s.freed ≡ reverse (x ∷ ys) ++ s.freed
      regroup ys =
          rw (reverse-append (x ∷ []) ys) (sym (append_assoc (reverse ys) (x ∷ []) s.freed))

  -- On links that represent a list, with more fuel than its length, clear ends, succeeds, frees
  -- each node once, in order, and leaves links that represent the empty list.
  pub clear-Represents :
      (fuel : ℕ) (xs : List ℕ) {s : Store}
      → Represents s h xs
      → length xs < fuel
      → (t : Store) × (clear fuel s h ≡ some (t, true))
        × Represents t h []
        × (t.freed ≡ reverse xs ++ s.freed)
  clear-Represents fuel xs {s} r lt =
      let (t, e, rt, f) = clear_from-Represents fuel xs r lt in (t, run t e, rt, f)
    where
      run : (t : Store) → clear_from fuel s h (next s h) ≡ some t → clear fuel s h ≡ some (t, true)
      run t e = unfold clear in ground (arith, r.header, e)

-- `round_list_header_init` makes an empty list of a pointer that stands alone.
pub header_init-Represents :
    (s : Store) (h : ℕ) → IsLinked s → h ≢ 0 → s.next h ≡ h → Represents (header_init s h).0 h []
header_init-Represents s h v h0 alone =
    unfold header_init in
    record {
      linked = record {
        prev_next = λ n. ground (arith, v.prev_next n, v.prev_next h);
        next_prev = λ n. ground (arith, v.next_prev n, v.prev_next h);
        null_next = ground (arith, v.null_next);
        null_prev = ground (arith, v.null_prev);
      };
      header = h0;
      flagged = ground arith;
      nodes = tt;
      distinct = tt;
      chain = ground arith;
    }
