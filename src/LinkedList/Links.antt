-- ===== src/LinkedList/Links.antt =====
-- The shape of the whole store of src/round/util/list.c: `next` and `prev` undo each other.
use round.Common.{
  ℕ, ◌≡◌, refl, ◌≢◌, true, false, inl, inr, arith, ◌==◌, if◌then◌else◌, update, Bool-cases,
}
use round.LinkedList.{Store, unlink_next, unlink_prev, self_link, remove, link_after, insert}

-- A node with no list is linked to itself, so a store in which no node is in a list is linked too.
pub record IsLinked (s : Store) : Type 0 where
  pub prev_next : (n : ℕ) → s.prev (s.next n) ≡ n
  pub next_prev : (n : ℕ) → s.next (s.prev n) ≡ n
  pub null_next : s.next 0 ≡ 0
  pub null_prev : s.prev 0 ≡ 0

-- The store of `remove`, on the branch that writes.
pub unlink : Store → ℕ → Store
unfolding unlink_next unlink_prev self_link
unlink s n = self_link (unlink_prev (unlink_next s n) n) n

module _ {s : Store} (v : IsLinked s) where
  pub next-ne-zero : (n : ℕ) → n ≢ 0 → s.next n ≢ 0
  next-ne-zero n h e = h (ground (arith, v.prev_next n, v.null_prev))

  pub prev-ne-zero : (n : ℕ) → n ≢ 0 → s.prev n ≢ 0
  prev-ne-zero n h e = h (ground (arith, v.next_prev n, v.null_next))

module _ (s : Store) (n : ℕ) where
  -- What the links are after `remove`.
  pub next-unlink :
      IsLinked s
      → (j : ℕ)
      → (unlink s n).next j ≡ (if j == n then n else if j == s.prev n then s.next n else s.next j)
  unfolding unlink update
  next-unlink v j = ground (arith, v.prev_next n, v.next_prev n)

  pub prev-unlink :
      IsLinked s
      → (j : ℕ)
      → (unlink s n).prev j ≡ (if j == n then n else if j == s.next n then s.prev n else s.prev j)
  unfolding unlink update
  prev-unlink v j = ground (arith, v.prev_next n, v.next_prev n)

  pub unlink-IsLinked : n ≢ 0 → IsLinked s → IsLinked (unlink s n)
  unlink-IsLinked h v = record {
    prev_next = λ j. ground (
      arith,
      next-unlink v j,
      prev-unlink v ((unlink s n).next j),
      v.prev_next n,
      v.next_prev n,
      v.prev_next j,
      v.next_prev j,
    );
    next_prev = λ j. ground (
      arith,
      prev-unlink v j,
      next-unlink v ((unlink s n).prev j),
      v.prev_next n,
      v.next_prev n,
      v.prev_next j,
      v.next_prev j,
    );
    null_next =
        ground (arith, next-unlink v 0, next-ne-zero v n h, prev-ne-zero v n h, v.null_next);
    null_prev =
        ground (arith, prev-unlink v 0, next-ne-zero v n h, prev-ne-zero v n h, v.null_prev);
  }

  -- `remove` writes exactly when the node is no NULL.
  pub remove-unlink : n ≢ 0 → IsLinked s → remove s n ≡ (unlink s n, true)
  unfolding remove unlink
  remove-unlink h v = ground (arith, next-ne-zero v n h, prev-ne-zero v n h)

-- A node that stands alone is put behind another one.
module _ (s : Store) (p n : ℕ) (alone : s.next n ≡ n) (other : p ≢ n) where
  pub next-link_after :
      (j : ℕ)
      → (link_after s p n).next j ≡ (if j == p then n else if j == n then s.next p else s.next j)
  unfolding link_after
  next-link_after j = ground arith

  pub prev-link_after :
      IsLinked s
      → (j : ℕ)
      → (link_after s p n).prev j ≡ (if j == s.next p then n else if j == n then p else s.prev j)
  unfolding link_after
  prev-link_after v j = ground (arith, v.prev_next p, v.prev_next n)

  pub link_after-IsLinked : p ≢ 0 → n ≢ 0 → IsLinked s → IsLinked (link_after s p n)
  link_after-IsLinked hp hn v = record {
    prev_next = λ j. ground (
      arith,
      next-link_after j,
      prev-link_after v ((link_after s p n).next j),
      v.prev_next p,
      v.prev_next n,
      v.prev_next j,
    );
    next_prev = λ j. ground (
      arith,
      prev-link_after v j,
      next-link_after ((link_after s p n).prev j),
      v.next_prev j,
      v.prev_next p,
      v.prev_next n,
      v.next_prev n,
    );
    null_next = ground (arith, next-link_after 0, v.null_next);
    null_prev = ground (arith, prev-link_after v 0, v.null_prev, next-ne-zero v p hp);
  }

pub unlink_alone : (s : Store) (n : ℕ) → (unlink s n).next n ≡ n
unfolding unlink
unlink_alone s n = ground arith

remove-null : (s : Store) → remove s 0 ≡ (s, false)
unfolding remove
remove-null s = refl

module _ (s : Store) (n : ℕ) where
  pub remove-IsLinked : IsLinked s → IsLinked (remove s n).0
  remove-IsLinked v = elim (Bool-cases (n == 0)) [
    | inl e ↦ let z : n ≡ 0 = ground arith in rw (z, remove-null s) v
    | inr e ↦ rw (remove-unlink s n (ground arith) v) (unlink-IsLinked s n (ground arith) v)
  ]

  pub insert-link_after :
      (p : ℕ) → p ≢ 0 → n ≢ 0 → IsLinked s → insert s p n ≡ (link_after (unlink s n) p n, true)
  unfolding insert
  insert-link_after p hp hn v = rw (remove-unlink s n hn v) (ground arith)

  -- To insert a node behind itself leaves it alone.
  pub link_after_self :
      (j : ℕ)
      → ((link_after (unlink s n) n n).next j ≡ (unlink s n).next j)
        × ((link_after (unlink s n) n n).prev j ≡ (unlink s n).prev j)
  unfolding link_after unlink update
  link_after_self j = ground arith

  pub insert-IsLinked : (p : ℕ) → p ≢ 0 → n ≢ 0 → IsLinked s → IsLinked (insert s p n).0
  insert-IsLinked p hp hn v =
      let u : IsLinked (unlink s n) = unlink-IsLinked s n hn v in
      rw (insert-link_after p hp hn v) (elim (Bool-cases (p == n)) [
        | inl e ↦
            let q : p ≡ n = ground arith in
            rw q (record {
              prev_next = λ j. ground (
                arith,
                link_after_self j,
                link_after_self ((link_after (unlink s n) n n).next j),
                u.prev_next j,
              );
              next_prev = λ j. ground (
                arith,
                link_after_self j,
                link_after_self ((link_after (unlink s n) n n).prev j),
                u.next_prev j,
              );
              null_next = ground (arith, link_after_self 0, u.null_next);
              null_prev = ground (arith, link_after_self 0, u.null_prev);
            })
        | inr e ↦ link_after-IsLinked (unlink s n) p n (unlink_alone s n) (ground arith) hp hn u
      ])

  pub head_flag-insert : (p : ℕ) → (insert s p n).0.head_flag ≡ s.head_flag
  unfolding insert remove
  head_flag-insert p = ground arith

  pub head_flag-remove : (remove s n).0.head_flag ≡ s.head_flag
  unfolding remove
  head_flag-remove = ground arith

  pub freed-remove : (remove s n).0.freed ≡ s.freed
  unfolding remove
  freed-remove = ground arith

pub insert-true : (s : Store) (p n : ℕ) → p ≢ 0 → n ≢ 0 → insert s p n ≡ ((insert s p n).0, true)
unfolding insert
insert-true s p n hp hn = ground arith
