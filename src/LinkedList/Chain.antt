-- ===== src/LinkedList/Chain.antt =====
-- A header of src/round/util/list.c with its nodes, as a list of pointers, and what `remove` and
-- `insert` do to that list.
use round.Common.{
  ℕ, ◌≡◌, sym, ◌≢◌, true, false, inl, inr, List, [], ◌∷◌, arith, ◌==◌, ◌∙◌, if◌then◌else◌,
  Bool-cases, All, All-map, Distinct,
}
use round.LinkedList.{Store, link_after}
use round.LinkedList.Links.{IsLinked, unlink, next-unlink, next-link_after}

-- The `next` links lead from `a` through `xs` to `b`.
abbrev pub Chain : Store → ℕ → List ℕ → ℕ → Type 0
Chain s a [] b = s.next a ≡ b
Chain s a (x ∷ xs) b = (s.next a ≡ x) × Chain s x xs b

abbrev pub IsNode : Store → ℕ → Type 0
IsNode s x = (x ≢ 0) × (s.head_flag x ≡ false)

-- The header `h` holds the nodes `xs`, in that order.
pub record Represents (s : Store) (h : ℕ) (xs : List ℕ) : Type 0 where
  pub linked : IsLinked s
  pub header : h ≢ 0
  pub flagged : s.head_flag h ≡ true
  pub nodes : All (IsNode s) xs
  pub distinct : Distinct xs
  pub chain : Chain s h xs h

unfoldable pub erase : ℕ → List ℕ → List ℕ
erase n [] = []
erase n (x ∷ xs) = if x == n then xs else x ∷ erase n xs

-- The list behind `a`, with `n` put behind `p`; nothing is put in where `p` is not there.
unfoldable pub insert_from : ℕ → ℕ → ℕ → List ℕ → List ℕ
insert_from a p n [] = if a == p then n ∷ [] else []
insert_from a p n (x ∷ xs) = if a == p then n ∷ x ∷ xs else x ∷ insert_from x p n xs

pub Chain-frame :
    (s t : Store) (a : ℕ) (xs : List ℕ) (b : ℕ)
    → All (λ j. t.next j ≡ s.next j) (a ∷ xs)
    → Chain s a xs b
    → Chain t a xs b
Chain-frame s t a [] b f c = f.0 ∙ c
Chain-frame s t a (x ∷ xs) b f c = (f.0 ∙ c.0, Chain-frame s t x xs b f.1 c.1)

pub Chain-avoids :
    (s : Store) (n a : ℕ) (xs : List ℕ) (b : ℕ)
    → Chain s a xs b
    → All (λ x. x ≢ n) xs
    → b ≢ n
    → All (λ j. s.next j ≢ n) (a ∷ xs)
Chain-avoids s n a [] b c h e = (λ q. e (sym c ∙ q), tt)
Chain-avoids s n a (x ∷ xs) b c h e = (λ q. h.0 (sym c.0 ∙ q), Chain-avoids s n x xs b c.1 h.1 e)

pub All-erase {κ} : (P : ℕ → Type κ) (n : ℕ) (xs : List ℕ) → All P xs → All P (erase n xs)
unfolding erase
All-erase P n [] h = tt
All-erase P n (x ∷ xs) h = elim (Bool-cases (x == n)) [
  | inl e ↦ rw e h.1
  | inr e ↦ rw e (h.0, All-erase P n xs h.1)
]

pub Distinct-erase : (n : ℕ) (xs : List ℕ) → Distinct xs → Distinct (erase n xs)
unfolding erase
Distinct-erase n [] d = tt
Distinct-erase n (x ∷ xs) d = elim (Bool-cases (x == n)) [
  | inl e ↦ rw e d.1
  | inr e ↦ rw e (All-erase _ n xs d.0, Distinct-erase n xs d.1)
]

-- The erased node is gone, since it stood there once.
pub erase-absent : (n : ℕ) (xs : List ℕ) → Distinct xs → All (λ x. x ≢ n) (erase n xs)
unfolding erase
erase-absent n [] d = tt
erase-absent n (x ∷ xs) d = elim (Bool-cases (x == n)) [
  | inl e ↦ let q : x ≡ n = ground arith in rw e (All-map xs (λ y ne w. ne (q ∙ sym w)) d.0)
  | inr e ↦ rw e (ground arith, erase-absent n xs d.1)
]

unlink_frame :
    (s : Store) (n a : ℕ) (xs : List ℕ) (b : ℕ)
    → IsLinked s
    → Chain s a xs b
    → a ≢ n
    → All (λ x. x ≢ n) xs
    → b ≢ n
    → Chain (unlink s n) a xs b
unlink_frame s n a xs b v c na h nb =
    Chain-frame s (unlink s n) a xs b (keep (a ∷ xs) (na, h) (Chain-avoids s n a xs b c h nb)) c
  where
    keep :
        (ys : List ℕ)
        → All (λ x. x ≢ n) ys
        → All (λ j. s.next j ≢ n) ys
        → All (λ j. (unlink s n).next j ≡ s.next j) ys
    keep [] f g = tt
    keep (y ∷ ys) f g =
        (ground (arith, f.0, g.0, next-unlink s n v y, v.next_prev n), keep ys f.1 g.1)

-- `remove` takes the node out of the chain that it stands in, and leaves every other chain.
pub Chain-unlink :
    (s : Store) (n a : ℕ) (xs : List ℕ) (b : ℕ)
    → IsLinked s
    → Chain s a xs b
    → a ≢ n
    → b ≢ n
    → Distinct xs
    → Chain (unlink s n) a (erase n xs) b
unfolding erase
Chain-unlink s n a [] b v c na nb d = unlink_frame s n a [] b v c na tt nb
Chain-unlink s n a (x ∷ xs) b v c na nb d = elim (Bool-cases (x == n)) [
  | inl e ↦ rw e (
      bypass xs (ground arith) c.1
        (All-map xs (λ y ne w. ne (let q : x ≡ n = ground arith in q ∙ sym w)) d.0))
  | inr e ↦ rw e (step (ground arith), Chain-unlink s n x xs b v c.1 (ground arith) nb d.1)
]
  where
    step : x ≢ n → (unlink s n).next a ≡ x
    step h = ground (arith, h, c.0, next-unlink s n v a, v.next_prev n)

    bypass :
        (ys : List ℕ) → x ≡ n → Chain s x ys b → All (λ y. y ≢ n) ys → Chain (unlink s n) a ys b
    bypass [] q k h = ground (arith, q, k, c.0, next-unlink s n v a, v.prev_next a)
    bypass (y ∷ ys) q k h = (
      ground (arith, q, k.0, c.0, next-unlink s n v a, v.prev_next a),
      unlink_frame s n y ys b v k.1 h.0 h.1 nb,
    )

-- `link_after` puts the node behind `p`, wherever `p` stands.
pub Chain-link_after :
    (s : Store) (p n : ℕ)
    → s.next n ≡ n
    → p ≢ n
    → (a : ℕ) (xs : List ℕ) (b : ℕ) → Chain s a xs b
    → All (λ x. x ≢ n) (a ∷ xs)
    → Distinct (a ∷ xs)
    → Chain (link_after s p n) a (insert_from a p n xs) b
unfolding insert_from
Chain-link_after s p n al pn a [] b c h d = elim (Bool-cases (a == p)) [
  | inl e ↦ rw e (
    ground (arith, next-link_after s p n al pn a),
    ground (arith, c, next-link_after s p n al pn n),
  )
  | inr e ↦ rw e (ground (arith, h.0, c, next-link_after s p n al pn a))
]
Chain-link_after s p n al pn a (x ∷ xs) b c h d = elim (Bool-cases (a == p)) [
  | inl e ↦
      let q : a ≡ p = ground arith in
      rw e (
        ground (arith, next-link_after s p n al pn a),
        (
          ground (arith, c.0, next-link_after s p n al pn n),
          Chain-frame s (link_after s p n) x xs b
              (keep (x ∷ xs) h.1 (All-map (x ∷ xs) (λ y ne w. ne (q ∙ sym w)) d.0)) c.1,
        ),
      )
  | inr e ↦ rw e (
    ground (arith, h.0, c.0, next-link_after s p n al pn a),
    Chain-link_after s p n al pn x xs b c.1 h.1 d.1,
  )
]
  where
    keep :
        (ys : List ℕ)
        → All (λ y. y ≢ n) ys
        → All (λ y. y ≢ p) ys
        → All (λ j. (link_after s p n).next j ≡ s.next j) ys
    keep [] f g = tt
    keep (y ∷ ys) f g = (ground (arith, f.0, g.0, next-link_after s p n al pn y), keep ys f.1 g.1)
