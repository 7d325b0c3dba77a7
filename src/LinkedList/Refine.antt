-- ===== src/LinkedList/Refine.antt =====
-- The operations of util/list.c that write links, against operations on the list of pointers.
use round.Common.{
  ℕ, ◌≡◌, refl, sym, ap, ◌∙◌, ◌≢◌, true, inl, inr, List, [], ◌∷◌, ◌++◌, arith, ◌==◌, Bool-cases,
  All, All-map, Distinct,
}
use round.LinkedList.{Store, remove, insert, addfirst, addlast}
use round.LinkedList.Links.{
  IsLinked, unlink, remove-unlink, insert-link_after, unlink_alone, head_flag-insert,
  head_flag-remove, remove-IsLinked, insert-IsLinked, prev-ne-zero,
}
use round.LinkedList.Chain.{
  Chain, IsNode, Represents, erase, insert_from, All-erase, Distinct-erase, erase-absent,
  Chain-unlink, Chain-link_after,
}

module _ {s : Store} {h : ℕ} {xs : List ℕ} (r : Represents s h xs) where
  -- The header is no node of its list.
  pub header-absent : All (λ x. x ≢ h) xs
  header-absent = All-map xs (λ x k e. ground (arith, k.1, r.flagged)) r.nodes

  pub Distinct-all : Distinct (h ∷ xs)
  Distinct-all = (All-map xs (λ x k e. k (sym e)) header-absent, r.distinct)

  -- Where the links of a store represent a list of nodes under a header, remove of any node but
  -- NULL and the header leaves links that represent the list without that node.
  pub remove-Represents : (n : ℕ) → n ≢ 0 → n ≢ h → Represents (remove s n).0 h (erase n xs)
  remove-Represents n n0 nh = record {
    linked = remove-IsLinked s n r.linked;
    header = r.header;
    flagged = rw (head_flag-remove s n) r.flagged;
    nodes =
        All-map (erase n xs) (λ x k. (k.0, rw (head_flag-remove s n) k.1))
          (All-erase (IsNode s) n xs r.nodes);
    distinct = Distinct-erase n xs r.distinct;
    chain =
        rw (remove-unlink s n n0 r.linked)
          (Chain-unlink s n h xs h r.linked r.chain (λ e. nh (sym e)) (λ e. nh (sym e)) r.distinct);
  }

All-insert_from {κ} :
    (P : ℕ → Type κ) (a p n : ℕ) (xs : List ℕ) → P n → All P xs → All P (insert_from a p n xs)
unfolding insert_from
All-insert_from P a p n [] hn h = elim (Bool-cases (a == p)) [
  | inl e ↦ rw e (hn, tt)
  | inr e ↦ rw e tt
]
All-insert_from P a p n (x ∷ xs) hn h = elim (Bool-cases (a == p)) [
  | inl e ↦ rw e (hn, h)
  | inr e ↦ rw e (h.0, All-insert_from P x p n xs hn h.1)
]

Distinct-insert_from :
    (a p n : ℕ) (xs : List ℕ) → All (λ x. x ≢ n) xs → Distinct xs → Distinct (insert_from a p n xs)
unfolding insert_from
Distinct-insert_from a p n [] h d = elim (Bool-cases (a == p)) [
  | inl e ↦ rw e (tt, tt)
  | inr e ↦ rw e tt
]
Distinct-insert_from a p n (x ∷ xs) h d = elim (Bool-cases (a == p)) [
  | inl e ↦ rw e (All-map (x ∷ xs) (λ y k e. k (sym e)) h, d)
  | inr e ↦ rw e (All-insert_from _ x p n xs h.0 d.0, Distinct-insert_from x p n xs h.1 d.1)
]

module _ {s : Store} {h : ℕ} {xs : List ℕ} (r : Represents s h xs) (n : ℕ) (node : IsNode s n) where
  pub node-ne-header : h ≢ n
  node-ne-header e = ground (arith, node.1, r.flagged)

  -- Where the links of a store represent a list of nodes under a header, insert of a node (not
  -- NULL, no header) behind a place other than NULL and the node itself leaves links that
  -- represent the list with the node taken out and put behind that place, which is the header or a
  -- node of the list; a place that is in neither leaves the node out.
  pub insert-Represents :
      (p : ℕ) → p ≢ 0 → p ≢ n → Represents (insert s p n).0 h (insert_from h p n (erase n xs))
  insert-Represents p p0 pn = record {
    linked = insert-IsLinked s n p p0 node.0 r.linked;
    header = r.header;
    flagged = rw (head_flag-insert s n p) r.flagged;
    nodes =
        All-map (insert_from h p n (erase n xs)) (λ x k. (k.0, rw (head_flag-insert s n p) k.1))
          (All-insert_from (IsNode s) h p n (erase n xs) node (All-erase (IsNode s) n xs r.nodes));
    distinct =
        Distinct-insert_from h p n (erase n xs) (erase-absent n xs r.distinct)
          (Distinct-erase n xs r.distinct);
    chain = rw (insert-link_after s n p p0 node.0 r.linked) (
        Chain-link_after (unlink s n) p n (unlink_alone s n) pn h (erase n xs) h
          (Chain-unlink s n h xs h r.linked r.chain node-ne-header node-ne-header r.distinct)
          (node-ne-header, erase-absent n xs r.distinct)
          (All-erase _ n xs (Distinct-all r).0, Distinct-erase n xs r.distinct));
  }

unfoldable pub last : ℕ → List ℕ → ℕ
last a [] = a
last a (x ∷ xs) = last x xs

-- The last node is the one before the header.
pub prev-last :
    (s : Store) (a : ℕ) (xs : List ℕ) (b : ℕ) → IsLinked s → Chain s a xs b → s.prev b ≡ last a xs
unfolding last
prev-last s a [] b v c = rw (← c) (v.prev_next a)
prev-last s a (x ∷ xs) b v c = prev-last s x xs b v c.1

pub erase_absent : (n : ℕ) (xs : List ℕ) → All (λ x. x ≢ n) xs → erase n xs ≡ xs
unfolding erase
erase_absent n [] h = refl
erase_absent n (x ∷ xs) h = ground (arith, h.0, erase_absent n xs h.1)

insert_from_first : (a n : ℕ) (xs : List ℕ) → insert_from a a n xs ≡ n ∷ xs
unfolding insert_from
insert_from_first a n [] = ground arith
insert_from_first a n (x ∷ xs) = ground arith

last_absent : (a : ℕ) (x : ℕ) (xs : List ℕ) → All (λ y. a ≢ y) (x ∷ xs) → a ≢ last x xs
unfolding last
last_absent a x [] h = h.0
last_absent a x (y ∷ xs) h = last_absent a y xs h.1

insert_from-last :
    (a n : ℕ) (xs : List ℕ) → Distinct (a ∷ xs) → insert_from a (last a xs) n xs ≡ xs ++ n ∷ []
unfolding insert_from last
insert_from-last a n [] d = ground arith
insert_from-last a n (x ∷ xs) d =
    ground (arith, last_absent a x xs d.0, insert_from-last x n xs d.1)

last_ne : {n : ℕ} (a : ℕ) (xs : List ℕ) → a ≢ n → All (λ x. x ≢ n) xs → last a xs ≢ n
unfolding last
last_ne a [] h k = h
last_ne a (x ∷ xs) h k = last_ne x xs k.0 k.1

pub addfirst-insert :
    (s : Store) (h n : ℕ) → h ≢ 0 → n ≢ 0 → addfirst s h n ≡ ((insert s h n).0, true)
unfolding addfirst
addfirst-insert s h n p q = ground arith

pub addlast-insert :
    (s : Store) (h n : ℕ)
    → h ≢ 0
    → n ≢ 0
    → s.prev h ≢ 0
    → addlast s h n ≡ ((insert s (s.prev h) n).0, true)
unfolding addlast
addlast-insert s h n p q r = ground arith

-- A node outside the list.
abbrev pub IsFresh : Store → List ℕ → ℕ → Type 0
IsFresh s xs n = IsNode s n × All (λ x. x ≢ n) xs

module _ {s : Store} {h : ℕ} {xs : List ℕ} (r : Represents s h xs) (n : ℕ)
    (fresh : IsFresh s xs n) where
  pub addfirst-Represents : Represents (addfirst s h n).0 h (n ∷ xs)
  addfirst-Represents =
      let k : Represents (insert s h n).0 h (n ∷ xs) =
        rw (insert_from_first h n (erase n xs), erase_absent n xs fresh.1) at
          (insert-Represents r n fresh.0 h r.header (node-ne-header r n fresh.0)) in
      rw (addfirst-insert s h n r.header fresh.0.0) k

  -- On links that represent a list, addlast of a node that is not in the list leaves links that
  -- represent the list with the node at its end.
  pub addlast-Represents : Represents (addlast s h n).0 h (xs ++ n ∷ [])
  addlast-Represents =
      let e : s.prev h ≡ last h xs = prev-last s h xs h r.linked r.chain in
      let p : last h xs ≢ n = last_ne h xs (node-ne-header r n fresh.0) fresh.1 in
      let k : Represents (insert s (s.prev h) n).0 h (xs ++ n ∷ []) =
        rw
          (
            ap (λ a. insert_from h a n (erase n xs)) e,
            erase_absent n xs fresh.1,
            insert_from-last h n xs (Distinct-all r),
          )
          at
          (insert-Represents r n fresh.0 (s.prev h) (prev-ne-zero r.linked h r.header)
            (λ q. p (sym e ∙ q))) in
      rw (addlast-insert s h n r.header fresh.0.0 (prev-ne-zero r.linked h r.header)) k
