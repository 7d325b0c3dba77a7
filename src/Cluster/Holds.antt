-- ===== src/Cluster/Holds.antt =====
-- Which identifiers the nodes of a ring have (src/round/util/consistent_hashing_ring.c), for the
-- clusters of src/round/cluster_manager.c.
use Prim.Native.Nat.{lt}
use round.Common.{
  ℕ, ◌≡◌, ◌≢◌, refl, sym, ap, ◌∙◌, Bool, true, false, not, ◌&&◌, ◌||◌, inl, inr, some, List, [],
  ◌∷◌, ◌==◌, if◌then◌else◌, arith, All, Bool-cases, ==_iff,
}
use round.Text.{CString, streq, strcmp}
use round.Text.Order.{streq_iff}
use round.LinkedList.Chain.{erase}
use round.OrderedList.Add.{any, place}
use round.Ring.{gethash, has_hash, getnodebyhashcode}
use round.Ring.Hash.{IsHashed, Before, IsAscending}

pub any-place : (p g : ℕ → Bool) (n : ℕ) (xs : List ℕ) → any p (place g n xs) ≡ (any p xs || p n)
unfolding any place
any-place p g n [] = ground arith
any-place p g n (x ∷ xs) = ground (arith, any-place p g n xs)

module _ (hash_func : ℕ → CString) where
  abbrev pub holds : List ℕ → CString → Bool
  holds ring id = any (has_hash hash_func id) ring

  pub has_hash-streq :
      (x : ℕ) (h g : List ℕ)
      → gethash hash_func x ≡ some g
      → has_hash hash_func (some h) x ≡ streq (some h) (some g)
  unfolding has_hash streq
  has_hash-streq x h g e = rw (e, has_hash) refl

  pub getnodebyhashcode-holds :
      (ring : List ℕ) (id : CString)
      → All (IsHashed hash_func) ring
      → (getnodebyhashcode hash_func ring id == 0) ≡ not (holds ring id)
  unfolding getnodebyhashcode any
  getnodebyhashcode-holds [] id hs = refl
  getnodebyhashcode-holds (x ∷ xs) id hs =
      ground (arith, getnodebyhashcode-holds xs id hs.1, hs.0.0)

  getnodebyhashcode_found :
      (ring : List ℕ) (id : CString)
      → getnodebyhashcode hash_func ring id ≢ 0
      → has_hash hash_func id (getnodebyhashcode hash_func ring id) ≡ true
  unfolding getnodebyhashcode
  getnodebyhashcode_found [] id h = absurd (h refl)
  getnodebyhashcode_found (x ∷ xs) id h = elim (Bool-cases (has_hash hash_func id x)) [
    | inl e ↦ rw e e
    | inr e ↦ rw e (getnodebyhashcode_found xs id (rw e at h))
  ]

  pub getnodebyhashcode_id :
      (ring : List ℕ) (id : List ℕ)
      → All (IsHashed hash_func) ring
      → getnodebyhashcode hash_func ring (some id) ≢ 0
      → gethash hash_func (getnodebyhashcode hash_func ring (some id)) ≡ some id
  unfolding getnodebyhashcode
  getnodebyhashcode_id [] id hs h = absurd (h refl)
  getnodebyhashcode_id (x ∷ xs) id hs h = elim (Bool-cases (has_hash hash_func (some id) x)) [
    | inl e ↦
        let (_, g, q) = hs.0 in
        rw e (q ∙ ap some (sym ((streq_iff id g).0 (sym (has_hash-streq x id g q) ∙ e))))
    | inr e ↦ rw e (getnodebyhashcode_id xs id hs.1 (rw e at h))
  ]

  Before-misses :
      (x : ℕ) (b : List ℕ) (xs : List ℕ)
      → gethash hash_func x ≡ some b
      → All (IsHashed hash_func) xs
      → All (Before hash_func x) xs
      → holds xs (some b) ≡ false
  unfolding any
  Before-misses x b [] e hs bs = refl
  Before-misses x b (y ∷ xs) e hs bs =
      let (_, g, q) = hs.0 in
      rw (has_hash-streq y b g q, miss g (rw (e, q) at bs.0)) (Before-misses x b xs e hs.1 bs.1)
    where
      miss : (g : List ℕ) → strcmp (some b) (some g) ≡ lt → streq (some b) (some g) ≡ false
      miss g l = unfold streq in rw l refl

  -- The search goes on behind a node with another identifier than the one taken out.
  holds-behind :
      (x : ℕ) (b h g : List ℕ) (r s : Bool)
      → has_hash hash_func (some h) x ≡ streq (some h) (some g)
      → streq (some b) (some g) ≡ false
      → r ≡ (s && not (streq (some h) (some b)))
      → (has_hash hash_func (some h) x || r)
        ≡ ((has_hash hash_func (some h) x || s) && not (streq (some h) (some b)))
  holds-behind x b h g r s w wb ih = elim (Bool-cases (streq (some h) (some b))) [
    | inl t ↦
        let hb : h ≡ b = (streq_iff h b).0 t in
        let z : has_hash hash_func (some h) x ≡ false =
          w ∙ ap (λ l. streq (some l) (some g)) hb ∙ wb in
        ground (arith, t, z, ih)
    | inr t ↦ ground (arith, t, ih)
  ]

  search_hit :
      (x : ℕ) (xs : List ℕ) (id : CString)
      → has_hash hash_func id x ≡ true
      → getnodebyhashcode hash_func (x ∷ xs) id ≡ x
  unfolding getnodebyhashcode
  search_hit x xs id e = rw e refl

  search_miss :
      (x : ℕ) (xs : List ℕ) (id : CString)
      → has_hash hash_func id x ≡ false
      → getnodebyhashcode hash_func (x ∷ xs) id ≡ getnodebyhashcode hash_func xs id
  unfolding getnodebyhashcode
  search_miss x xs id e = rw e refl

  -- A search for an identifier after the node of another one is taken out.
  pub holds-erase :
      (ring : List ℕ) (b h : List ℕ)
      → All (IsHashed hash_func) ring
      → IsAscending hash_func ring
      → holds (erase (getnodebyhashcode hash_func ring (some b)) ring) (some h)
        ≡ (holds ring (some h) && not (streq (some h) (some b)))
  unfolding any erase
  holds-erase [] b h hs a = refl
  holds-erase (x ∷ xs) b h hs a = elim (Bool-cases (has_hash hash_func (some b) x)) [
    | inl e ↦
        ap (λ m. holds (erase m (x ∷ xs)) (some h)) (search_hit x xs (some b) e)
        ∙ rw (==_refl x) (first e)
    | inr e ↦
        ap (λ m. holds (erase m (x ∷ xs)) (some h)) (search_miss x xs (some b) e)
        ∙ rest (holds-erase xs b h hs.1 a.1) e
  ]
    where
      ==_refl : (n : ℕ) → (n == n) ≡ true
      ==_refl n = (==_iff n n).1 refl

      first :
          has_hash hash_func (some b) x ≡ true
          → any (has_hash hash_func (some h)) xs ≡ (
              (has_hash hash_func (some h) x || any (has_hash hash_func (some h)) xs)
              && not (streq (some h) (some b)))
      first e =
          let (x0, g, q) = hs.0 in
          let bg : b ≡ g = (streq_iff b g).0 (sym (has_hash-streq x b g q) ∙ e) in
          let w : has_hash hash_func (some h) x ≡ streq (some h) (some b) =
            has_hash-streq x h g q ∙ ap (λ t. streq (some h) (some t)) (sym bg) in
          elim (Bool-cases (streq (some h) (some b))) [
            | inl s ↦
                let hb : h ≡ b = (streq_iff h b).0 s in
                let m : any (has_hash hash_func (some h)) xs ≡ false =
                  ap (λ t. any (has_hash hash_func (some t)) xs) hb
                  ∙ Before-misses x b xs (q ∙ ap some (sym bg)) hs.1 a.0 in
                ground (arith, s, m)
            | inr s ↦ ground (arith, s, w)
          ]

      rest :
          holds (erase (getnodebyhashcode hash_func xs (some b)) xs) (some h)
            ≡ (holds xs (some h) && not (streq (some h) (some b)))
          → has_hash hash_func (some b) x ≡ false
          → any (has_hash hash_func (some h)) (
              if x == getnodebyhashcode hash_func xs (some b)
              then xs
              else x ∷ erase (getnodebyhashcode hash_func xs (some b)) xs)
            ≡ ((has_hash hash_func (some h) x || any (has_hash hash_func (some h)) xs)
                && not (streq (some h) (some b)))
      rest ih e =
          let m = getnodebyhashcode hash_func xs (some b) in
          let (x0, g, q) = hs.0 in
          elim (Bool-cases (x == m)) [
            | inl s ↦
                let xm : x ≡ m = (==_iff x m).0 s in
                absurd (
                  cc (
                    sym e
                    ∙ ap (has_hash hash_func (some b)) xm
                    ∙ getnodebyhashcode_found xs (some b) (λ z. x0 (xm ∙ z))))
            | inr s ↦
                let w = has_hash-streq x h g q in
                let wb : streq (some b) (some g) ≡ false = sym (has_hash-streq x b g q) ∙ e in
                rw s (holds-behind x b h g _ _ w wb ih)
          ]
