-- ===== src/Map/Bucket.antt =====
-- One bucket: search, removal and addition at the end.
use round.Common.{
  ℕ, ◌≡◌, refl, sym, ◌∙◌, ◌≢◌, Bool, true, inl, inr, none, some, List, [], ◌∷◌, ◌++◌, arith,
  if◌then◌else◌, Bool-cases, All, All-map, All-append,
}
use round.Text.{CString, streq}
use round.Text.Order.{streq_iff}
use round.Map.{MapObject, Bucket, iskey, find, take_out}

abbrev pub eq_key : List ℕ → List ℕ → Bool
eq_key j k = streq (some j) (some k)

pub eq_key_refl : (k : List ℕ) → eq_key k k ≡ true
eq_key_refl k = (streq_iff k k).1 refl

module _ {ℓ} {V : Type ℓ} where
  -- No key stands in the bucket twice.
  abbrev pub DistinctKeys : Bucket V → Type 0
  DistinctKeys [] = Unit
  DistinctKeys (o ∷ objs) = All (λ p. p.key ≢ o.key) objs × DistinctKeys objs

  pub find_absent :
      (objs : Bucket V) (k : List ℕ) → All (λ p. p.key ≢ k) objs → find objs (some k) ≡ none
  unfolding find
  find_absent [] k h = refl
  find_absent (o ∷ objs) k h = ground (arith, h.0, streq_iff o.key k, find_absent objs k h.1)

  pub find-take_out :
      (objs : Bucket V) (j k : List ℕ)
      → DistinctKeys objs
      → find (take_out objs (some j)) (some k) ≡ (if eq_key j k then none else find objs (some k))
  unfolding find take_out
  find-take_out [] j k d = ground arith
  find-take_out (o ∷ objs) j k d = ground (
    arith,
    streq_iff o.key j,
    streq_iff o.key k,
    streq_iff j k,
    find-take_out objs j k d.1,
    absent,
  )
    where
      absent : o.key ≡ k → find objs (some k) ≡ none
      absent q = find_absent objs k (All-map objs (λ p f e. f (e ∙ sym q)) d.0)

  pub find-snoc :
      (objs : Bucket V) (o : MapObject V) (k : List ℕ)
      → find objs (some o.key) ≡ none
      → find (objs ++ o ∷ []) (some k) ≡ (if eq_key o.key k then some o else find objs (some k))
  unfolding find
  find-snoc [] o k h = ground arith
  find-snoc (p ∷ objs) o k h =
      ground
        (arith, streq_iff p.key o.key, streq_iff p.key k, streq_iff o.key k, find-snoc objs o k)

  pub All-take_out {κ} :
      (P : MapObject V → Type κ) (objs : Bucket V) (k : CString)
      → All P objs
      → All P (take_out objs k)
  unfolding take_out
  All-take_out P [] k h = tt
  All-take_out P (o ∷ objs) k h = elim (Bool-cases (iskey o k)) [
    | inl e ↦ rw e h.1
    | inr e ↦ rw e (h.0, All-take_out P objs k h.1)
  ]

  pub DistinctKeys-take_out :
      (objs : Bucket V) (k : CString) → DistinctKeys objs → DistinctKeys (take_out objs k)
  unfolding take_out
  DistinctKeys-take_out [] k d = tt
  DistinctKeys-take_out (o ∷ objs) k d = elim (Bool-cases (iskey o k)) [
    | inl e ↦ rw e d.1
    | inr e ↦ rw e (All-take_out _ objs k d.0, DistinctKeys-take_out objs k d.1)
  ]

  pub take_out_absent :
      (objs : Bucket V) (k : List ℕ)
      → DistinctKeys objs
      → All (λ p. p.key ≢ k) (take_out objs (some k))
  unfolding take_out iskey
  take_out_absent [] k d = tt
  take_out_absent (o ∷ objs) k d = elim (Bool-cases (iskey o (some k))) [
    | inl e ↦
        let q : o.key ≡ k = (streq_iff o.key k).0 e in
        rw (e, take_out) (All-map objs (λ p f w. f (w ∙ sym q)) d.0)
    | inr e ↦ rw (e, take_out) ((λ q. cc ((streq_iff o.key k).1 q, e)), take_out_absent objs k d.1)
  ]

  pub absent_of_find :
      (objs : Bucket V) (k : List ℕ) → find objs (some k) ≡ none → All (λ p. p.key ≢ k) objs
  unfolding find iskey
  absent_of_find [] k h = tt
  absent_of_find (o ∷ objs) k h = elim (Bool-cases (iskey o (some k))) [
    | inl e ↦ absurd (ground arith)
    | inr e ↦ ((λ q. cc ((streq_iff o.key k).1 q, e)), absent_of_find objs k (rw e at h))
  ]

  pub DistinctKeys-snoc :
      (objs : Bucket V) (o : MapObject V)
      → DistinctKeys objs
      → All (λ p. p.key ≢ o.key) objs
      → DistinctKeys (objs ++ o ∷ [])
  DistinctKeys-snoc [] o d h = (tt, tt)
  DistinctKeys-snoc (p ∷ objs) o d h =
      (All-append _ objs (o ∷ []) d.0 ((λ e. h.0 (sym e)), tt), DistinctKeys-snoc objs o d.1 h.1)
