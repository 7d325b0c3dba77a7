-- ===== src/Registry/Write.antt =====
-- What a write through a pointer into a map (util/map.c) leaves behind.
use round.Common.{
  ℕ, ◌%◌, ◌≡◌, ◌≢◌, refl, sym, ap, subst, ◌∙◌, Bool, true, false, inl, inr, Option, none, some,
  List, [], ◌∷◌, ◌==◌, if◌then◌else◌, arith, Bool-cases, Option-cases, All, All-map, set,
}
use round.Text.{CString}
use round.Text.Order.{streq_iff}
use round.Map.{
  MapObject, Bucket, RoundMap, iskey, find, bucket, getkeycode, getmapobjectbykey, getobjectbykey,
}
use round.Map.Bucket.{eq_key, DistinctKeys, find_absent}
use round.Map.Invariant.{IsMap, IsBucket, bucket-IsBucket, with_bucket-IsMap}
use round.Map.Invariant.Lookup.{
  getmapobjectbykey_of, getmapobjectbykey-none, getmapobjectbykey-set, code_same,
}
use round.Registry.{write_in, write}
use mathlib.Core.Option

module _ {V : Type 0} (f : V → V) where
  abbrev pub changed : MapObject V → MapObject V
  changed o = record o { obj = f o.obj }

  All-write_in :
      (P : MapObject V → Type 0)
      → ((o : MapObject V) → P o → P (changed o))
      → (objs : Bucket V) (k : CString) → All P objs
      → All P (write_in objs k f)
  unfolding write_in
  All-write_in P c [] k h = tt
  All-write_in P c (o ∷ objs) k h = elim (Bool-cases (iskey o k)) [
    | inl e ↦ rw e (c o h.0, h.1)
    | inr e ↦ rw e (h.0, All-write_in P c objs k h.1)
  ]

  DistinctKeys-write_in :
      (objs : Bucket V) (k : CString) → DistinctKeys objs → DistinctKeys (write_in objs k f)
  unfolding write_in
  DistinctKeys-write_in [] k d = tt
  DistinctKeys-write_in (o ∷ objs) k d = elim (Bool-cases (iskey o k)) [
    | inl e ↦ rw e d
    | inr e ↦
        rw e (
          All-write_in (λ p. p.key ≢ o.key) (λ p n. n) objs k d.0,
          DistinctKeys-write_in objs k d.1,
        )
  ]

  find-write_in :
      (objs : Bucket V) (j k : List ℕ)
      → DistinctKeys objs
      → find (write_in objs (some j) f) (some k)
        ≡ (if eq_key j k then Option.map changed (find objs (some k)) else find objs (some k))
  unfolding find write_in iskey
  find-write_in [] j k d = ground arith
  find-write_in (o ∷ objs) j k d = ground (
    arith,
    streq_iff o.key j,
    streq_iff o.key k,
    streq_iff j k,
    find-write_in objs j k d.1,
    absent,
  )
    where
      absent : o.key ≡ k → find objs (some k) ≡ none
      absent q = find_absent objs k (All-map objs (λ p n e. n (e ∙ sym q)) d.0)

module _ {V : Type 0} (hash : CString → ℕ) (map : RoundMap V) (m : IsMap hash map) (j : List ℕ)
    (f : V → V) where
  objs-IsBucket :
      (objs : Bucket V)
      → bucket hash map (some j) ≡ some objs
      → IsBucket hash map.table_size (getkeycode hash map (some j)) (some objs)
  objs-IsBucket objs e =
      subst (IsBucket hash map.table_size (getkeycode hash map (some j))) e
        (bucket-IsBucket hash map m (some j))

  abbrev written : Bucket V → RoundMap V
  written objs = record map {
    table = set map.table (getkeycode hash map (some j)) (some (write_in objs (some j) f));
  }

  write_absent : bucket hash map (some j) ≡ none → write hash map (some j) f ≡ map
  unfolding write
  write_absent e = ground (arith, e)

  write_present :
      (objs : Bucket V)
      → bucket hash map (some j) ≡ some objs
      → write hash map (some j) f ≡ written objs
  unfolding write
  write_present objs e = ground (arith, e)

  pub write-IsMap : IsMap hash (write hash map (some j) f)
  write-IsMap = elim (Option-cases (bucket hash map (some j))) [
    | inl e ↦ rw (write_absent e) m
    | inr (objs, e) ↦
        let b = objs-IsBucket objs e in
        rw (write_present objs e) (
          with_bucket-IsMap hash map m (some j) (some (write_in objs (some j) f)) map.destroyed (
            DistinctKeys-write_in f objs (some j) b.0,
            All-write_in f (λ o. hash (some o.key) % map.table_size ≡ getkeycode hash map (some j))
                (λ o q. q) objs (some j) b.1,
          ))
  ]

  pub getmapobjectbykey-write :
      (k : List ℕ)
      → getmapobjectbykey hash (write hash map (some j) f) (some k) ≡ (
          if eq_key j k
          then Option.map (changed f) (getmapobjectbykey hash map (some k))
          else getmapobjectbykey hash map (some k))
  getmapobjectbykey-write k = elim (Option-cases (bucket hash map (some j))) [
    | inl e ↦ rw (write_absent e) (elim (Bool-cases (eq_key j k)) [
      | inl q ↦
          let s : j ≡ k = (streq_iff j k).0 q in
          let n : getmapobjectbykey hash map (some k) ≡ none =
            ap (λ x. getmapobjectbykey hash map (some x)) (sym s)
            ∙ getmapobjectbykey-none hash map (some j) e in
          rw (q, n) refl
      | inr q ↦ rw q refl
    ])
    | inr (objs, e) ↦ rw (write_present objs e) (
        getmapobjectbykey-set hash map m (some j) (some k) (write_in objs (some j) f) map.destroyed
        ∙ hit objs e)
  ]
    where
      hit :
          (objs : Bucket V)
          → bucket hash map (some j) ≡ some objs
          → (if getkeycode hash map (some j) == getkeycode hash map (some k)
              then find (write_in objs (some j) f) (some k)
              else getmapobjectbykey hash map (some k))
            ≡ (if eq_key j k
                then Option.map (changed f) (getmapobjectbykey hash map (some k))
                else getmapobjectbykey hash map (some k))
      hit objs e =
          elim (Bool-cases (getkeycode hash map (some j) == getkeycode hash map (some k))) [
            | inl q ↦
                let found : getmapobjectbykey hash map (some k) ≡ find objs (some k) =
                  getmapobjectbykey_of hash map (some k) objs
                    (sym (code_same hash map (some j) (some k) (ground arith)) ∙ e) in
                rw (q, found) (find-write_in f objs j k (objs-IsBucket objs e).0)
            | inr q ↦ elim (Bool-cases (eq_key j k)) [
              | inl w ↦
                  let s : j ≡ k = (streq_iff j k).0 w in
                  absurd (ground (arith, ap (λ x. getkeycode hash map (some x)) s))
              | inr w ↦ rw (q, w) refl
            ]
          ]

  pub getobjectbykey-write :
      (k : List ℕ)
      → getobjectbykey hash (write hash map (some j) f) (some k) ≡ (
          if eq_key j k
          then Option.map f (getobjectbykey hash map (some k))
          else getobjectbykey hash map (some k))
  getobjectbykey-write k =
      value_of (write hash map (some j) f) (some k)
      ∙ ap (λ o. Option.map (λ x. x.obj) o) (getmapobjectbykey-write k)
      ∙ step (eq_key j k) (getmapobjectbykey hash map (some k))
      ∙ ap (λ o. if eq_key j k then Option.map f o else o) (sym (value_of map (some k)))
    where
      value_of :
          (m : RoundMap V) (c : CString)
          → getobjectbykey hash m c ≡ Option.map (λ x. x.obj) (getmapobjectbykey hash m c)
      value_of m c =
          unfold getobjectbykey in
          elim (Option-cases (getmapobjectbykey hash m c)) [
            | inl e ↦ ground (arith, e)
            | inr (o, e) ↦ ground (arith, e)
          ]

      step :
          (b : Bool) (o : Option (MapObject V))
          → Option.map (λ x. x.obj) (if b then Option.map (changed f) o else o)
            ≡ (if b then Option.map f (Option.map (λ x. x.obj) o) else Option.map (λ x. x.obj) o)
      step true none = refl
      step true (some o) = refl
      step false none = refl
      step false (some o) = refl
