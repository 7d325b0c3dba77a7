-- ===== src/Map/Invariant/Lookup.antt =====
-- What the lookups of util/map.c give where one bucket was replaced.
use round.Common.{
  ℕ, ◌≡◌, refl, sym, subst, ap, ◌∙◌, true, false, inl, inr, none, some, List, arith, ◌==◌,
  if◌then◌else◌, Bool-cases, Option-cases, set,
}
use round.Text.{CString}
use round.Text.Order.{streq_iff}
use round.Map.{
  MapObject, Bucket, RoundMap, find, take_out, getkeycode, bucket, getmapobjectbykey,
  removeobjectbykey, object_delete,
}
use round.Map.Bucket.{eq_key, find-take_out}
use round.Map.Invariant.{IsMap, IsBucket, bucket-set, bucket-IsBucket}

module _ {ℓ} {V : Type ℓ} (map_hash_func : CString → ℕ) where
  pub getmapobjectbykey_of :
      (map : RoundMap V) (k : CString) (objs : Bucket V)
      → bucket map_hash_func map k ≡ some objs
      → getmapobjectbykey map_hash_func map k ≡ find objs k
  unfolding getmapobjectbykey
  getmapobjectbykey_of map k objs e = ground (arith, e)

  pub getmapobjectbykey-none :
      (map : RoundMap V) (k : CString)
      → bucket map_hash_func map k ≡ none
      → getmapobjectbykey map_hash_func map k ≡ none
  unfolding getmapobjectbykey
  getmapobjectbykey-none map k e = ground (arith, e)

  getmapobjectbykey_cong :
      (a b : RoundMap V) (k : CString)
      → bucket map_hash_func a k ≡ bucket map_hash_func b k
      → getmapobjectbykey map_hash_func a k ≡ getmapobjectbykey map_hash_func b k
  unfolding getmapobjectbykey
  getmapobjectbykey_cong a b k e = ground (arith, e)

module _ {ℓ} {V : Type ℓ} (map_hash_func : CString → ℕ) (map : RoundMap V) where
  pub remove_hit :
      (j : List ℕ) (objs : Bucket V) (o : MapObject V)
      → bucket map_hash_func map (some j) ≡ some objs
      → find objs (some j) ≡ some o
      → removeobjectbykey map_hash_func map (some j) ≡ (
        record map {
          table =
              set map.table (getkeycode map_hash_func map (some j)) (some (take_out objs (some j)));
          destroyed = object_delete o map.destroyed;
        },
        true,
      )
  unfolding removeobjectbykey
  remove_hit j objs o e f = ground (arith, e, f)

  pub remove_miss :
      (j : List ℕ)
      → getmapobjectbykey map_hash_func map (some j) ≡ none
      → removeobjectbykey map_hash_func map (some j) ≡ (map, false)
  unfolding removeobjectbykey getmapobjectbykey
  remove_miss j e = ground arith

  eq_key→eq : (j k : List ℕ) → eq_key j k ≡ true → j ≡ k
  eq_key→eq j k = (streq_iff j k).0

  -- With the bucket of `j` replaced, the other buckets answer as before.
  pub getmapobjectbykey-set :
      IsMap map_hash_func map
      → (j k : CString) (objs : Bucket V) (log : List V)
      → getmapobjectbykey map_hash_func
          (record map {
            table = set map.table (getkeycode map_hash_func map j) (some objs);
            destroyed = log;
          })
          k
        ≡ (if getkeycode map_hash_func map j == getkeycode map_hash_func map k
            then find objs k
            else getmapobjectbykey map_hash_func map k)
  getmapobjectbykey-set m j k objs log =
      elim (Bool-cases (getkeycode map_hash_func map j == getkeycode map_hash_func map k)) [
        | inl e ↦ rw e (
            getmapobjectbykey_of map_hash_func _ k objs
              (rw e at (bucket-set map_hash_func map m j k (some objs) log)))
        | inr e ↦ rw e (
            getmapobjectbykey_cong map_hash_func _ map k
              (rw e at (bucket-set map_hash_func map m j k (some objs) log)))
      ]

  pub code_same :
      (j k : CString)
      → getkeycode map_hash_func map j ≡ getkeycode map_hash_func map k
      → bucket map_hash_func map j ≡ bucket map_hash_func map k
  unfolding bucket
  code_same j k e = rw e refl

module _ {ℓ} {V : Type ℓ} (map_hash_func : CString → ℕ) (map : RoundMap V)
    (m : IsMap map_hash_func map) where
  -- What `removeobjectbykey` leaves behind under each key.
  pub getmapobjectbykey-removeobjectbykey :
      (j k : List ℕ)
      → getmapobjectbykey map_hash_func (removeobjectbykey map_hash_func map (some j)).0 (some k)
        ≡ (if eq_key j k then none else getmapobjectbykey map_hash_func map (some k))
  getmapobjectbykey-removeobjectbykey j k =
      elim (Option-cases (bucket map_hash_func map (some j))) [
        | inl e ↦ missed (getmapobjectbykey-none map_hash_func map (some j) e)
        | inr (objs, e) ↦ elim (Option-cases (find objs (some j))) [
          | inl f ↦ missed (getmapobjectbykey_of map_hash_func map (some j) objs e ∙ f)
          | inr (o, f) ↦ rw (remove_hit map_hash_func map j objs o e f) (
              getmapobjectbykey-set map_hash_func map m (some j) (some k) (take_out objs (some j))
                (object_delete o map.destroyed)
              ∙ hit objs e)
        ]
      ]
    where
      missed :
          getmapobjectbykey map_hash_func map (some j) ≡ none
          → getmapobjectbykey map_hash_func
              (removeobjectbykey map_hash_func map (some j)).0
              (some k)
            ≡ (if eq_key j k then none else getmapobjectbykey map_hash_func map (some k))
      missed e = rw (remove_miss map_hash_func map j e) (elim (Bool-cases (eq_key j k)) [
        | inl q ↦ let s : j ≡ k = (streq_iff j k).0 q in rw (q, ← s) e
        | inr q ↦ rw q refl
      ])

      objs-IsBucket :
          (objs : Bucket V)
          → bucket map_hash_func map (some j) ≡ some objs
          → IsBucket map_hash_func map.table_size
              (getkeycode map_hash_func map (some j))
              (some objs)
      objs-IsBucket objs e =
          subst (IsBucket map_hash_func map.table_size (getkeycode map_hash_func map (some j))) e
            (bucket-IsBucket map_hash_func map m (some j))

      found :
          (objs : Bucket V)
          → bucket map_hash_func map (some j) ≡ some objs
          → getkeycode map_hash_func map (some j) ≡ getkeycode map_hash_func map (some k)
          → getmapobjectbykey map_hash_func map (some k) ≡ find objs (some k)
      found objs e c =
          getmapobjectbykey_of map_hash_func map (some k) objs
            (sym (code_same map_hash_func map (some j) (some k) c) ∙ e)

      hit :
          (objs : Bucket V)
          → bucket map_hash_func map (some j) ≡ some objs
          → (if getkeycode map_hash_func map (some j) == getkeycode map_hash_func map (some k)
              then find (take_out objs (some j)) (some k)
              else getmapobjectbykey map_hash_func map (some k))
            ≡ (if eq_key j k then none else getmapobjectbykey map_hash_func map (some k))
      hit objs e =
          elim (Bool-cases
            (getkeycode map_hash_func map (some j) == getkeycode map_hash_func map (some k))) [
              | inl q ↦ rw q (
                  find-take_out objs j k (objs-IsBucket objs e).0
                  ∙ ap (λ x. if eq_key j k then none else x) (sym (found objs e (ground arith))))
              | inr q ↦ elim (Bool-cases (eq_key j k)) [
                | inl w ↦
                    let s : j ≡ k = (streq_iff j k).0 w in
                    absurd (ground (arith, ap (λ x. getkeycode map_hash_func map (some x)) s))
                | inr w ↦ rw (q, w) refl
              ]
            ]
