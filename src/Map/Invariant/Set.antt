-- ===== src/Map/Invariant/Set.antt =====
-- The invariant and the answers of a map behind `round_map_removeobjectbykey` and
-- `round_map_setobject` of src/round/util/map.c.
use round.Common.{
  ℕ, ◌≡◌, refl, sym, subst, ap, ◌∙◌, Bool, true, false, inl, inr, Option, none, some, List, [], ◌∷◌,
  ◌++◌, arith, ◌==◌, if◌then◌else◌, Bool-cases, Option-cases, All-append, set,
}
use round.Text.{CString}
use round.Text.Order.{streq_iff}
use round.Map.{
  MapObject, Bucket, RoundMap, find, take_out, getkeycode, bucket, getmapobjectbykey,
  getobjectbykey, removeobjectbykey, addmapobject, or_new, setobject, object_delete,
}
use round.Map.Bucket.{
  eq_key, eq_key_refl, find-snoc, All-take_out, DistinctKeys-take_out, absent_of_find,
  DistinctKeys-snoc,
}
use round.Map.Invariant.{IsMap, IsBucket, with_bucket-IsMap, bucket-IsBucket}
use round.Map.Invariant.Lookup.{
  remove_hit, remove_miss, getmapobjectbykey_of, getmapobjectbykey-none, getmapobjectbykey-set,
  getmapobjectbykey-removeobjectbykey, code_same,
}

module _ {ℓ} {V : Type ℓ} (map_hash_func : CString → ℕ) where
  bucket-IsBucket_of :
      (map : RoundMap V) (k : CString) (objs : Bucket V)
      → IsMap map_hash_func map
      → bucket map_hash_func map k ≡ some objs
      → IsBucket map_hash_func map.table_size (getkeycode map_hash_func map k) (some objs)
  bucket-IsBucket_of map k objs m e =
      subst (IsBucket map_hash_func map.table_size (getkeycode map_hash_func map k)) e
        (bucket-IsBucket map_hash_func map m k)

  pub removeobjectbykey-IsMap :
      (map : RoundMap V) (j : List ℕ)
      → IsMap map_hash_func map
      → IsMap map_hash_func (removeobjectbykey map_hash_func map (some j)).0
  removeobjectbykey-IsMap map j m = elim (Option-cases (bucket map_hash_func map (some j))) [
    | inl e ↦
        rw (remove_miss map_hash_func map j (getmapobjectbykey-none map_hash_func map (some j) e)) m
    | inr (objs, e) ↦ elim (Option-cases (find objs (some j))) [
      | inl f ↦
          rw
            (remove_miss map_hash_func map j
              (getmapobjectbykey_of map_hash_func map (some j) objs e ∙ f))
            m
      | inr (o, f) ↦
          let b = bucket-IsBucket_of map (some j) objs m e in
          rw (remove_hit map_hash_func map j objs o e f) (
            with_bucket-IsMap map_hash_func map m (some j) (some (take_out objs (some j)))
              (object_delete o map.destroyed)
              (DistinctKeys-take_out objs (some j) b.0, All-take_out _ objs (some j) b.1))
    ]
  ]

  -- The bucket that a new object goes to holds no object with its key.
  room :
      (map : RoundMap V) (j : List ℕ)
      → IsMap map_hash_func map
      → getmapobjectbykey map_hash_func map (some j) ≡ none
      → IsBucket map_hash_func map.table_size
          (getkeycode map_hash_func map (some j))
          (some (or_new (bucket map_hash_func map (some j))))
        × (find (or_new (bucket map_hash_func map (some j))) (some j) ≡ none)
  room map j m h = elim (Option-cases (bucket map_hash_func map (some j))) [
    | inl e ↦ rw e ((tt, tt), unfold find in refl)
    | inr (objs, e) ↦ rw e (
      bucket-IsBucket_of map (some j) objs m e,
      sym (getmapobjectbykey_of map_hash_func map (some j) objs e) ∙ h,
    )
  ]

  abbrev put_in : RoundMap V → MapObject V → RoundMap V
  put_in map o = record map {
    table =
        set map.table (getkeycode map_hash_func map (some o.key))
          (some (or_new (bucket map_hash_func map (some o.key)) ++ o ∷ []));
  }

  addmapobject_new :
      (map : RoundMap V) (o : MapObject V)
      → IsMap map_hash_func map
      → getmapobjectbykey map_hash_func map (some o.key) ≡ none
      → IsMap map_hash_func (put_in map o)
        × ((k : List ℕ)
            → getmapobjectbykey map_hash_func (put_in map o) (some k)
              ≡ (if eq_key o.key k then some o else getmapobjectbykey map_hash_func map (some k)))
  addmapobject_new map o m h = (keeps, answers)
    where
      objs : Bucket V
      objs = or_new (bucket map_hash_func map (some o.key))

      keeps : IsMap map_hash_func (put_in map o)
      keeps =
          let (b, f) = room map o.key m h in
          with_bucket-IsMap map_hash_func map m (some o.key) (some (objs ++ o ∷ [])) map.destroyed (
            DistinctKeys-snoc objs o b.0 (absent_of_find objs o.key f),
            All-append _ objs (o ∷ []) b.1 (unfold getkeycode in refl, tt),
          )

      there :
          (k : List ℕ)
          → getkeycode map_hash_func map (some o.key) ≡ getkeycode map_hash_func map (some k)
          → getmapobjectbykey map_hash_func map (some k) ≡ find objs (some k)
      there k c = elim (Option-cases (bucket map_hash_func map (some k))) [
        | inl e ↦
            getmapobjectbykey-none map_hash_func map (some k) e
            ∙ sym
                (rw (code_same map_hash_func map (some o.key) (some k) c, e) (unfold find in refl))
        | inr (os, e) ↦
            getmapobjectbykey_of map_hash_func map (some k) os e
            ∙ sym (rw (code_same map_hash_func map (some o.key) (some k) c, e) refl)
      ]

      split :
          (k : List ℕ)
          → (if getkeycode map_hash_func map (some o.key) == getkeycode map_hash_func map (some k)
              then find (objs ++ o ∷ []) (some k)
              else getmapobjectbykey map_hash_func map (some k))
            ≡ (if eq_key o.key k then some o else getmapobjectbykey map_hash_func map (some k))
      split k =
          elim (Bool-cases
            (getkeycode map_hash_func map (some o.key) == getkeycode map_hash_func map (some k))) [
              | inl q ↦ rw q (
                  find-snoc objs o k (room map o.key m h).1
                  ∙ ap (λ x. if eq_key o.key k then some o else x) (sym (there k (ground arith))))
              | inr q ↦ elim (Bool-cases (eq_key o.key k)) [
                | inl w ↦
                    let s : o.key ≡ k = (streq_iff o.key k).0 w in
                    absurd (ground (arith, ap (λ x. getkeycode map_hash_func map (some x)) s))
                | inr w ↦ rw (q, w) refl
              ]
            ]

      answers :
          (k : List ℕ)
          → getmapobjectbykey map_hash_func (put_in map o) (some k)
            ≡ (if eq_key o.key k then some o else getmapobjectbykey map_hash_func map (some k))
      answers k =
          getmapobjectbykey-set map_hash_func map m (some o.key) (some k) (objs ++ o ∷ [])
            map.destroyed
          ∙ split k

  addmapobject-put_in :
      (map : RoundMap V) (o : MapObject V)
      → addmapobject map_hash_func map o
        ≡ (put_in (removeobjectbykey map_hash_func map (some o.key)).0 o, true)
  unfolding addmapobject
  addmapobject-put_in map o = refl

  abbrev value : Option (MapObject V) → Option V
  value none = none
  value (some o) = some o.obj

  getobjectbykey_of :
      (a : RoundMap V) (k : List ℕ)
      → getobjectbykey map_hash_func a (some k) ≡ value (getmapobjectbykey map_hash_func a (some k))
  unfolding getobjectbykey
  getobjectbykey_of a k = ground arith

  value_if :
      (b : Bool) (x y : Option (MapObject V))
      → value (if b then x else y) ≡ (if b then value x else value y)
  value_if true x y = refl
  value_if false x y = refl

  -- On a well-formed map, removeobjectbykey keeps the map well formed; the map then answers the
  -- key with nothing, and every other key as before.
  pub getobjectbykey-removeobjectbykey :
      (map : RoundMap V) (j : List ℕ)
      → IsMap map_hash_func map
      → IsMap map_hash_func (removeobjectbykey map_hash_func map (some j)).0
        × ((k : List ℕ)
            → getobjectbykey map_hash_func (removeobjectbykey map_hash_func map (some j)).0 (some k)
              ≡ (if eq_key j k then none else getobjectbykey map_hash_func map (some k)))
  getobjectbykey-removeobjectbykey map j m = (
    removeobjectbykey-IsMap map j m,
    λ k. rw (getobjectbykey_of map k) (
        getobjectbykey_of (removeobjectbykey map_hash_func map (some j)).0 k
        ∙ ap value (getmapobjectbykey-removeobjectbykey map_hash_func map m j k)
        ∙ value_if (eq_key j k) none (getmapobjectbykey map_hash_func map (some k))),
  )

  -- On a well-formed map, setobject of a key and a value succeeds and keeps the map well formed;
  -- the map then answers the key with the value, and every other key as before.
  pub getobjectbykey-setobject :
      (map : RoundMap V) (j : List ℕ) (v : V)
      → IsMap map_hash_func map
      → ((setobject map_hash_func map (some j) (some v)).1 ≡ true)
        × IsMap map_hash_func (setobject map_hash_func map (some j) (some v)).0
        × ((k : List ℕ)
            → getobjectbykey map_hash_func
                (setobject map_hash_func map (some j) (some v)).0
                (some k)
              ≡ (if eq_key j k then some v else getobjectbykey map_hash_func map (some k)))
  unfolding setobject
  getobjectbykey-setobject map j v m =
      let removed = (removeobjectbykey map_hash_func map (some j)).0 in
      let o : MapObject V = record { key = j; obj = v; obj_dest_func = map.map_obj_dest_func } in
      let mr = removeobjectbykey-IsMap map j m in
      let gone : getmapobjectbykey map_hash_func removed (some j) ≡ none =
        getmapobjectbykey-removeobjectbykey map_hash_func map m j j
        ∙ ap (λ b. if b then none else getmapobjectbykey map_hash_func map (some j))
            (eq_key_refl j) in
      let (keeps, answers) = addmapobject_new removed o mr gone in
      rw (addmapobject-put_in map o) (
        refl,
        keeps,
        λ k.
            getobjectbykey_of (put_in removed o) k
            ∙ ap value (answers k)
            ∙ value_if (eq_key j k) (some o) (getmapobjectbykey map_hash_func removed (some k))
            ∙ ap (λ x. if eq_key j k then some v else x)
                (sym (getobjectbykey_of removed k) ∙ (getobjectbykey-removeobjectbykey map j m).1 k)
            ∙ twice (eq_key j k) (getobjectbykey map_hash_func map (some k)),
      )
    where
      twice :
          (b : Bool) (x : Option V)
          → (if b then some v else (if b then none else x)) ≡ (if b then some v else x)
      twice true x = refl
      twice false x = refl
