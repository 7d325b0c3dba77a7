-- ===== src/Map/Invariant.antt =====
-- The invariant of a map, and the map as a partial function from keys to values.
pub mod Lookup
pub mod New
pub mod Set
use native.Mathlib.Nat.{mod-lt}
use round.Common.{
  ℕ, zero, suc, ◌+◌, ◌-◌, ◌%◌, ◌<◌, ◌≡◌, refl, sym, subst, ap, ◌∙◌, ◌≢◌, Bool, true, false, inl,
  inr, Option, none, some, List, [], ◌∷◌, ◌++◌, arith, ◌==◌, if◌then◌else◌, Bool-cases,
  Option-cases, All, All-map, All-append, length, get_or, set, get_or-set, length-set, replicate,
  length-replicate,
}
use round.Text.{CString, streq}
use round.Text.Order.{streq_iff}
use round.Map.{
  MapObject, Bucket, RoundMap, find, take_out, getkeycode, bucket, getmapobjectbykey,
  getobjectbykey, removeobjectbykey, addmapobject, or_new, setobject, object_delete, new_map,
}
use round.Map.Bucket.{
  eq_key, DistinctKeys, find_absent, find-take_out, find-snoc, All-take_out, DistinctKeys-take_out,
  take_out_absent,
}

module _ {ℓ} {V : Type ℓ} (map_hash_func : CString → ℕ) where
  -- Every object lies in the bucket of its key, and no key stands twice.
  abbrev pub IsBucket : ℕ → ℕ → Option (Bucket V) → Type 0
  IsBucket size c none = Unit
  IsBucket size c (some objs) =
      DistinctKeys objs × All (λ o. map_hash_func (some o.key) % size ≡ c) objs

  pub record IsMap (map : RoundMap V) : Type 0 where
    pub positive : 0 < map.table_size
    pub sized : length map.table ≡ map.table_size
    pub buckets : (c : ℕ) → IsBucket map.table_size c (get_or map.table c none)

  module _ (map : RoundMap V) (m : IsMap map) where
    code-lt : (k : CString) → map_hash_func k % map.table_size < length map.table
    code-lt k = rw m.sized (mod-lt (map_hash_func k) m.positive)

    -- A map with the bucket of `j` replaced.
    abbrev with_bucket : CString → Option (Bucket V) → List V → RoundMap V
    with_bucket j objs log = record map {
      table = set map.table (getkeycode map_hash_func map j) objs;
      destroyed = log;
    }

    pub bucket-set :
        (j k : CString) (objs : Option (Bucket V)) (log : List V)
        → bucket map_hash_func (with_bucket j objs log) k ≡ (
            if getkeycode map_hash_func map j == getkeycode map_hash_func map k
            then objs
            else bucket map_hash_func map k)
    unfolding bucket getkeycode
    bucket-set j k objs log =
        get_or-set map.table (map_hash_func j % map.table_size) (map_hash_func k % map.table_size)
          objs none (code-lt j)

    pub with_bucket-IsMap :
        (j : CString) (objs : Option (Bucket V)) (log : List V)
        → IsBucket map.table_size (getkeycode map_hash_func map j) objs
        → IsMap (with_bucket j objs log)
    with_bucket-IsMap j objs log b = record {
      positive = m.positive;
      sized = length-set map.table (getkeycode map_hash_func map j) objs ∙ m.sized;
      buckets = λ c.
          rw
            (get_or-set map.table (getkeycode map_hash_func map j) c objs none
              (unfold getkeycode in code-lt j))
            (pick c);
    }
      where
        pick :
            (c : ℕ)
            → IsBucket map.table_size c
                (if getkeycode map_hash_func map j == c then objs else get_or map.table c none)
        pick c = elim (Bool-cases (getkeycode map_hash_func map j == c)) [
          | inl e ↦
              let q : getkeycode map_hash_func map j ≡ c = ground arith in
              rw e (subst (λ x. IsBucket map.table_size x objs) q b)
          | inr e ↦ rw e (m.buckets c)
        ]

    pub bucket-IsBucket :
        (k : CString)
        → IsBucket map.table_size (getkeycode map_hash_func map k) (bucket map_hash_func map k)
    bucket-IsBucket k = unfold bucket getkeycode in m.buckets (getkeycode map_hash_func map k)
