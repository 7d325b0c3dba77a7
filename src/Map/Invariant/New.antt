-- ===== src/Map/Invariant/New.antt =====
-- A new map of util/map.c.
use round.Common.{
  ℕ, ◌<◌, ◌≡◌, false, Option, none, [], arith, replicate, length-replicate, get_or-replicate,
}
use round.Text.{CString}
use round.Map.{Bucket, new_map}
use round.Map.Invariant.{IsMap}

pub new_map_lem {ℓ} :
    {V : Type ℓ} (size : ℕ)
    → 0 < size
    → new_map {V = V} size ≡ record {
      table = replicate size none;
      table_size = size;
      map_obj_dest_func = false;
      destroyed = [];
    }
unfolding new_map
new_map_lem size h = ground arith

-- A new map is well formed.
pub new_map-IsMap {ℓ} :
    {V : Type ℓ} (map_hash_func : CString → ℕ) (size : ℕ)
    → 0 < size
    → IsMap map_hash_func (new_map {V = V} size)
new_map-IsMap {V} map_hash_func size h = rw (new_map_lem size h) (record {
  positive = h;
  sized = length-replicate size none;
  buckets = λ c. rw (get_or-replicate {A = Option (Bucket V)} size c none) tt;
})
