-- ===== src/Map.antt =====
-- The hash map of src/round/util/map.c, with the objects and object lists of map_object.c and
-- map_object_list.c. A bucket is the list of its objects, first object first. Keys are strings,
-- and the hash function, which the map holds as a callback, is a parameter. `destroyed` logs the
-- values that a destructor was called on, the last call first.
pub mod Bucket
pub mod Invariant
use round.Common.{
  ℕ, zero, suc, ◌+◌, ◌%◌, Bool, true, false, Option, none, some, List, [], ◌∷◌, ◌++◌, ◌==◌,
  if◌then◌else◌, length, get_or, set, replicate,
}
use round.Text.{CString, streq}

-- `RoundMapObject`; the flag says whether the object has a destructor.
pub record MapObject {ℓ} (V : Type ℓ) : Type ℓ where
  pub key : List ℕ
  pub obj : V
  pub obj_dest_func : Bool

abbrev pub Bucket {ℓ} : Type ℓ → Type ℓ
Bucket V = List (MapObject V)

-- `RoundMap`; `none` in the table is a bucket that was not allocated.
pub record RoundMap {ℓ} (V : Type ℓ) : Type ℓ where
  pub table : List (Option (Bucket V))
  pub table_size : ℕ
  pub map_obj_dest_func : Bool
  pub destroyed : List V

module _ {ℓ} {V : Type ℓ} where
  -- `round_map_object_iskey`
  unfoldable pub iskey : MapObject V → CString → Bool
  iskey map_obj key = streq (some map_obj.key) key

  -- The call of the destructor in `round_map_object_delete`
  unfoldable pub object_delete : MapObject V → List V → List V
  object_delete map_obj log = if map_obj.obj_dest_func then map_obj.obj ∷ log else log

  -- `round_map_objectlist_clear`
  unfoldable pub objectlist_clear : Bucket V → List V → List V
  unfolding object_delete
  objectlist_clear [] log = log
  objectlist_clear (o ∷ objs) log = objectlist_clear objs (object_delete o log)

  -- The loop of `round_map_cleartable`
  unfoldable pub clear_from : List (Option (Bucket V)) → List V → List V
  unfolding objectlist_clear
  clear_from [] log = log
  clear_from (none ∷ table) log = clear_from table log
  clear_from (some objs ∷ table) log = clear_from table (objectlist_clear objs log)

  unfoldable pub cleartable : RoundMap V → RoundMap V
  unfolding clear_from
  cleartable map = record map {
    table = [];
    table_size = 0;
    destroyed = clear_from map.table map.destroyed;
  }

  unfoldable pub settablesize : RoundMap V → ℕ → RoundMap V × Bool
  unfolding cleartable
  settablesize map size =
      if size == 0
      then (map, false)
      else (record (cleartable map) { table = replicate size none; table_size = size }, true)

  -- `round_map_new`, with the default table size given
  unfoldable pub new_map : ℕ → RoundMap V
  unfolding settablesize
  new_map size =
      (settablesize
        (record { table = []; table_size = 0; map_obj_dest_func = false; destroyed = [] }) size).0

  -- The loop of `round_map_size`
  unfoldable pub size_from : List (Option (Bucket V)) → ℕ
  size_from [] = 0
  size_from (none ∷ table) = size_from table
  size_from (some objs ∷ table) = length objs + size_from table

  unfoldable pub map_size : RoundMap V → ℕ
  unfolding size_from
  map_size map = size_from map.table

  -- The search of `round_map_getmapobjectbykey` in one bucket
  unfoldable pub find : Bucket V → CString → Option (MapObject V)
  unfolding iskey
  find [] key = none
  find (o ∷ objs) key = if iskey o key then some o else find objs key

  -- `round_map_object_remove` on the object that the search finds
  unfoldable pub take_out : Bucket V → CString → Bucket V
  unfolding iskey
  take_out [] key = []
  take_out (o ∷ objs) key = if iskey o key then objs else o ∷ take_out objs key

-- The bucket of `round_map_addmapobject`, allocated where it was not.
abbrev pub or_new {ℓ} : {V : Type ℓ} → Option (Bucket V) → Bucket V
or_new none = []
or_new (some objs) = objs

module _ {ℓ} {V : Type ℓ} (map_hash_func : CString → ℕ) where
  unfoldable pub getkeycode : RoundMap V → CString → ℕ
  getkeycode map key = map_hash_func key % map.table_size

  unfoldable pub bucket : RoundMap V → CString → Option (Bucket V)
  bucket map key = get_or map.table (getkeycode map key) none

  unfoldable pub getmapobjectbykey : RoundMap V → CString → Option (MapObject V)
  getmapobjectbykey map key = elim (bucket map key) [ none ↦ none | some objs ↦ find objs key ]

  unfoldable pub haskey : RoundMap V → CString → Bool
  haskey map key = elim (getmapobjectbykey map key) [ none ↦ false | some _ ↦ true ]

  unfoldable pub getobjectbykey : RoundMap V → CString → Option V
  getobjectbykey map key = elim (getmapobjectbykey map key) [ none ↦ none | some o ↦ some o.obj ]

  unfoldable pub removeobjectbykey : RoundMap V → CString → RoundMap V × Bool
  removeobjectbykey map none = (map, false)
  removeobjectbykey map (some key) = elim (bucket map (some key)) [
    | none ↦ (map, false)
    | some objs ↦ elim (find objs (some key)) [
      | none ↦ (map, false)
      | some o ↦ (
        record map {
          table = set map.table (getkeycode map (some key)) (some (take_out objs (some key)));
          destroyed = object_delete o map.destroyed;
        },
        true,
      )
    ]
  ]

  -- `round_map_addmapobject`
  unfoldable pub addmapobject : RoundMap V → MapObject V → RoundMap V × Bool
  addmapobject map o =
      let removed : RoundMap V = (removeobjectbykey map (some o.key)).0 in
      let objs : Bucket V = or_new (bucket removed (some o.key)) in
      (
        record removed {
          table = set removed.table (getkeycode removed (some o.key)) (some (objs ++ o ∷ []));
        },
        true,
      )

  -- `round_map_setobject`; NULL for the key or the object is refused.
  unfoldable pub setobject : RoundMap V → CString → Option V → RoundMap V × Bool
  setobject map none obj = (map, false)
  setobject map (some key) none = (map, false)
  setobject map (some key) (some obj) =
      addmapobject map (record { key = key; obj = obj; obj_dest_func = map.map_obj_dest_func })
