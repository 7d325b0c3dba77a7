-- ===== src/Tests/Map.antt =====
-- Tests of the hash map (util/map.c).
use round.Common.{ℕ, ◌≡◌, true, none, some, List, [], ◌∷◌, if◌then◌else◌, arith}
use round.Text.{CString, strlen}
use round.Map.{RoundMap, new_map, setobject, removeobjectbykey, getobjectbykey}
use round.Map.Bucket.{eq_key}
use round.Map.Invariant.{IsMap}
use round.Map.Invariant.New.{new_map-IsMap}
use round.Map.Invariant.Set.{getobjectbykey-setobject, getobjectbykey-removeobjectbykey}

-- Keys are hashed by their lengths.
abbrev hash : CString → ℕ
hash = strlen

abbrev empty : RoundMap ℕ
empty = new_map 4

empty-IsMap : IsMap hash empty
empty-IsMap = new_map-IsMap hash 4 (omega arith)

abbrev filled : RoundMap ℕ
filled = (setobject hash empty (some (7 ∷ [])) (some 70)).0

getobjectbykey-setobject_example :
    ((setobject hash empty (some (7 ∷ [])) (some 70)).1 ≡ true)
    × IsMap hash filled
    × ((k : List ℕ)
        → getobjectbykey hash filled (some k)
          ≡ (if eq_key (7 ∷ []) k then some 70 else getobjectbykey hash empty (some k)))
getobjectbykey-setobject_example = getobjectbykey-setobject hash empty (7 ∷ []) 70 empty-IsMap

getobjectbykey-removeobjectbykey_example :
    IsMap hash (removeobjectbykey hash filled (some (7 ∷ []))).0
    × ((k : List ℕ)
        → getobjectbykey hash (removeobjectbykey hash filled (some (7 ∷ []))).0 (some k)
          ≡ (if eq_key (7 ∷ []) k then none else getobjectbykey hash filled (some k)))
getobjectbykey-removeobjectbykey_example =
    getobjectbykey-removeobjectbykey hash filled (7 ∷ []) getobjectbykey-setobject_example.1
