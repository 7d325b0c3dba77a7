-- ===== src/JsonRpc.antt =====
-- The JSON-RPC functions of src/round/util/json_rpc.c with the wrappers of json_map.c and
-- json_array.c that they call. The JSON library is a parameter: an object type with the calls that
-- the wrappers make.
use round.Common.{
  ℕ, zero, suc, ◌+◌, ◌≡◌, refl, Bool, true, false, not, Option, none, some, List, [], ◌∷◌,
  if◌then◌else◌, Bool-cases, inl, inr,
}
use round.Common.Int.{ℤ}
use round.Text.{CString}

-- What the library holds under a member of a map: nothing, null or a value of which `json_dumps`
-- prints nothing, such as true, a text, or any other value, given by the text that is printed of
-- it.
pub data Member : Type 0 where
  absent : Member
  null_value : Member
  text : List ℕ → Member
  printed : List ℕ → Member

-- The calls of the library: `json_is_object`, `json_is_array`, `json_array_size`, `json_array_get`,
-- the values of members, and `json_object_set` of an integer. An object that an array gives is
-- shared with it, so a write to it is written back to the array.
pub record JsonLibrary (J : Type 0) : Type 0 where
  pub is_object : J → Bool
  pub is_array : J → Bool
  pub library_array_size : J → ℕ
  pub library_array_get : J → ℕ → Option J
  pub array_write : J → ℕ → J → J
  pub member_value : J → List ℕ → Member
  pub member_integer : J → List ℕ → Option ℤ
  pub object_set_integer : J → List ℕ → ℤ → J

-- `ROUND_JSON_RPC_TS` and the other keys, by their bytes.
abbrev pub ts_key : List ℕ
ts_key = 116 ∷ 115 ∷ []

abbrev pub id_key : List ℕ
id_key = 105 ∷ 100 ∷ []

abbrev pub method_key : List ℕ
method_key = 109 ∷ 101 ∷ 116 ∷ 104 ∷ 111 ∷ 100 ∷ []

abbrev pub params_key : List ℕ
params_key = 112 ∷ 97 ∷ 114 ∷ 97 ∷ 109 ∷ 115 ∷ []

module _ {J : Type 0} (json : JsonLibrary J) where
  -- `round_json_array_size`
  unfoldable pub array_size : J → ℕ
  array_size obj = if not (json.is_array obj) then 0 else json.library_array_size obj

  -- `round_json_array_get`
  unfoldable pub array_get : J → ℕ → Option J
  array_get obj idx = if not (json.is_array obj) then none else json.library_array_get obj idx

  -- `round_json_map_getstring`, with the pointer that it writes; `none` where it returns false. It
  -- returns true with NULL for a null.
  unfoldable pub map_getstring : J → List ℕ → Option CString
  map_getstring obj key =
      if not (json.is_object obj) then none else elim (json.member_value obj key) [
        | absent ↦ none
        | null_value ↦ some none
        | text t ↦ some (some t)
        | printed t ↦ some (some t)
      ]

  -- Whether the pointer that `round_json_map_getstring` writes is the `cachedStr` of the map,
  -- which the next call of the function on the map frees.
  unfoldable pub is_cached : J → List ℕ → Bool
  is_cached obj key = elim (json.member_value obj key) [
    | absent ↦ false
    | null_value ↦ false
    | text _ ↦ false
    | printed _ ↦ true
  ]

  -- What a pointer holds that was NULL before `round_json_map_getstring`.
  unfoldable pub map_text : J → List ℕ → CString
  unfolding map_getstring
  map_text obj key = elim (map_getstring obj key) [ none ↦ none | some c ↦ c ]

  -- `round_json_map_getinteger`
  unfoldable pub map_getinteger : J → List ℕ → Option ℤ
  map_getinteger obj key = if not (json.is_object obj) then none else json.member_integer obj key

  -- `round_json_map_setinteger`, which returns true also where the object is no map.
  unfoldable pub map_setinteger : J → List ℕ → ℤ → J
  map_setinteger obj key value =
      if not (json.is_object obj) then obj else json.object_set_integer obj key value

  -- The loop of `round_json_rpc_settimestamp`, with the rounds left and the index
  unfoldable pub stamp_from : ℕ → ℕ → J → ℤ → J
  unfolding array_get map_setinteger
  stamp_from zero n obj ts = obj
  stamp_from (suc count) n obj ts =
      let rest = stamp_from count (n + 1) obj ts in
      elim (array_get obj n) [
        | none ↦ rest
        | some child ↦
            if not (json.is_object child)
            then json.array_write obj n (map_setinteger child ts_key ts)
            else rest
      ]

  -- `round_json_rpc_settimestamp`
  unfoldable pub settimestamp : J → ℤ → J × Bool
  unfolding array_size stamp_from map_setinteger
  settimestamp obj ts =
      if not (json.is_object obj)
      then (map_setinteger obj ts_key ts, true)
      else if not (json.is_array obj)
      then (stamp_from (array_size obj) 0 obj ts, true)
      else (obj, false)

  -- settimestamp leaves every object, a map or not, as it was.
  pub settimestamp_same : (obj : J) (ts : ℤ) → (settimestamp obj ts).0 ≡ obj
  unfolding settimestamp array_size map_setinteger
  settimestamp_same obj ts = elim (Bool-cases (json.is_object obj)) [
    | inl o ↦ elim (Bool-cases (json.is_array obj)) [
      | inl a ↦ rw (o, a) refl
      | inr a ↦ rw (o, a) refl
    ]
    | inr o ↦ rw o refl
  ]
