-- ===== src/SystemMethod.antt =====
-- The system methods of src/round/method: what a JSON-RPC call of `set_method`, `remove_method`,
-- `set_registry`, `get_registry` and `remove_registry` does to a local node; and the decoder of
-- src/round/util/base64.c. The JSON library, and what the decoder of openssl reads, are parameters;
-- its read does not fail. The node, the parameters and the error are not NULL.
pub mod Registries
pub mod Calls
pub mod Sound
pub mod Methods
use round.Common.{
  ℕ, ◌+◌, ◌-◌, ◌*◌, ◌/◌, ◌%◌, ◌^◌, ◌<◌, Bool, true, false, not, ◌&&◌, ◌||◌, Option, none, some,
  List, [], ◌∷◌, ◌==◌, leb, if◌then◌else◌, length, get_or,
}
use round.Common.Int.{ℤ}
use round.Text.{CString, streq}
use round.RpcError.{RoundError, setjsonrpcerrorcode, invalid_params, internal_error}
use round.JsonRpc.{JsonLibrary, map_getstring, map_text, is_cached}
use round.Map.{RoundMap}
use round.Method.{Method, MethodManager, new_method, setcode}
use round.LocalNode.{setmethod, removemethod, isfinalmethod}
use round.Registry.{RoundRegistry, string_set, setregistry, getregistry, removeregistry, getstring}

-- `ROUND_SYSTEM_METHOD_PARAM_NAME`, "name", and the other keys, by their bytes.
abbrev pub name_key : List ℕ
name_key = 110 ∷ 97 ∷ 109 ∷ 101 ∷ []

abbrev pub lang_key : List ℕ
lang_key = 108 ∷ 97 ∷ 110 ∷ 103 ∷ []

abbrev pub code_key : List ℕ
code_key = 99 ∷ 111 ∷ 100 ∷ 101 ∷ []

abbrev pub encode_key : List ℕ
encode_key = 101 ∷ 110 ∷ 99 ∷ []

abbrev pub base64_name : List ℕ
base64_name = 98 ∷ 97 ∷ 115 ∷ 101 ∷ 54 ∷ 52 ∷ []

abbrev pub key_key : List ℕ
key_key = 107 ∷ 101 ∷ 121 ∷ []

abbrev pub value_key : List ℕ
value_key = 118 ∷ 97 ∷ 108 ∷ []

-- `decordedSize--`, of a size_t
abbrev pub less_one : ℕ → ℕ
less_one size = (size + 2 ^ 64 - 1) % 2 ^ 64

-- The size that `round_base64_decode` asks for.
unfoldable pub decoded_size : List ℕ → ℕ
decoded_size text =
    let size : ℕ = length text in
    let raw : ℕ = size * 3 / 4 in
    if leb 1 size && (get_or text (size - 1) 0 == b'=')
    then (if leb 2 size && (get_or text (size - 2) 0 == b'=')
        then less_one (less_one raw)
        else less_one raw)
    else raw

-- The parts of a local node that the system methods use.
pub record NodeState (R : Type 0) : Type 0 where
  pub methods : MethodManager
  pub regs : RoundMap (RoundRegistry R)
  pub clock : ℤ

-- The map that `get_registry` makes, with the members "key", "val", "ts" and "lts".
pub record RegistryMap : Type 0 where
  pub reg_key : CString
  pub reg_value : CString
  pub reg_ts : ℤ
  pub reg_lts : ℤ

-- What a system method leaves: the node, the map it makes, which may be empty, the flag and the
-- error.
abbrev pub Done : Type 0 → Type 0
Done R = NodeState R × Option (Option RegistryMap) × Bool × RoundError

abbrev pub refuse : {R : Type 0} → NodeState R → RoundError → ℤ → Done R
refuse node err code = (node, none, false, setjsonrpcerrorcode err code)

-- The end of a method that makes no map: an internal error where the node refuses.
abbrev pub finish : {R : Type 0} → NodeState R → RoundError → Bool → Done R
finish node err done = if done then (node, none, true, err) else refuse node err internal_error

module _ (decode : List ℕ → ℕ → List ℕ) where
  -- `round_base64_decode`
  unfoldable pub base64_decode : List ℕ → List ℕ
  unfolding decoded_size
  base64_decode text = decode text (decoded_size text)

  -- The code of `round_system_method_setmethod`, decoded where the encoding is "base64"; `none`
  -- where nothing is decoded. Of a code that is NULL the decoder reads nothing.
  unfoldable pub decoded_code : CString → CString → Option CString
  unfolding base64_decode
  decoded_code encode code =
      let bytes : List ℕ = base64_decode (elim code [ none ↦ [] | some text ↦ text ]) in
      if streq encode (some base64_name)
      then (if length bytes == 0 then none else some (some bytes))
      else some code

-- The method that `round_system_method_setmethod` makes
unfoldable pub made_method : CString → CString → CString → Method
unfolding new_method setcode
made_method name lang code = setcode (record new_method { name = name; lang = lang }) code

-- The system methods; `none` is a read of freed memory, the cached text of a member that a later
-- read has freed.
module _ {J : Type 0} (json : JsonLibrary J) (hash : CString → ℕ) where
  -- `round_system_method_setmethod`
  unfoldable pub system_setmethod :
      {R : Type 0} → (List ℕ → ℕ → List ℕ) → NodeState R → J → RoundError → Option (Done R)
  system_setmethod decode node params err =
      if not (json.is_object params)
      then some (refuse node err invalid_params)
      else elim (map_getstring json params name_key) [
        | none ↦ some (refuse node err invalid_params)
        | some name ↦ elim (map_getstring json params lang_key) [
          | none ↦ some (refuse node err invalid_params)
          | some lang ↦ elim (map_getstring json params code_key) [
            | none ↦ some (refuse node err invalid_params)
            | some code ↦
                if is_cached json params name_key
                  || is_cached json params lang_key
                  || is_cached json params code_key
                then none
                else elim (decoded_code decode (map_text json params encode_key) code) [
                  | none ↦ some (refuse node err invalid_params)
                  | some bytes ↦
                      let result : MethodManager × Bool =
                        setmethod hash node.methods (made_method name lang bytes) in
                      some (finish (record node { methods = result.0 }) err result.1)
                ]
          ]
        ]
      ]

  -- `round_system_method_removemethod`
  unfoldable pub system_removemethod : {R : Type 0} → NodeState R → J → RoundError → Option (Done R)
  system_removemethod node params err =
      if not (json.is_object params)
      then some (refuse node err invalid_params)
      else elim (map_getstring json params name_key) [
        | none ↦ some (refuse node err invalid_params)
        | some name ↦
            let result : MethodManager × Bool = removemethod hash node.methods name in
            if isfinalmethod hash node.methods name
            then some (refuse node err invalid_params)
            else some (finish (record node { methods = result.0 }) err result.1)
      ]

  -- `round_system_method_setregistry`, with the time
  unfoldable pub system_setregistry :
      {R : Type 0} → ℤ → NodeState R → J → RoundError → Option (Done R)
  system_setregistry {R} now node params err =
      if not (json.is_object params)
      then some (refuse node err invalid_params)
      else elim (map_getstring json params key_key) [
        | none ↦ some (refuse node err invalid_params)
        | some key ↦ elim (map_getstring json params value_key) [
          | none ↦ some (refuse node err invalid_params)
          | some val ↦
              let result : RoundMap (RoundRegistry R) × Bool =
                setregistry hash node.regs key val now node.clock in
              if is_cached json params key_key
              then none
              else some (finish (record node { regs = result.0 }) err result.1)
        ]
      ]

  -- `round_system_method_getregistry`
  unfoldable pub system_getregistry : {R : Type 0} → NodeState R → J → RoundError → Option (Done R)
  system_getregistry node params err =
      if not (json.is_object params)
      then some (refuse node err invalid_params)
      else elim (map_getstring json params key_key) [
        | none ↦ some (refuse node err invalid_params)
        | some key ↦ elim (getregistry hash node.regs key) [
          | none ↦ some (refuse node err invalid_params)
          | some reg ↦ elim (getstring reg) [
            | none ↦ some (node, some none, false, setjsonrpcerrorcode err internal_error)
            | some val ↦ some (
              node,
              some (
                  some (record {
                    reg_key = key;
                    reg_value = val;
                    reg_ts = reg.ts;
                    reg_lts = reg.lts;
                  })),
              true,
              err,
            )
          ]
        ]
      ]

  -- `round_system_method_removeregistry`
  unfoldable pub system_removeregistry :
      {R : Type 0} → NodeState R → J → RoundError → Option (Done R)
  system_removeregistry {R} node params err =
      if not (json.is_object params)
      then some (refuse node err invalid_params)
      else elim (map_getstring json params key_key) [
        | none ↦ some (refuse node err invalid_params)
        | some key ↦
            let result : RoundMap (RoundRegistry R) × Bool = removeregistry hash node.regs key in
            some (finish (record node { regs = result.0 }) err result.1)
      ]
