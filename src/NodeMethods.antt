-- ===== src/NodeMethods.antt =====
-- The calls of the system methods of another node: src/round/node_methods.c. The library of JSON,
-- and the function that posts a message, are parameters; the function may change a state. The
-- node, the error and the pointer to the result are not NULL, and allocation succeeds.
pub mod Requests
pub mod Served
use round.Common.{ℕ, Bool, true, false, Option, none, some, List, [], ◌∷◌, ◌==◌, if◌then◌else◌}
use round.Text.{CString}
use round.RpcError.{RoundError}
use round.JsonRpc.{JsonLibrary, map_text, method_key, params_key}
use round.SystemMethod.{name_key, lang_key, code_key, encode_key, base64_name, key_key, value_key}

-- `ROUND_JSON_RPC_JSONRPC`, "jsonrpc", `ROUND_JSON_RPC_VERSION`, "2.0", and the names of the system
-- methods, by their bytes.
abbrev pub jsonrpc_key : List ℕ
jsonrpc_key = b'j' ∷ b's' ∷ b'o' ∷ b'n' ∷ b'r' ∷ b'p' ∷ b'c' ∷ []

abbrev pub rpc_version : List ℕ
rpc_version = b'2' ∷ b'.' ∷ b'0' ∷ []

abbrev pub set_method_name : List ℕ
set_method_name = b's' ∷ b'e' ∷ b't' ∷ b'_' ∷ b'm' ∷ b'e' ∷ b't' ∷ b'h' ∷ b'o' ∷ b'd' ∷ []

abbrev pub remove_method_name : List ℕ
remove_method_name =
    b'r' ∷ b'e' ∷ b'm' ∷ b'o' ∷ b'v' ∷ b'e' ∷ b'_' ∷ b'm' ∷ b'e' ∷ b't' ∷ b'h' ∷ b'o' ∷ b'd' ∷ []

abbrev pub set_registry_name : List ℕ
set_registry_name =
    b's' ∷ b'e' ∷ b't' ∷ b'_' ∷ b'r' ∷ b'e' ∷ b'g' ∷ b'i' ∷ b's' ∷ b't' ∷ b'r' ∷ b'y' ∷ []

abbrev pub get_registry_name : List ℕ
get_registry_name =
    b'g' ∷ b'e' ∷ b't' ∷ b'_' ∷ b'r' ∷ b'e' ∷ b'g' ∷ b'i' ∷ b's' ∷ b't' ∷ b'r' ∷ b'y' ∷ []

abbrev pub remove_registry_name : List ℕ
remove_registry_name =
    b'r' ∷ b'e' ∷ b'm' ∷ b'o' ∷ b'v' ∷ b'e' ∷ b'_' ∷ b'r' ∷ b'e' ∷ b'g' ∷ b'i' ∷ b's' ∷ b't' ∷ b'r'
    ∷ b'y' ∷ []

-- The calls of the library that make an object: a new map, the set of a text and of an object
-- under a member, and the object under a member.
pub record JsonMaker (J : Type 0) : Type 0 where
  pub map_new : J
  pub object_set_string : J → List ℕ → List ℕ → J
  pub object_set : J → List ℕ → J → J
  pub member_object : J → List ℕ → Option J

-- `RoundEncodeType`
pub data EncodeType : Type 0 where
  encode_none : EncodeType
  encode_base64 : EncodeType

-- A function that posts a message: the state, the flag, the response and the error that it leaves.
abbrev pub Post : Type 0 → Type 0 → Type 0
Post S J = S → J → RoundError → S × Bool × Option J × RoundError

module _ {J : Type 0} (maker : JsonMaker J) where
  -- `round_json_rpc_object_new`
  unfoldable pub rpc_object_new : J
  rpc_object_new = maker.object_set_string maker.map_new jsonrpc_key rpc_version

  -- A request with the name of a method and its parameters
  unfoldable pub request : List ℕ → J → J
  unfolding rpc_object_new
  request method params =
      maker.object_set (maker.object_set_string rpc_object_new method_key method) params_key params

  -- The parameters that the five functions make
  unfoldable pub setmethod_params : List ℕ → List ℕ → List ℕ → EncodeType → J
  setmethod_params lang name code enc_type =
      let params : J =
        maker.object_set_string
          (maker.object_set_string (maker.object_set_string maker.map_new lang_key lang) name_key
            name)
          code_key code in
      elim enc_type [
        | encode_base64 ↦ maker.object_set_string params encode_key base64_name
        | encode_none ↦ params
      ]

  unfoldable pub name_params : List ℕ → J
  name_params name = maker.object_set_string maker.map_new name_key name

  unfoldable pub setregistry_params : List ℕ → List ℕ → J
  setregistry_params key value =
      maker.object_set_string (maker.object_set_string maker.map_new key_key key) value_key value

  unfoldable pub key_params : List ℕ → J
  key_params key = maker.object_set_string maker.map_new key_key key

  module _ {S : Type 0} (post : Option (Post S J)) where
    -- `round_node_postmessage`; `none` is a node without the function.
    unfoldable pub node_postmessage : Post S J
    node_postmessage s req err = elim post [ none ↦ (s, false, none, err) | some f ↦ f s req err ]

    -- The part of each function behind its parameters, with what it leaves of the post
    unfoldable pub post_request : S → List ℕ → J → RoundError → S × Bool × RoundError
    unfolding node_postmessage request
    post_request s method params err =
        let posted : S × Bool × Option J × RoundError =
          node_postmessage s (request method params) err in
        (posted.0, posted.1, posted.3)

    -- `round_node_setmethod`
    unfoldable pub node_setmethod :
        S → CString → CString → CString → EncodeType → RoundError → S × Bool × RoundError
    unfolding post_request setmethod_params
    node_setmethod s none name code enc_type err = (s, false, err)
    node_setmethod s (some lang) none code enc_type err = (s, false, err)
    node_setmethod s (some lang) (some name) none enc_type err = (s, false, err)
    node_setmethod s (some lang) (some name) (some code) enc_type err =
        post_request s set_method_name (setmethod_params lang name code enc_type) err

    -- `round_node_removemethod`
    unfoldable pub node_removemethod : S → CString → RoundError → S × Bool × RoundError
    unfolding post_request name_params
    node_removemethod s none err = (s, false, err)
    node_removemethod s (some name) err = post_request s remove_method_name (name_params name) err

    -- `round_node_setregistry`
    unfoldable pub node_setregistry : S → CString → CString → RoundError → S × Bool × RoundError
    unfolding post_request setregistry_params
    node_setregistry s none value err = (s, false, err)
    node_setregistry s (some key) none err = (s, false, err)
    node_setregistry s (some key) (some value) err =
        post_request s set_registry_name (setregistry_params key value) err

    -- `round_node_removeregistry`
    unfoldable pub node_removeregistry : S → CString → RoundError → S × Bool × RoundError
    unfolding post_request key_params
    node_removeregistry s none err = (s, false, err)
    node_removeregistry s (some key) err = post_request s remove_registry_name (key_params key) err

    -- `round_node_getregistry`, with the value that it writes, or `none` where it writes nothing:
    -- it is read from the parameters of the request.
    unfoldable pub node_getregistry :
        JsonLibrary J → S → CString → RoundError → S × Bool × CString × RoundError
    unfolding post_request key_params request map_text
    node_getregistry json s none err = (s, false, none, err)
    node_getregistry json s (some key) err =
        let params : J = key_params key in
        let posted : S × Bool × RoundError = post_request s get_registry_name params err in
        let value : CString =
          elim (maker.member_object (request get_registry_name params) params_key) [
            | none ↦ none
            | some _ ↦ map_text json params key_key
          ] in
        (posted.0, posted.1, if posted.1 then value else none, posted.2)
