-- ===== src/NodeMethods/Requests.antt =====
-- The requests that the functions of src/round/node_methods.c make, read back.
use round.Common.{
  ℕ, ◌≡◌, refl, ap, arith, ◌∙◌, true, false, Option, none, some, List, if◌then◌else◌,
}
use round.Text.{CString, streq, strcmp_bytes}
use round.Map.Bucket.{eq_key_refl}
use round.RpcError.{RoundError}
use round.JsonRpc.{JsonLibrary, absent, text, map_text, map_getstring, method_key, params_key}
use round.SystemMethod.{name_key, lang_key, code_key, encode_key, key_key}
use round.SystemMethod.Registries.{HasMember, map_getstring-member}
use round.NodeMethods.{
  JsonMaker, Post, encode_none, get_registry_name, rpc_object_new, request, setmethod_params,
  key_params, node_getregistry,
}

-- What the library promises of the objects that it makes.
pub record IsMaker {J : Type 0} (json : JsonLibrary J) (maker : JsonMaker J) : Type 0 where
  pub new_is_map : json.is_object maker.map_new ≡ true
  pub new_empty : (k : List ℕ) → json.member_value maker.map_new k ≡ absent
  pub text_is_map :
      (o : J) (k v : List ℕ) → json.is_object (maker.object_set_string o k v) ≡ json.is_object o
  pub text_set :
      (o : J) (k v j : List ℕ)
      → json.is_object o ≡ true
      → json.member_value (maker.object_set_string o k v) j
        ≡ (if streq (some k) (some j) then text v else json.member_value o j)
  pub object_is_map :
      (o : J) (k : List ℕ) (v : J) → json.is_object (maker.object_set o k v) ≡ json.is_object o
  pub object_set :
      (o : J) (k : List ℕ) (v : J)
      → json.is_object o ≡ true
      → maker.member_object (maker.object_set o k v) k ≡ some v
  pub object_others :
      (o : J) (k j : List ℕ) (v : J)
      → streq (some k) (some j) ≡ false
      → json.member_value (maker.object_set o k v) j ≡ json.member_value o j

module _ {J : Type 0} (json : JsonLibrary J) (maker : JsonMaker J) (laws : IsMaker json maker) where
  pub request-method :
      (method : List ℕ) (params : J)
      → HasMember json (request maker method params) method_key method
  unfolding request rpc_object_new streq strcmp_bytes
  request-method method params =
      let m : json.is_object (rpc_object_new maker) ≡ true =
        laws.text_is_map maker.map_new _ _ ∙ laws.new_is_map in
      let q : json.is_object (maker.object_set_string (rpc_object_new maker) method_key method)
          ≡ true =
        laws.text_is_map (rpc_object_new maker) method_key method ∙ m in
      record {
        is_map =
            laws.object_is_map (maker.object_set_string (rpc_object_new maker) method_key method)
              params_key params
            ∙ q;
        holds =
            laws.object_others (maker.object_set_string (rpc_object_new maker) method_key method)
              params_key method_key params refl
            ∙ laws.text_set (rpc_object_new maker) method_key method method_key m;
      }

  pub request-params :
      (method : List ℕ) (params : J)
      → maker.member_object (request maker method params) params_key ≡ some params
  unfolding request rpc_object_new
  request-params method params =
      laws.object_set _ params_key params (
        laws.text_is_map _ method_key method ∙ laws.text_is_map maker.map_new _ _ ∙ laws.new_is_map)

  pub key_params-HasMember : (key : List ℕ) → HasMember json (key_params maker key) key_key key
  unfolding key_params streq strcmp_bytes
  key_params-HasMember key =
      let m = laws.text_is_map maker.map_new key_key key ∙ laws.new_is_map in
      record { is_map = m; holds = laws.text_set maker.map_new key_key key key_key laws.new_is_map }

  map_text-member : (key : List ℕ) → map_text json (key_params maker key) key_key ≡ some key
  unfolding map_text
  map_text-member key =
      ap (λ (o : Option CString). elim o [ none ↦ none | some c ↦ c ])
        (map_getstring-member json (key_params maker key) key_key key (key_params-HasMember key))

  module _ {S : Type 0} (post : Option (Post S J)) where
    -- Where the JSON library keeps the members that it is given, getregistry of node_methods.c
    -- with a key writes the key itself as the value where the post succeeds, and nothing where it
    -- fails, whatever the node that is asked answers.
    pub node_getregistry-key :
        (s : S) (key : List ℕ) (err : RoundError)
        → let got = node_getregistry maker post json s (some key) err in
          got.2 ≡ (if got.1 then some key else none)
    unfolding node_getregistry
    node_getregistry-key s key err =
        rw (request-params get_registry_name (key_params maker key), map_text-member key) refl

  -- A set of a text leaves the members of the other names.
  pub set-HasMember :
      (o : J) (k v : List ℕ)
      → json.is_object o ≡ true
      → HasMember json (maker.object_set_string o k v) k v
  set-HasMember o k v m =
      let n = laws.text_is_map o k v ∙ m in
      record { is_map = n; holds = laws.text_set o k v k m ∙ rw (eq_key_refl k) refl }

  pub keep-HasMember :
      (o : J) (k v j u : List ℕ)
      → streq (some k) (some j) ≡ false
      → HasMember json o j u
      → HasMember json (maker.object_set_string o k v) j u
  keep-HasMember o k v j u d h =
      let n = laws.text_is_map o k v ∙ h.is_map in
      record { is_map = n; holds = laws.text_set o k v j h.is_map ∙ rw d h.holds }

  -- The parameters hold no text under the name of the encoding.
  pub no_encode :
      (lang name code : List ℕ)
      → map_text json (setmethod_params maker lang name code encode_none) encode_key ≡ none
  unfolding map_text map_getstring setmethod_params streq strcmp_bytes
  no_encode lang name code =
      let o = maker.object_set_string maker.map_new lang_key lang in
      let p = maker.object_set_string o name_key name in
      let mo = laws.text_is_map maker.map_new lang_key lang ∙ laws.new_is_map in
      let mp = laws.text_is_map o name_key name ∙ mo in
      let held =
        laws.text_set p code_key code encode_key mp
        ∙ laws.text_set o name_key name encode_key mo
        ∙ laws.text_set maker.map_new lang_key lang encode_key laws.new_is_map
        ∙ laws.new_empty encode_key in
      ground (arith, laws.text_is_map p code_key code ∙ mp, held)
