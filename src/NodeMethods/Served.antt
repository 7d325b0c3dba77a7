-- ===== src/NodeMethods/Served.antt =====
-- The functions of src/round/node_methods.c with a node at the other end that runs the system
-- method of the request on its parameters (src/round/method).
use round.Common.{
  ℕ, ◌≡◌, ◌≢◌, refl, sym, ap, subst, ◌∙◌, Bool, true, false, Option, none, some, List, [],
  if◌then◌else◌,
}
use round.Common.Int.{ℤ}
use round.Text.{CString, streq, strcmp_bytes}
use round.Map.Bucket.{eq_key}
use round.RpcError.{RoundError}
use round.Method.{getmethod}
use round.Method.Manager.{IsManager}
use round.LocalNode.{isfinalmethod}
use round.JsonRpc.{JsonLibrary, map_text, map_getinteger, method_key, params_key, ts_key}
use round.Clock.{updateclock}
use round.SystemMethod.{
  NodeState, Done, name_key, lang_key, code_key, encode_key, decoded_code, made_method,
}
use round.SystemMethod.Registries.{map_getstring-member}
use round.SystemMethod.Methods.{getmethod-after_set}
use round.SystemMethod.Calls.{
  SystemCall, set_method, remove_method, set_registry, get_registry, remove_registry, system_call,
}
use round.NodeMethods.{
  JsonMaker, Post, encode_none, set_method_name, remove_method_name, set_registry_name,
  remove_registry_name, request, setmethod_params, post_request, node_setmethod,
}
use round.NodeMethods.Requests.{
  IsMaker, request-method, request-params, set-HasMember, keep-HasMember, no_encode,
}

-- The function of a system method by its name, as `round_local_node_initsystemmethods` puts the
-- five methods into the manager, where they are final. Only these five names are asked for.
abbrev pub call_of : {J : Type 0} → List ℕ → J → SystemCall J
call_of method params =
    if streq (some method) (some set_method_name)
    then set_method params
    else if streq (some method) (some remove_method_name)
    then remove_method params
    else if streq (some method) (some set_registry_name)
    then set_registry params
    else if streq (some method) (some remove_registry_name)
    then remove_registry params
    else get_registry params

plain :
    (decode : List ℕ → ℕ → List ℕ) (code : List ℕ) (encode : CString)
    → encode ≡ none
    → decoded_code decode encode (some code) ≡ some (some code)
unfolding decoded_code streq
plain decode code encode e = rw e refl

module _ {J : Type 0} (json : JsonLibrary J) (maker : JsonMaker J) (laws : IsMaker json maker) where
  -- The clock of a node behind `round_node_updateclockbyjsonobject`; where the update overflows,
  -- which the source leaves open, it is the old one.
  abbrev pub received_clock : ℤ → J → ℤ
  received_clock clock req = elim (updateclock clock (map_getinteger json req ts_key)) [
    | none ↦ clock
    | some new_clock ↦ new_clock
  ]

  module _ (hash : CString → ℕ) (decode : List ℕ → ℕ → List ℕ) (now : ℤ) {R : Type 0} where
    -- What a post leaves of a system method; a method that reads freed memory, which leaves nothing
    -- determined, is one that fails.
    abbrev ran :
        NodeState R → RoundError → Option (Done R) → NodeState R × Bool × Option J × RoundError
    ran node err none = (node, false, none, err)
    ran node err (some d) = (d.0, d.2, none, d.3)

    -- The call of the method in `round_local_node_execrequest`
    pub serve_with :
        NodeState R → Option J → CString → RoundError → NodeState R × Bool × Option J × RoundError
    serve_with node none method err = (node, false, none, err)
    serve_with node (some params) none err = (node, false, none, err)
    serve_with node (some params) (some method) err =
        ran node err (system_call json hash decode now node (call_of method params) err)

    -- `round_local_node_postmessage` of a node, for a request of a system method: the clock is
    -- updated with the request, and the method runs on its parameters. The system methods that
    -- `round_local_node_initsystemmethods` puts into the manager stand in place of the look-up in
    -- it.
    abbrev pub serve : Post (NodeState R) J
    serve node req err =
        serve_with (record node { clock = received_clock node.clock req })
          (maker.member_object req params_key) (map_text json req method_key) err

    -- The node behind the update of its clock
    abbrev pub at_receipt : NodeState R → List ℕ → J → NodeState R
    at_receipt node method params = record node {
      clock = received_clock node.clock (request maker method params);
    }

    serve-request :
        (node : NodeState R) (method : List ℕ) (params : J) (err : RoundError)
        → serve node (request maker method params) err
          ≡ ran (at_receipt node method params) err (
              system_call json hash decode now
                (at_receipt node method params)
                (call_of method params)
                err)
    unfolding serve_with map_text
    serve-request node method params err =
        let at : NodeState R = at_receipt node method params in
        ap (λ p. serve_with at p (map_text json (request maker method params) method_key) err)
          (request-params json maker laws method params)
        ∙ ap (λ m. serve_with at (some params) m err)
            (ap (λ (o : Option CString). elim o [ none ↦ none | some c ↦ c ])
              (map_getstring-member json (request maker method params) method_key method
                (request-method json maker laws method params)))

    post_request-serve :
        (node : NodeState R) (method : List ℕ) (params : J) (err : RoundError) (d : Done R)
        → system_call json hash decode now
            (at_receipt node method params)
            (call_of method params)
            err
          ≡ some d
        → post_request maker (some serve) node method params err ≡ (d.0, d.2, d.3)
    unfolding post_request
    post_request-serve node method params err d run =
        ap (λ r. (r.0, r.1, r.3))
          (serve-request node method params err ∙ ap (ran (at_receipt node method params) err) run)

    -- Where the JSON library keeps the members that it is given, and the node that is asked
    -- updates its clock with the request, runs the system method of the request's name on its
    -- parameters and has a well-formed method manager, setmethod of node_methods.c with a
    -- language, a name that is not empty and not that of a final method, and a code that is not
    -- empty and not encoded succeeds; the manager stays well formed and then answers the name with
    -- the method of these, and every other name as before.
    pub node_setmethod-serve :
        (node : NodeState R) (lang name code : List ℕ) (err : RoundError)
        → IsManager hash node.methods
        → name ≢ []
        → code ≢ []
        → isfinalmethod hash node.methods (some name) ≡ false
        → let after =
            node_setmethod maker
              (some serve)
              node
              (some lang)
              (some name)
              (some code)
              encode_none
              err in
          (after.1 ≡ true)
          × IsManager hash after.0.methods
          × ((k : List ℕ)
              → getmethod hash after.0.methods (some k) ≡ (
                  if eq_key name k
                  then some (made_method (some name) (some lang) (some code))
                  else getmethod hash node.methods (some k)))
    unfolding node_setmethod system_call streq strcmp_bytes setmethod_params
    node_setmethod-serve node lang name code err m n0 c0 f =
        let o = maker.object_set_string maker.map_new lang_key lang in
        let p = maker.object_set_string o name_key name in
        let params = maker.object_set_string p code_key code in
        let hl = set-HasMember json maker laws maker.map_new lang_key lang laws.new_is_map in
        let hn = set-HasMember json maker laws o name_key name hl.is_map in
        let hl' = keep-HasMember json maker laws o name_key name lang_key lang refl hl in
        let (done, ok, kept, answers) =
          getmethod-after_set json hash decode (at_receipt node set_method_name params) params err
            name lang code code m
            (keep-HasMember json maker laws p code_key code name_key name refl hn)
            (keep-HasMember json maker laws p code_key code lang_key lang refl hl')
            (set-HasMember json maker laws p code_key code hn.is_map)
            (plain decode code (map_text json params encode_key)
              (no_encode json maker laws lang name code))
            n0 c0 f in
        let after : node_setmethod maker (some serve) node (some lang) (some name) (some code)
              encode_none err
            ≡ (done, true, err) =
          post_request-serve node set_method_name params err (done, none, true, err) ok in
        subst
          (λ (r : NodeState R × Bool × RoundError).
            (r.1 ≡ true)
            × IsManager hash r.0.methods
            × ((k : List ℕ)
                → getmethod hash r.0.methods (some k) ≡ (
                    if eq_key name k
                    then some (made_method (some name) (some lang) (some code))
                    else getmethod hash node.methods (some k))))
          (sym after) (refl, kept, answers)
