-- ===== src/SystemMethod/Sound.antt =====
-- What the system methods do to a node (src/round/method), in any number of calls.
use round.Common.{
  ℕ, ◌≡◌, refl, sym, subst, Bool, true, Option, All, inl, inr, none, some, List, [], ◌∷◌, arith,
  Bool-cases, Option-cases,
}
use round.Common.Int.{ℤ}
use round.Text.{CString}
use round.RpcError.{RoundError, invalid_params}
use round.JsonRpc.{JsonLibrary, map_getstring, map_text}
use round.Map.{RoundMap, removeobjectbykey}
use round.Method.{Method}
use round.LocalNode.{setmethod, removemethod, isfinalmethod}
use round.LocalNode.Final.{Holds, setmethod-Holds, removemethod_call-Holds}
use round.SystemMethod.{
  NodeState, Done, refuse, name_key, lang_key, code_key, encode_key, key_key, value_key,
  decoded_code, made_method, finish, system_setmethod, system_removemethod, system_setregistry,
  system_getregistry, system_removeregistry,
}
use round.Registry.{RoundRegistry, getstring, getregistry, setregistry, removeregistry}
use round.Registry.Node.{IsNodeRegistry}
use round.Registry.Node.Kept.{setregistry-IsNodeRegistry}
use round.SystemMethod.Calls.{
  SystemCall, set_method, remove_method, set_registry, get_registry, remove_registry, system_call,
  system_calls, IsKept,
}
use round.SystemMethod.Registries.{finish_state, removeregistry-IsNodeRegistry}

module _ {J : Type 0} (json : JsonLibrary J) (hash : CString → ℕ) {R : Type 0} (node : NodeState R)
    (params : J) (err : RoundError) where
  -- A method that ends, in a node with a property
  Ends : (NodeState R → Type 0) → Option (Done R) → Type 0
  Ends P d = (done : Done R) × (d ≡ some done) × P done.0

  stays : (P : NodeState R → Type 0) (code : ℤ) → P node → Ends P (some (refuse node err code))
  unfolding Ends
  stays P code p = (refuse node err code, refl, p)

  finishes :
      (P : NodeState R → Type 0) (after : NodeState R) (b : Bool)
      → P after
      → Ends P (some (finish after err b))
  unfolding Ends
  finishes P after b p = (finish after err b, refl, subst P (sym (finish_state after err b)) p)

  -- A system call that reads no freed memory ends, and sets one method, or none.
  system_setmethod-keeps :
      (decode : List ℕ → ℕ → List ℕ) (P : NodeState R → Type 0)
      → IsKept json (set_method params)
      → P node
      → ((method : Method) → P (record node { methods = (setmethod hash node.methods method).0 }))
      → Ends P (system_setmethod json hash decode node params err)
  unfolding system_setmethod
  system_setmethod-keeps decode P (kn, kl, kc) p q = elim (Bool-cases (json.is_object params)) [
    | inr o ↦ rw (system_setmethod, o) (stays P invalid_params p)
    | inl o ↦ elim (Option-cases (map_getstring json params name_key)) [
      | inl e ↦ rw (system_setmethod, o, e) (stays P invalid_params p)
      | inr (name, n) ↦ elim (Option-cases (map_getstring json params lang_key)) [
        | inl e ↦ rw (system_setmethod, o, n, e) (stays P invalid_params p)
        | inr (lang, l) ↦ elim (Option-cases (map_getstring json params code_key)) [
          | inl e ↦ rw (system_setmethod, o, n, l, e) (stays P invalid_params p)
          | inr (code, c) ↦
              elim (Option-cases (decoded_code decode (map_text json params encode_key) code)) [
                | inl e ↦
                    rw (system_setmethod, o, n, l, c, kn, kl, kc, e) (stays P invalid_params p)
                | inr (bytes, e) ↦
                    rw (system_setmethod, o, n, l, c, kn, kl, kc, e)
                      (finishes P _ _ (q (made_method name lang bytes)))
              ]
        ]
      ]
    ]
  ]

  system_removemethod-keeps :
      (P : NodeState R → Type 0)
      → P node
      → ((name : CString) → P (record node { methods = (removemethod hash node.methods name).0 }))
      → Ends P (system_removemethod json hash node params err)
  unfolding system_removemethod
  system_removemethod-keeps P p q = elim (Bool-cases (json.is_object params)) [
    | inr o ↦ rw (system_removemethod, o) (stays P invalid_params p)
    | inl o ↦ elim (Option-cases (map_getstring json params name_key)) [
      | inl e ↦ rw (system_removemethod, o, e) (stays P invalid_params p)
      | inr (name, e) ↦ elim (Bool-cases (isfinalmethod hash node.methods name)) [
        | inl f ↦ rw (system_removemethod, o, e, f) (stays P invalid_params p)
        | inr f ↦ rw (system_removemethod, o, e, f) (finishes P _ _ (q name))
      ]
    ]
  ]

  system_setregistry-keeps :
      (now : ℤ) (P : NodeState R → Type 0)
      → IsKept json (set_registry params)
      → P node
      → ((key val : CString)
          → P (record node { regs = (setregistry hash node.regs key val now node.clock).0 }))
      → Ends P (system_setregistry json hash now node params err)
  unfolding system_setregistry
  system_setregistry-keeps now P k p q = elim (Bool-cases (json.is_object params)) [
    | inr o ↦ rw (system_setregistry, o) (stays P invalid_params p)
    | inl o ↦ elim (Option-cases (map_getstring json params key_key)) [
      | inl e ↦ rw (system_setregistry, o, e) (stays P invalid_params p)
      | inr (key, e) ↦ elim (Option-cases (map_getstring json params value_key)) [
        | inl f ↦ rw (system_setregistry, o, e, f) (stays P invalid_params p)
        | inr (val, f) ↦ rw (system_setregistry, o, e, f, k) (finishes P _ _ (q key val))
      ]
    ]
  ]

  system_getregistry-keeps :
      (P : NodeState R → Type 0) → P node → Ends P (system_getregistry json hash node params err)
  unfolding system_getregistry Ends
  system_getregistry-keeps P p = elim (Bool-cases (json.is_object params)) [
    | inr o ↦ rw (system_getregistry, o) (stays P invalid_params p)
    | inl o ↦ elim (Option-cases (map_getstring json params key_key)) [
      | inl e ↦ rw (system_getregistry, o, e) (stays P invalid_params p)
      | inr (key, e) ↦ elim (Option-cases (getregistry hash node.regs key)) [
        | inl f ↦ rw (system_getregistry, o, e, f) (stays P invalid_params p)
        | inr (reg, f) ↦ elim (Option-cases (getstring reg)) [
          | inl g ↦ rw (system_getregistry, o, e, f, g) (_, refl, p)
          | inr (val, g) ↦ rw (system_getregistry, o, e, f, g) (_, refl, p)
        ]
      ]
    ]
  ]

  system_removeregistry-keeps :
      (P : NodeState R → Type 0)
      → P node
      → ((key : CString) → P (record node { regs = (removeregistry hash node.regs key).0 }))
      → Ends P (system_removeregistry json hash node params err)
  unfolding system_removeregistry
  system_removeregistry-keeps P p q = elim (Bool-cases (json.is_object params)) [
    | inr o ↦ rw (system_removeregistry, o) (stays P invalid_params p)
    | inl o ↦ elim (Option-cases (map_getstring json params key_key)) [
      | inl e ↦ rw (system_removeregistry, o, e) (stays P invalid_params p)
      | inr (key, e) ↦ rw (system_removeregistry, o, e) (finishes P _ _ (q key))
    ]
  ]

-- A node whose methods and registry are well formed, and which holds a method under a name.
pub record IsSound {R : Type 0} (hash : CString → ℕ) (name : List ℕ) (method : Method)
    (node : NodeState R) : Type 0 where
  pub methods : Holds hash name method node.methods
  pub regs : IsNodeRegistry hash node.regs

module _ {J : Type 0} (json : JsonLibrary J) (hash : CString → ℕ) (decode : List ℕ → ℕ → List ℕ)
    {R : Type 0} (name : List ℕ) (method : Method) (final : method.is_final ≡ true) where
  removeregistry_text :
      (regs : RoundMap (RoundRegistry R)) (key : CString)
      → IsNodeRegistry hash regs
      → IsNodeRegistry hash (removeregistry hash regs key).0
  removeregistry_text regs none n = unfold removeregistry removeobjectbykey in n
  removeregistry_text regs (some key) n = removeregistry-IsNodeRegistry hash regs key n

  system_call-IsSound :
      (now : ℤ) (node : NodeState R) (c : SystemCall J) (err : RoundError)
      → IsKept json c
      → IsSound hash name method node
      → (done : Done R) × (system_call json hash decode now node c err ≡ some done)
        × IsSound hash name method done.0
  unfolding system_call Ends
  system_call-IsSound now node (set_method params) err k s =
      system_setmethod-keeps json hash node params err decode (IsSound hash name method) k s (λ m.
        record {
          methods = setmethod-Holds hash name method final node.methods m s.methods;
          regs = s.regs;
        })
  system_call-IsSound now node (remove_method params) err k s =
      system_removemethod-keeps json hash node params err (IsSound hash name method) s (λ n.
        record {
          methods = removemethod_call-Holds hash name method final node.methods n s.methods;
          regs = s.regs;
        })
  system_call-IsSound now node (set_registry params) err k s =
      system_setregistry-keeps json hash node params err now (IsSound hash name method) k s
        (λ key val. record {
          methods = s.methods;
          regs = setregistry-IsNodeRegistry hash node.regs key val now node.clock s.regs;
        })
  system_call-IsSound now node (get_registry params) err k s =
      system_getregistry-keeps json hash node params err (IsSound hash name method) s
  system_call-IsSound now node (remove_registry params) err k s =
      system_removeregistry-keeps json hash node params err (IsSound hash name method) s
        (λ key. record { methods = s.methods; regs = removeregistry_text node.regs key s.regs })

  -- Where a local node has a well-formed manager that holds a final method under a name, and a
  -- well-formed registry of texts, and in each of some calls of the five system methods the
  -- members that are read before others, which are the name, the language and the code of a method
  -- that is set and the key of a registry that is set, are missing, null or texts, the calls end,
  -- and the node then still has both.
  pub system_calls-IsSound :
      (node : NodeState R) (calls : List (ℤ × SystemCall J)) (err : RoundError)
      → All (λ c. IsKept json c.1) calls
      → IsSound hash name method node
      → (after : NodeState R) × (system_calls json hash decode node calls err ≡ some after)
        × IsSound hash name method after
  unfolding system_calls
  system_calls-IsSound node [] err k s = (node, refl, s)
  system_calls-IsSound node ((now, c) ∷ calls) err k s =
      let (done, run, d) = system_call-IsSound now node c err k.0 s in
      let (after, rest, a) = system_calls-IsSound done.0 calls err k.1 d in
      (after, ground (arith, run, rest), a)
