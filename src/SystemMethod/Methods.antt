-- ===== src/SystemMethod/Methods.antt =====
-- A method that is set by a system call (method/set_method.c).
use round.Common.{
  ℕ, ◌≡◌, ◌≢◌, refl, ap, ◌∙◌, Bool, true, false, inl, inr, Option, none, some, List, [], ◌∷◌, arith,
  if◌then◌else◌, Option-cases,
}
use round.Text.{CString, strlen}
use round.RpcError.{RoundError}
use round.JsonRpc.{JsonLibrary, map_text}
use round.Map.Bucket.{eq_key}
use round.Method.{Method, MethodManager, isvalid, getmethod, addmethod, new_method, setcode}
use round.Method
use round.Method.Manager.{IsManager, getmethod-addmethod, getmethod-removemethod}
use round.LocalNode.{setmethod, isfinalmethod}
use round.LocalNode.Final.{setmethod_absent, setmethod_over}
use round.SystemMethod.{
  NodeState, name_key, lang_key, code_key, encode_key, decoded_code, made_method, system_setmethod,
}
use round.SystemMethod.Registries.{HasMember, map_getstring-member, is_cached-member}

made_method-isvalid :
    (name bytes : List ℕ) (lang : CString)
    → name ≢ []
    → bytes ≢ []
    → isvalid (made_method (some name) lang (some bytes)) ≡ true
unfolding isvalid made_method strlen
made_method-isvalid [] bytes lang h k = absurd (h refl)
made_method-isvalid (x ∷ name) [] lang h k = absurd (k refl)
made_method-isvalid (x ∷ name) (y ∷ bytes) lang h k = ground arith

made_method-name :
    (name lang : CString) (bytes : List ℕ) → (made_method name lang (some bytes)).name ≡ name
unfolding made_method
made_method-name name lang [] = refl
made_method-name name lang (y ∷ bytes) = ground arith

module _ (hash : CString → ℕ) (mgr : MethodManager) (m : IsManager hash mgr) (method : Method)
    (name : List ℕ) (v : isvalid method ≡ true) (e : method.name ≡ some name) where
  -- A valid method takes the place of one that is not final, or of none.
  setmethod-sets :
      isfinalmethod hash mgr (some name) ≡ false
      → IsManager hash (setmethod hash mgr method).0
        × ((setmethod hash mgr method).1 ≡ true)
        × ((k : List ℕ)
            → getmethod hash (setmethod hash mgr method).0 (some k)
              ≡ (if eq_key name k then some method else getmethod hash mgr (some k)))
  setmethod-sets f = elim (Option-cases (getmethod hash mgr (some name))) [
    | inl n ↦
        rw (setmethod_absent hash mgr method (ap (getmethod hash mgr) e ∙ n))
          (getmethod-addmethod hash mgr method name m v e)
    | inr (ex, g) ↦
        let nf : ex.is_final ≡ false = unfold isfinalmethod in ground (arith, f, g) in
        let (rm, rg) = getmethod-removemethod hash mgr name m in
        let (am, ok, ag) =
          getmethod-addmethod hash (Method.removemethod hash mgr (some name)).0 method name rm v
            e in
        rw
          (setmethod_over hash mgr method ex (ap (getmethod hash mgr) e ∙ g) nf
            ∙ ap (λ n. addmethod hash (Method.removemethod hash mgr n).0 method) e)
          ((
            am,
            ok,
            λ k.
                ag k
                ∙ ap (λ x. if eq_key name k then some method else x) (rg k)
                ∙ twice (eq_key name k) (getmethod hash mgr (some k)),
          ))
  ]
    where
      twice :
          (b : Bool) (x : Option Method)
          → (if b then some method else (if b then none else x)) ≡ (if b then some method else x)
      twice true x = refl
      twice false x = refl

module _ {J : Type 0} (json : JsonLibrary J) (hash : CString → ℕ) (decode : List ℕ → ℕ → List ℕ)
    {R : Type 0} where
  -- On a node whose method manager is well formed, set_method with a name that is not empty and
  -- not that of a final method, a language, and a code that is decoded to some bytes succeeds and
  -- keeps the manager well formed; it then answers the name with the method of these, and every
  -- other name as before.
  pub getmethod-after_set :
      (node : NodeState R) (params : J) (err : RoundError) (name lang code bytes : List ℕ)
      → IsManager hash node.methods
      → HasMember json params name_key name
      → HasMember json params lang_key lang
      → HasMember json params code_key code
      → decoded_code decode (map_text json params encode_key) (some code) ≡ some (some bytes)
      → name ≢ []
      → bytes ≢ []
      → isfinalmethod hash node.methods (some name) ≡ false
      → (after : NodeState R) × (system_setmethod json hash decode node params err
          ≡ some (after, none, true, err))
        × IsManager hash after.methods
        × ((k : List ℕ)
            → getmethod hash after.methods (some k) ≡ (
                if eq_key name k
                then some (made_method (some name) (some lang) (some bytes))
                else getmethod hash node.methods (some k)))
  getmethod-after_set node params err name lang code bytes m hn hl hc d n0 b0 f =
      let method = made_method (some name) (some lang) (some bytes) in
      let (keeps, ok, answers) =
        setmethod-sets hash node.methods m method name
          (made_method-isvalid name bytes (some lang) n0 b0)
          (made_method-name (some name) (some lang) bytes) f in
      let gn = map_getstring-member json params name_key name hn in
      let gl = map_getstring-member json params lang_key lang hl in
      let gc = map_getstring-member json params code_key code hc in
      let kn = is_cached-member json params name_key name hn in
      let kl = is_cached-member json params lang_key lang hl in
      let kc = is_cached-member json params code_key code hc in
      let done : system_setmethod json hash decode node params err
          ≡ some
              (record node { methods = (setmethod hash node.methods method).0 }, none, true, err) =
        unfold system_setmethod in rw (hn.is_map, gn, gl, gc, kn, kl, kc, d, ok) refl in
      (record node { methods = (setmethod hash node.methods method).0 }, done, keeps, answers)
