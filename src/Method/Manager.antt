-- ===== src/Method/Manager.antt =====
-- The method manager (method_manager.c) as two partial functions, from names to methods and from
-- languages to engines.
use round.Common.{
  ℕ, ◌≡◌, refl, ap, ◌∙◌, if◌then◌else◌, Bool, true, false, Option, none, some, List, arith,
}
use round.Text.{CString}
use round.Map.{RoundMap, setobject, removeobjectbykey, getobjectbykey}
use round.Map.Bucket.{eq_key, eq_key_refl}
use round.Map.Invariant.{IsMap}
use round.Map.Invariant.Set.{getobjectbykey-setobject, getobjectbykey-removeobjectbykey}
use round.RpcError.{RoundError}
use round.Method.{
  Method, isvalid, ScriptEngine, engine_isvalid, MethodManager, addmethod, getmethod, removemethod,
  addengine, getengine, execmethod, ExecNode, ExecFunc, executed_in, data_of,
}

module _ (hash : CString → ℕ) where
  pub record IsManager (mgr : MethodManager) : Type 0 where
    pub methods : IsMap hash mgr.method_map
    pub engines : IsMap hash mgr.engine_map

  pick :
      {V : Type 0} (b : Bool) (v w x : Option V)
      → x ≡ (if b then none else w)
      → (if b then v else x) ≡ (if b then v else w)
  pick true v w x e = refl
  pick false v w x e = e

  -- `removeobjectbykey` and `setobject` of one key, as the manager calls them.
  replaced :
      {V : Type 0} (map : RoundMap V) (c : CString) (j : List ℕ) (v : V)
      → c ≡ some j
      → IsMap hash map
      → IsMap hash (setobject hash (removeobjectbykey hash map c).0 c (some v)).0
        × ((setobject hash (removeobjectbykey hash map c).0 c (some v)).1 ≡ true)
        × ((k : List ℕ)
            → getobjectbykey hash
                (setobject hash (removeobjectbykey hash map c).0 c (some v)).0
                (some k)
              ≡ (if eq_key j k then some v else getobjectbykey hash map (some k)))
  replaced map c j v e m =
      let (rm, rg) = getobjectbykey-removeobjectbykey hash map j m in
      let (ok, sm, sg) =
        getobjectbykey-setobject hash (removeobjectbykey hash map (some j)).0 j v rm in
      rw e (
        sm,
        ok,
        λ k.
            sg k
            ∙ pick (eq_key j k) (some v) (getobjectbykey hash map (some k))
                (getobjectbykey hash (removeobjectbykey hash map (some j)).0 (some k)) (rg k),
      )

  -- On a well-formed manager, addmethod of a valid method that has a name succeeds and keeps the
  -- manager well formed; it then answers the name with the method, and every other name as before.
  pub getmethod-addmethod :
      (mgr : MethodManager) (method : Method) (j : List ℕ)
      → IsManager mgr
      → isvalid method ≡ true
      → method.name ≡ some j
      → IsManager (addmethod hash mgr method).0
        × ((addmethod hash mgr method).1 ≡ true)
        × ((k : List ℕ)
            → getmethod hash (addmethod hash mgr method).0 (some k)
              ≡ (if eq_key j k then some method else getmethod hash mgr (some k)))
  unfolding addmethod getmethod
  getmethod-addmethod mgr method j m v e =
      let (sm, ok, g) = replaced mgr.method_map method.name j method e m.methods in
      rw v (record { methods = sm; engines = m.engines }, ok, g)

  pub getmethod-removemethod :
      (mgr : MethodManager) (j : List ℕ)
      → IsManager mgr
      → IsManager (removemethod hash mgr (some j)).0
        × ((k : List ℕ)
            → getmethod hash (removemethod hash mgr (some j)).0 (some k)
              ≡ (if eq_key j k then none else getmethod hash mgr (some k)))
  unfolding removemethod getmethod
  getmethod-removemethod mgr j m =
      let (rm, rg) = getobjectbykey-removeobjectbykey hash mgr.method_map j m.methods in
      (record { methods = rm; engines = m.engines }, rg)

  -- `addengine` of a valid engine likewise.
  pub getengine-addengine :
      (mgr : MethodManager) (engine : ScriptEngine) (j : List ℕ)
      → IsManager mgr
      → engine_isvalid engine ≡ true
      → engine.language ≡ some j
      → IsManager (addengine hash mgr engine).0
        × ((addengine hash mgr engine).1 ≡ true)
        × ((k : List ℕ)
            → getengine hash (addengine hash mgr engine).0 (some k)
              ≡ (if eq_key j k then some engine else getengine hash mgr (some k)))
  unfolding addengine getengine
  getengine-addengine mgr engine j m v e =
      let (sm, ok, g) = replaced mgr.engine_map engine.language j engine e m.engines in
      rw v (record { methods = m.methods; engines = sm }, ok, g)

  pub getengine-addmethod :
      (mgr : MethodManager) (method : Method) (lang : CString)
      → getengine hash (addmethod hash mgr method).0 lang ≡ getengine hash mgr lang
  unfolding addmethod getengine
  getengine-addmethod mgr method lang = ground arith

  execmethod_found :
      (node : ExecNode) (method : Method) (engine : ScriptEngine) (exec_func : ExecFunc)
      (j params : List ℕ) (err : RoundError)
      → getmethod hash node.mgr (some j) ≡ some method
      → getengine hash node.mgr method.lang ≡ some engine
      → engine.exec_func ≡ some exec_func
      → execmethod hash node (some j) (some params) err
        ≡ some (executed_in node (exec_func (data_of node) method params err))
  unfolding execmethod
  execmethod_found node method engine exec_func j params err m e f = ground (arith, m, e, f)

  -- Where a valid engine with an execution function is added to the well-formed manager of a node,
  -- and then a valid method in its language, execmethod of the method's name and some parameters
  -- leaves the node and gives the outcome that the function does on the node, the method, the
  -- parameters and the error.
  pub execmethod-addmethod :
      (node : ExecNode) (engine : ScriptEngine) (method : Method) (l j params : List ℕ)
      (exec_func : ExecFunc) (err : RoundError)
      → IsManager node.mgr
      → engine_isvalid engine ≡ true
      → engine.language ≡ some l
      → engine.exec_func ≡ some exec_func
      → isvalid method ≡ true
      → method.name ≡ some j
      → method.lang ≡ some l
      → let after = record node {
        mgr = (addmethod hash (addengine hash node.mgr engine).0 method).0;
      } in
        execmethod hash after (some j) (some params) err
        ≡ some (executed_in after (exec_func (data_of after) method params err))
  execmethod-addmethod node engine method l j params exec_func err m ve le fe vm nm lm =
      let mgr = node.mgr in
      let (em, _, eg) = getengine-addengine mgr engine l m ve le in
      let (mm, _, mg) = getmethod-addmethod (addengine hash mgr engine).0 method j em vm nm in
      let found : getmethod hash (addmethod hash (addengine hash mgr engine).0 method).0 (some j)
          ≡ some method =
        mg j
        ∙ ap (λ b. if b then some method else getmethod hash (addengine hash mgr engine).0 (some j))
            (eq_key_refl j) in
      let runs : getengine hash (addmethod hash (addengine hash mgr engine).0 method).0 method.lang
          ≡ some engine =
        ap (λ c. getengine hash (addmethod hash (addengine hash mgr engine).0 method).0 c) lm
        ∙ getengine-addmethod (addengine hash mgr engine).0 method (some l)
        ∙ eg l
        ∙ ap (λ b. if b then some engine else getengine hash mgr (some l)) (eq_key_refl l) in
      execmethod_found
        (record node { mgr = (addmethod hash (addengine hash mgr engine).0 method).0 }) method
        engine exec_func j params err found runs fe
