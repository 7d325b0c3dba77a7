-- ===== src/Tests/LocalNode.antt =====
-- Tests of the errors (error_rpc.c), the methods (method_manager.c) and the local node
-- (local_node.c).
use round.Common.{
  ℕ, ◌≡◌, refl, ap, ◌∙◌, ◌⊎◌, true, false, none, some, List, [], ◌∷◌, arith, if◌then◌else◌,
}
use round.Common.Int.{pos}
use round.Text.{CString, strlen}
use round.Map.{new_map}
use round.Map.Bucket.{eq_key, eq_key_refl}
use round.Map.Invariant.New.{new_map-IsMap}
use round.RpcError.{
  new_error, method_not_found, errorcode2string, unknown_msg, setjsonrpcerrorcode, error2object,
  setjsonrpcerror, errorcode2string_inj, setjsonrpcerror-error2object,
}
use round.Method.{
  Method, isvalid, ScriptEngine, engine_isvalid, MethodManager, ExecFunc, ExecNode, executed_in,
  data_of, addmethod, getmethod, addengine, execmethod,
}
use round.Method.Manager.{IsManager, getmethod-addmethod, execmethod-addmethod}
use round.LocalNode.{setmethod, set, remove, call_all}
use round.LocalNode.Final.{Holds, call_all-Holds, setmethod_drops}

setjsonrpcerror-error2object_test :
    setjsonrpcerror new_error (error2object (setjsonrpcerrorcode new_error method_not_found))
    ≡ record (setjsonrpcerrorcode new_error method_not_found) { msg = new_error.msg }
setjsonrpcerror-error2object_test =
    setjsonrpcerror-error2object new_error new_error method_not_found (omega arith)

errorcode2string_inj_test : ◌≡◌ (pos 1) (pos 2) ⊎ (errorcode2string (pos 1) ≡ unknown_msg)
errorcode2string_inj_test = errorcode2string_inj (pos 1) (pos 2) (unfold errorcode2string in refl)

-- Keys are hashed by their lengths.
abbrev hash : CString → ℕ
hash = strlen

abbrev empty : MethodManager
empty = record { method_map = new_map 4; engine_map = new_map 4 }

empty-IsManager : IsManager hash empty
empty-IsManager = record {
  methods = new_map-IsMap hash 4 (omega arith);
  engines = new_map-IsMap hash 4 (omega arith);
}

-- The engine `e`, which gives the parameters back.
abbrev echo : ExecFunc
echo written method params err = (written, (true, some params, err))

abbrev engine : ScriptEngine
engine = record { language = some (101 ∷ []); exec_func = some echo }

abbrev final_method : Method
final_method = record {
  module_name = none;
  name = some (109 ∷ []);
  lang = some (101 ∷ []);
  code = none;
  code_size = 0;
  is_final = true;
  is_static = true;
}

abbrev script_method : Method
script_method = record {
  module_name = none;
  name = some (109 ∷ []);
  lang = some (101 ∷ []);
  code = some (1 ∷ []);
  code_size = 1;
  is_final = false;
  is_static = false;
}

abbrev broken_method : Method
broken_method = record script_method { code = none; code_size = 0 }

engine_valid : engine_isvalid engine ≡ true
unfolding engine_isvalid strlen
engine_valid = refl

final_valid : isvalid final_method ≡ true
unfolding isvalid strlen
final_valid = refl

script_valid : isvalid script_method ≡ true
unfolding isvalid strlen
script_valid = refl

broken_invalid : isvalid broken_method ≡ false
unfolding isvalid strlen
broken_invalid = refl

abbrev node : ExecNode
node = record { mgr = empty; clock = pos 3; others = [] }

abbrev served : ExecNode
served = record node { mgr = (addmethod hash (addengine hash empty engine).0 final_method).0 }

execmethod-addmethod_example :
    execmethod hash served (some (109 ∷ [])) (some (120 ∷ [])) new_error
    ≡ some (executed_in served (echo (data_of served) final_method (120 ∷ []) new_error))
execmethod-addmethod_example =
    execmethod-addmethod hash node engine final_method (101 ∷ []) (109 ∷ []) (120 ∷ []) echo
      new_error empty-IsManager engine_valid refl refl final_valid refl refl

getmethod-addmethod_test :
    IsManager hash (addmethod hash empty script_method).0
    × ((addmethod hash empty script_method).1 ≡ true)
    × ((k : List ℕ)
        → getmethod hash (addmethod hash empty script_method).0 (some k)
          ≡ (if eq_key (109 ∷ []) k then some script_method else getmethod hash empty (some k)))
getmethod-addmethod_test =
    getmethod-addmethod hash empty script_method (109 ∷ []) empty-IsManager script_valid refl

final-Holds : Holds hash (109 ∷ []) final_method (addmethod hash empty final_method).0
final-Holds =
    let (m, _, g) =
      getmethod-addmethod hash empty final_method (109 ∷ []) empty-IsManager final_valid refl in
    (m, g (109 ∷ []) ∙ same)
  where
    same :
        (if eq_key (109 ∷ []) (109 ∷ [])
          then some final_method
          else getmethod hash empty (some (109 ∷ [])))
        ≡ some final_method
    same =
        ap (λ b. if b then some final_method else getmethod hash empty (some (109 ∷ [])))
          (eq_key_refl (109 ∷ []))

call_all-Holds_test : Holds hash (109 ∷ []) final_method (
    call_all hash
      (addmethod hash empty final_method).0
      (remove (some (109 ∷ [])) ∷ set script_method ∷ []))
call_all-Holds_test =
    call_all-Holds hash (109 ∷ []) final_method refl
      (remove (some (109 ∷ [])) ∷ set script_method ∷ []) (addmethod hash empty final_method).0
      final-Holds

script-IsManager : IsManager hash (addmethod hash empty script_method).0
script-IsManager =
    (getmethod-addmethod hash empty script_method (109 ∷ []) empty-IsManager script_valid refl).0

script_held :
    getmethod hash (addmethod hash empty script_method).0 (some (109 ∷ [])) ≡ some script_method
script_held =
    (getmethod-addmethod hash empty script_method (109 ∷ []) empty-IsManager script_valid refl).2
      (109 ∷ [])
    ∙ ap (λ b. if b then some script_method else getmethod hash empty (some (109 ∷ [])))
        (eq_key_refl (109 ∷ []))

setmethod_drops_test :
    ((setmethod hash (addmethod hash empty script_method).0 broken_method).1 ≡ false)
    × (getmethod hash
          (setmethod hash (addmethod hash empty script_method).0 broken_method).0
          (some (109 ∷ []))
        ≡ none)
setmethod_drops_test =
    setmethod_drops hash (addmethod hash empty script_method).0 broken_method script_method
      (109 ∷ []) script-IsManager script_held refl refl broken_invalid
