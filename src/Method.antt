-- ===== src/Method.antt =====
-- The methods and the script engines of a node: src/round/method.c, src/round/method_manager.c,
-- and the validity test of src/round/script_engine.c. Methods and engines are values, so a map
-- holds a copy where the code holds a pointer. The hash function of a map and the execution
-- functions of the engines are callbacks. Allocation succeeds.
pub mod Manager
use round.Common.{
  ℕ, ◌==◌, if◌then◌else◌, Bool, true, false, not, ◌||◌, Option, none, some, List, [], ◌∷◌, length,
}
use round.Common.Int.{ℤ}
use round.Text.{CString, strlen}
use round.Map.{RoundMap, setobject, removeobjectbykey, haskey, getobjectbykey}
use round.RpcError.{RoundError, setjsonrpcerrorcode, method_not_found, script_engine_not_found}

-- `RoundMethod`; the bits of its options are two flags.
pub record Method : Type 0 where
  pub module_name : CString
  pub name : CString
  pub lang : CString
  pub code : Option (List ℕ)
  pub code_size : ℕ
  pub is_final : Bool
  pub is_static : Bool

-- `round_method_new`
unfoldable pub new_method : Method
new_method = record {
  module_name = none;
  name = none;
  lang = none;
  code = none;
  code_size = 0;
  is_final = false;
  is_static = false;
}

-- `round_method_isvalid`
unfoldable pub isvalid : Method → Bool
isvalid method =
    if strlen method.name == 0
    then false
    else if not method.is_static
    then (elim method.code [ none ↦ false | some _ ↦ not (method.code_size == 0) ])
    else true

-- `round_method_setcode`; the code is given by its bytes, and NULL by `none`.
unfoldable pub setcode : Method → Option (List ℕ) → Method
setcode method code =
    let cleared : Method = elim method.code [
      | none ↦ method
      | some _ ↦ record method { code = none; code_size = 0 }
    ] in
    elim code [
      | none ↦ cleared
      | some bytes ↦
          if length bytes == 0
          then cleared
          else record cleared { code = some bytes; code_size = length bytes }
    ]

-- What an execution function does to the arguments it is given: its result, the JSON object that
-- it makes, and the error.
abbrev pub Outcome : Type 0
Outcome = Bool × Option (List ℕ) × RoundError

-- What an execution function may read and write of a node: its methods, its clock, and its other
-- parts, such as the registries, by their bytes.
pub record NodeData : Type 0 where
  pub methods : RoundMap Method
  pub clock : ℤ
  pub others : List ℕ

-- A function that executes methods: the node and the outcome that it leaves.
abbrev pub ExecFunc : Type 0
ExecFunc = NodeData → Method → List ℕ → RoundError → NodeData × Outcome

-- `RoundScriptEngine`
pub record ScriptEngine : Type 0 where
  pub language : CString
  pub exec_func : Option ExecFunc

-- `round_script_engine_isvalid`
unfoldable pub engine_isvalid : ScriptEngine → Bool
engine_isvalid engine = not (strlen engine.language == 0)

-- `RoundMethodManager`
pub record MethodManager : Type 0 where
  pub method_map : RoundMap Method
  pub engine_map : RoundMap ScriptEngine

-- A node as the execution of methods sees it. The functions of the engines do not change the
-- engines.
pub record ExecNode : Type 0 where
  pub mgr : MethodManager
  pub clock : ℤ
  pub others : List ℕ

abbrev pub data_of : ExecNode → NodeData
data_of node = record { methods = node.mgr.method_map; clock = node.clock; others = node.others }

abbrev pub with_data : ExecNode → NodeData → ExecNode
with_data node written = record {
  mgr = record node.mgr { method_map = written.methods };
  clock = written.clock;
  others = written.others;
}

-- The node and the outcome behind a call of an execution function
abbrev pub executed_in : ExecNode → NodeData × Outcome → ExecNode × Outcome
executed_in node (written, outcome) = (with_data node written, outcome)

module _ (hash : CString → ℕ) where
  -- `round_method_manager_addmethod`
  unfoldable pub addmethod : MethodManager → Method → MethodManager × Bool
  unfolding isvalid
  addmethod mgr method =
      if not (isvalid method)
      then (mgr, false)
      else let removed : RoundMap Method = (removeobjectbykey hash mgr.method_map method.name).0 in
        let result : RoundMap Method × Bool = setobject hash removed method.name (some method) in
        (record mgr { method_map = result.0 }, result.1)

  -- `round_method_manager_hasmethod`
  unfoldable pub hasmethod : MethodManager → CString → Bool
  hasmethod mgr name = haskey hash mgr.method_map name

  -- `round_method_manager_getmethod`
  unfoldable pub getmethod : MethodManager → CString → Option Method
  getmethod mgr name = getobjectbykey hash mgr.method_map name

  -- `round_method_manager_removemethod`
  unfoldable pub removemethod : MethodManager → CString → MethodManager × Bool
  removemethod mgr name =
      let result : RoundMap Method × Bool = removeobjectbykey hash mgr.method_map name in
      (record mgr { method_map = result.0 }, result.1)

  -- `round_method_manager_addengine`
  unfoldable pub addengine : MethodManager → ScriptEngine → MethodManager × Bool
  unfolding engine_isvalid
  addengine mgr engine =
      if not (engine_isvalid engine)
      then (mgr, false)
      else let removed : RoundMap ScriptEngine =
          (removeobjectbykey hash mgr.engine_map engine.language).0 in
        let result : RoundMap ScriptEngine × Bool =
          setobject hash removed engine.language (some engine) in
        (record mgr { engine_map = result.0 }, result.1)

  -- `round_method_manager_getengine`
  unfoldable pub getengine : MethodManager → CString → Option ScriptEngine
  getengine mgr lang = getobjectbykey hash mgr.engine_map lang

  -- `round_method_manager_removeengine`
  unfoldable pub removeengine : MethodManager → CString → MethodManager × Bool
  removeengine mgr lang =
      let result : RoundMap ScriptEngine × Bool = removeobjectbykey hash mgr.engine_map lang in
      (record mgr { engine_map = result.0 }, result.1)

  -- `round_method_manager_execmethod`, with NULL for the name or the parameters refused. `none` is
  -- the read through the NULL that `getengine` returns: the code tests the method a second time
  -- there, and not the engine. The function may change the node.
  unfoldable pub execmethod :
      ExecNode → CString → CString → RoundError → Option (ExecNode × Outcome)
  unfolding getmethod getengine
  execmethod node none params err = some (node, (false, none, err))
  execmethod node (some name) none err = some (node, (false, none, err))
  execmethod node (some name) (some params) err = elim (getmethod node.mgr (some name)) [
    | none ↦ some (node, (false, none, setjsonrpcerrorcode err method_not_found))
    | some method ↦ elim (getengine node.mgr method.lang) [
      | none ↦ none
      | some engine ↦ elim engine.exec_func [
        | none ↦ some (node, (false, none, setjsonrpcerrorcode err script_engine_not_found))
        | some exec_func ↦ some (executed_in node (exec_func (data_of node) method params err))
      ]
    ]
  ]
