-- ===== src/LocalNode.antt =====
-- The methods of a local node: the functions of src/round/local_node.c on its method manager. The
-- node is not NULL, and a method that is set is not one that the node holds already.
pub mod Final
pub mod Request
pub mod Message
use round.Common.{ℕ, Bool, true, false, Option, none, some, List, [], ◌∷◌, if◌then◌else◌}
use round.Text.{CString}
use round.Method.{Method, MethodManager, ScriptEngine, addmethod, getmethod, addengine, getengine}
use round.Method

module _ (hash : CString → ℕ) where
  -- `round_local_node_setmethod`
  unfoldable pub setmethod : MethodManager → Method → MethodManager × Bool
  setmethod mgr method = elim (getmethod hash mgr method.name) [
    | none ↦ addmethod hash mgr method
    | some ex_method ↦
        if ex_method.is_final
        then (mgr, false)
        else addmethod hash (Method.removemethod hash mgr method.name).0 method
  ]

  -- `round_local_node_removemethod`
  unfoldable pub removemethod : MethodManager → CString → MethodManager × Bool
  removemethod mgr name = elim (getmethod hash mgr name) [
    | none ↦ (mgr, false)
    | some method ↦ if method.is_final then (mgr, false) else Method.removemethod hash mgr name
  ]

  -- `round_local_node_isfinalmethod`
  unfoldable pub isfinalmethod : MethodManager → CString → Bool
  isfinalmethod mgr name = elim (getmethod hash mgr name) [
    | none ↦ false
    | some method ↦ method.is_final
  ]

-- A call that changes the methods of a node.
pub data MethodCall : Type 0 where
  set : Method → MethodCall
  remove : CString → MethodCall

module _ (hash : CString → ℕ) where
  unfoldable pub call : MethodManager → MethodCall → MethodManager
  unfolding setmethod removemethod
  call mgr (set method) = (setmethod hash mgr method).0
  call mgr (remove name) = (removemethod hash mgr name).0

  unfoldable pub call_all : MethodManager → List MethodCall → MethodManager
  unfolding call
  call_all mgr [] = mgr
  call_all mgr (c ∷ calls) = call_all (call mgr c) calls
