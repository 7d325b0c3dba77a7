-- ===== src/Route.antt =====
-- The routes of src/round/route.c, route_object.c and route_manager.c, with the macros of
-- route_internal.h. A route is known by its address; the manager is not NULL.
pub mod Names
use round.Common.{ℕ, Bool, Option, none, some, List, ◌==◌, if◌then◌else◌}
use round.Text.{CString}
use round.Map.{RoundMap, setobject, removeobjectbykey, getobjectbykey}

-- `RoundRouteObjectType`
pub data RouteObjectType : Type 0 where
  object_none : RouteObjectType
  trigger_object : RouteObjectType
  method_object : RouteObjectType

-- `RoundRouteObject`
pub record RouteObject : Type 0 where
  pub object_name : CString
  pub object_type : RouteObjectType
  pub target : ℕ

-- `round_route_object_init`
unfoldable pub route_object_init : RouteObject
route_object_init = record { object_name = none; object_type = object_none; target = 0 }

-- `RoundRoute`
pub record Route : Type 0 where
  pub at : ℕ
  pub name : CString
  pub src_obj : RouteObject
  pub dest_obj : RouteObject

-- `round_route_new`, at the address of the new memory
unfoldable pub route_new : ℕ → Route
unfolding route_object_init
route_new address = record {
  at = address;
  name = none;
  src_obj = route_object_init;
  dest_obj = route_object_init;
}

module _ (hash : CString → ℕ) where
  -- `round_route_manager_getbyname`
  unfoldable pub getbyname : RoundMap Route → CString → Option Route
  getbyname mgr name = getobjectbykey hash mgr name

  -- `round_route_manager_removeroute`
  unfoldable pub removeroute : RoundMap Route → Route → RoundMap Route × Bool
  removeroute mgr route = removeobjectbykey hash mgr route.name

  -- `round_route_manager_removeroutebyname`
  unfoldable pub removeroutebyname : RoundMap Route → CString → RoundMap Route × Bool
  removeroutebyname mgr name = removeobjectbykey hash mgr name

  -- `round_route_manager_setroute`, with the address of the route that it deletes; `none` is a read
  -- of freed memory: where that route is the one that is set, its name is read after the deletion.
  unfoldable pub setroute : RoundMap Route → Route → Option (RoundMap Route × Bool × Option ℕ)
  unfolding getbyname removeroute
  setroute mgr route = elim (getbyname mgr route.name) [
    | none ↦
        let set : RoundMap Route × Bool = setobject hash mgr route.name (some route) in
        some (set.0, set.1, none)
    | some old_route ↦
        let removed : RoundMap Route × Bool = removeroute mgr old_route in
        let set : RoundMap Route × Bool = setobject hash removed.0 route.name (some route) in
        if old_route.at == route.at then none else some (set.0, set.1, some old_route.at)
  ]
