-- ===== src/SystemMethod/Calls.antt =====
-- The calls of system methods (src/round/method), and those that lack a member.
use round.Common.{ℕ, ◌≡◌, ◌⊎◌, none, some, Option, false, List, [], ◌∷◌}
use round.Common.Int.{ℤ}
use round.Text.{CString}
use round.RpcError.{RoundError}
use round.JsonRpc.{JsonLibrary, map_getstring, is_cached}
use round.SystemMethod.{
  NodeState, Done, name_key, lang_key, code_key, key_key, value_key, system_setmethod,
  system_removemethod, system_setregistry, system_getregistry, system_removeregistry,
}

-- A call of a system method with its parameters.
pub data SystemCall (J : Type 0) : Type 0 where
  set_method : J → SystemCall J
  remove_method : J → SystemCall J
  set_registry : J → SystemCall J
  get_registry : J → SystemCall J
  remove_registry : J → SystemCall J

module _ {J : Type 0} (json : JsonLibrary J) where
  abbrev Misses : J → List ℕ → Type 0
  Misses params member = map_getstring json params member ≡ none

  -- A call that lacks a member that its method needs, or whose parameters are no map.
  abbrev pub Lacks : SystemCall J → Type 0
  Lacks (set_method params) =
      Misses params name_key ⊎ Misses params lang_key ⊎ Misses params code_key
  Lacks (remove_method params) = Misses params name_key
  Lacks (set_registry params) = Misses params key_key ⊎ Misses params value_key
  Lacks (get_registry params) = Misses params key_key
  Lacks (remove_registry params) = Misses params key_key

  -- A call whose method reads no cached text after another read has freed it: the members that are
  -- read before others are missing, null or texts.
  abbrev pub IsKept : SystemCall J → Type 0
  IsKept (set_method params) =
      (is_cached json params name_key ≡ false)
      × (is_cached json params lang_key ≡ false)
      × (is_cached json params code_key ≡ false)
  IsKept (remove_method params) = Unit
  IsKept (set_registry params) = is_cached json params key_key ≡ false
  IsKept (get_registry params) = Unit
  IsKept (remove_registry params) = Unit

module _ {J : Type 0} (json : JsonLibrary J) (hash : CString → ℕ) (decode : List ℕ → ℕ → List ℕ)
    {R : Type 0} where
  unfoldable pub system_call : ℤ → NodeState R → SystemCall J → RoundError → Option (Done R)
  unfolding system_setmethod system_removemethod system_setregistry system_getregistry
      system_removeregistry
  system_call now node (set_method params) err = system_setmethod json hash decode node params err
  system_call now node (remove_method params) err = system_removemethod json hash node params err
  system_call now node (set_registry params) err = system_setregistry json hash now node params err
  system_call now node (get_registry params) err = system_getregistry json hash node params err
  system_call now node (remove_registry params) err =
      system_removeregistry json hash node params err

  -- The calls of a run, each with its time; each has an error of its own.
  unfoldable pub system_calls :
      NodeState R → List (ℤ × SystemCall J) → RoundError → Option (NodeState R)
  unfolding system_call
  system_calls node [] err = some node
  system_calls node ((now, c) ∷ calls) err = elim (system_call now node c err) [
    | none ↦ none
    | some done ↦ system_calls done.0 calls err
  ]
