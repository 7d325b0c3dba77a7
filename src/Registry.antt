-- ===== src/Registry.antt =====
-- The registry of a node: src/round/registry.c with the macros of registry.h, and the functions of
-- src/round/local_node.c on it. A map holds the values of the registries, so a write through the
-- pointer that the map gives is a write into the map. Real numbers are a parameter. The node is not
-- NULL, and allocation succeeds.
pub mod Write
pub mod Node
use round.Common.{
  ℕ, ◌%◌, Bool, true, false, not, Option, none, some, List, [], ◌∷◌, if◌then◌else◌, set,
}
use round.Common.Int.{ℤ, pos}
use round.Text.{CString}
use round.Map.{
  MapObject, Bucket, RoundMap, iskey, bucket, getkeycode, setobject, getobjectbykey,
  removeobjectbykey,
}

-- `RoundRegistryType` with the value of the type; a string is given by its contents.
pub data RegistryValue (R : Type 0) : Type 0 where
  unknown : RegistryValue R
  string : CString → RegistryValue R
  integer : ℤ → RegistryValue R
  real : R → RegistryValue R

-- `RoundRegistry`
pub record RoundRegistry (R : Type 0) : Type 0 where
  pub key : CString
  pub value : RegistryValue R
  pub ts : ℤ
  pub lts : ℤ

-- `round_string_setvalue` on the string of a registry; NULL is refused.
abbrev pub string_set : CString → CString → CString
string_set old none = old
string_set old (some text) = some text

module _ {R : Type 0} where
  -- `round_registry_init`
  unfoldable pub registry_new : RoundRegistry R
  registry_new = record { key = none; value = unknown; ts = pos 0; lts = pos 0 }

  -- `round_registry_clear`
  unfoldable pub registry_clear : RoundRegistry R → RoundRegistry R
  registry_clear reg = record reg { key = none; value = unknown }

  -- `round_registry_setstring`
  unfoldable pub setstring : RoundRegistry R → CString → RoundRegistry R × Bool
  setstring reg val = elim reg.value [
    | unknown ↦ (record reg { value = string (string_set none val) }, true)
    | string old ↦ (record reg { value = string (string_set old val) }, true)
    | integer _ ↦ (reg, false)
    | real _ ↦ (reg, false)
  ]

  -- `round_registry_getstring`; `none` where it returns false.
  unfoldable pub getstring : RoundRegistry R → Option CString
  getstring reg = elim reg.value [
    | unknown ↦ none
    | string val ↦ some val
    | integer _ ↦ none
    | real _ ↦ none
  ]

  -- `round_registry_setinteger`
  unfoldable pub setinteger : RoundRegistry R → ℤ → RoundRegistry R × Bool
  setinteger reg val = elim reg.value [
    | unknown ↦ (record reg { value = integer val }, true)
    | string _ ↦ (reg, false)
    | integer _ ↦ (record reg { value = integer val }, true)
    | real _ ↦ (reg, false)
  ]

  -- `round_registry_getinteger`
  unfoldable pub getinteger : RoundRegistry R → Option ℤ
  getinteger reg = elim reg.value [
    | unknown ↦ none
    | string _ ↦ none
    | integer val ↦ some val
    | real _ ↦ none
  ]

  -- `round_registry_setreal`
  unfoldable pub setreal : RoundRegistry R → R → RoundRegistry R × Bool
  setreal reg val = elim reg.value [
    | unknown ↦ (record reg { value = real val }, true)
    | string _ ↦ (reg, false)
    | integer _ ↦ (reg, false)
    | real _ ↦ (record reg { value = real val }, true)
  ]

  -- `round_registry_getreal`
  unfoldable pub getreal : RoundRegistry R → Option R
  getreal reg = elim reg.value [
    | unknown ↦ none
    | string _ ↦ none
    | integer _ ↦ none
    | real val ↦ some val
  ]

module _ {V : Type 0} where
  -- A write through the pointer to the object that `round_map_getobjectbykey` finds.
  unfoldable pub write_in : Bucket V → CString → (V → V) → Bucket V
  unfolding iskey
  write_in [] key f = []
  write_in (o ∷ objs) key f =
      if iskey o key then record o { obj = f o.obj } ∷ objs else o ∷ write_in objs key f

  unfoldable pub write : (CString → ℕ) → RoundMap V → CString → (V → V) → RoundMap V
  unfolding write_in
  write hash map key f = elim (bucket hash map key) [
    | none ↦ map
    | some objs ↦ record map {
      table = set map.table (getkeycode hash map key) (some (write_in objs key f));
    }
  ]

module _ {R : Type 0} (hash : CString → ℕ) where
  -- The writes of `round_local_node_setregistry` to a registry
  unfoldable pub stamp : CString → ℤ → ℤ → RoundRegistry R → RoundRegistry R
  unfolding setstring
  stamp val now clock reg = record (setstring reg val).0 { ts = now; lts = clock }

  -- `round_local_node_setregistry`, with the time and the clock of the node
  unfoldable pub setregistry :
      RoundMap (RoundRegistry R) → CString → CString → ℤ → ℤ → RoundMap (RoundRegistry R) × Bool
  unfolding write stamp registry_new
  setregistry regs key val now clock = elim (getobjectbykey hash regs key) [
    | some _ ↦ (write hash regs key (stamp val now clock), true)
    | none ↦
        let reg : RoundRegistry R = record registry_new { key = string_set none key } in
        let added : RoundMap (RoundRegistry R) × Bool = setobject hash regs reg.key (some reg) in
        if not added.1
        then (added.0, false)
        else (write hash added.0 key (stamp val now clock), true)
  ]

  -- `round_local_node_getregistry`
  unfoldable pub getregistry : RoundMap (RoundRegistry R) → CString → Option (RoundRegistry R)
  getregistry regs key = getobjectbykey hash regs key

  -- `round_local_node_removeregistry`
  unfoldable pub removeregistry :
      RoundMap (RoundRegistry R) → CString → RoundMap (RoundRegistry R) × Bool
  removeregistry regs key = removeobjectbykey hash regs key
