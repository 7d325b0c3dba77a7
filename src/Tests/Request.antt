-- ===== src/Tests/Request.antt =====
-- Tests of the requests (local_node.c), the registry (registry.c), json_rpc.c and util/string.c.
use mathlib.Core.List.{map}
use round.Common.{
  ℕ, ◌+◌, ◌≡◌, refl, sym, ◌∙◌, ◌%◌, true, false, Option, none, some, List, [], ◌∷◌, ◌++◌, arith,
  if◌then◌else◌, ◌==◌, length, length-replicate, replicate,
}
use round.Common.Int.{pos}
use round.Text.{CString, strlen}
use round.Text.Buffer.{RoundString, string_new, naddvalue}
use round.Text.Buffer.Contents.{IsString, text, naddvalue-IsString}
use round.Map.{Bucket, new_map, getobjectbykey, getmapobjectbykey, bucket}
use round.Map.Invariant.New.{new_map-IsMap, new_map_lem}
use round.Common.{get_or-replicate}
use round.Method.{Method, MethodManager, addmethod, ExecFunc, ExecNode, ScriptEngine, addengine}
use round.LocalNode.{removemethod}
use round.JsonRpc.{
  JsonLibrary, Member, map_text, array_size, settimestamp, settimestamp_same, array_get,
  map_getstring,
}
use round.LocalNode.Request.{request_id}
use round.LocalNode.Request.Batch.{ids_from}
use round.Registry.{RoundRegistry, setregistry, getregistry}
use round.Registry.Node.{IsNodeRegistry, IsUpdated, getregistry-setregistry}

-- A request is a number, 0 an array of the requests 1 and 2. A request has its number as id, the
-- method `m`, and the parameters `x`.
abbrev member : ℕ → List ℕ → Member
member n key =
    if length key == 2
    then Member.text (n ∷ [])
    else if length key == 6
    then Member.text (109 ∷ [])
    else Member.absent

abbrev json : JsonLibrary ℕ
json = record {
  is_object = λ n. if n == 0 then false else true;
  is_array = λ n. n == 0;
  library_array_size = λ n. 2;
  library_array_get = λ n i. some (i + 1);
  array_write = λ n i child. n;
  member_value = member;
  member_integer = λ n key. some (pos 5);
  object_set_integer = λ n key value. n;
}

settimestamp_same_test : (settimestamp json 1 (pos 9)).0 ≡ 1
settimestamp_same_test = settimestamp_same json 1 (pos 9)

-- Keys are hashed by their lengths.
abbrev hash : CString → ℕ
hash = strlen

abbrev empty : MethodManager
empty = record { method_map = new_map 4; engine_map = new_map 4 }

abbrev script_method : Method
script_method = record {
  module_name = none;
  name = some (109 ∷ []);
  lang = some (101 ∷ []);
  code = some (1 ∷ []);
  code_size = 1;
  is_final = false;
  is_static = false;
}

abbrev one_method : MethodManager
one_method = (addmethod hash empty script_method).0

abbrev node : ExecNode
node = record { mgr = one_method; clock = pos 3; others = [] }

abbrev removed : ExecNode
removed = record node { mgr = (removemethod hash one_method (some (109 ∷ []))).0 }

-- An engine of the language "e" that gives the parameters back.
abbrev echo : ExecFunc
echo written method params err = (written, (true, some params, err))

abbrev engine : ScriptEngine
engine = record { language = some (101 ∷ []); exec_func = some echo }

abbrev with_engine : MethodManager
with_engine = (addengine hash empty engine).0

abbrev served : MethodManager
served = (addmethod hash with_engine script_method).0

-- The node keeps its methods.
abbrev IsServed : ExecNode → Type 0
IsServed n = n.mgr ≡ served

ids : ids_from json hash (array_size json 0) 0 0 ≡ some (1 ∷ []) ∷ some (2 ∷ []) ∷ []
unfolding array_size array_get request_id map_text map_getstring
ids = refl

no_registries-IsNodeRegistry : IsNodeRegistry {R = ℕ} hash (new_map 4)
no_registries-IsNodeRegistry = record {
  map = new_map-IsMap hash 4 (omega arith);
  texts = λ k reg e. cc (sym (none_there k) ∙ e);
}
  where
    none_there : (k : List ℕ) → getregistry {R = ℕ} hash (new_map 4) (some k) ≡ none
    none_there k =
        unfold getregistry getobjectbykey getmapobjectbykey bucket in
        rw (new_map_lem {V = RoundRegistry ℕ} 4 (omega arith)) (
          ground (
            arith,
            get_or-replicate {A = Option (Bucket (RoundRegistry ℕ))} 4 (hash (some k) % 4) none,
          ))

getregistry-setregistry_test :
    ((setregistry {R = ℕ} hash (new_map 4) (some (107 ∷ [])) (some (118 ∷ [])) (pos 100) (pos 6)).1
      ≡ true)
    × IsUpdated hash
        (107 ∷ [])
        (118 ∷ [])
        (pos 100)
        (pos 6)
        (new_map 4)
        (setregistry {R = ℕ} hash
          (new_map 4)
          (some (107 ∷ []))
          (some (118 ∷ []))
          (pos 100)
          (pos 6)).0
getregistry-setregistry_test =
    getregistry-setregistry hash (new_map 4) (107 ∷ []) (118 ∷ []) (pos 100) (pos 6)
      no_registries-IsNodeRegistry

-- New memory is full of ones.
abbrev ones : ℕ → List ℕ
ones n = replicate n 1

naddvalue-IsString_example :
    (t : RoundString) × (naddvalue ones string_new (some (97 ∷ 98 ∷ [])) ≡ some t)
    × IsString t
    × (text t ≡ text string_new ++ 97 ∷ 98 ∷ [])
naddvalue-IsString_example =
    naddvalue-IsString ones (λ n. length-replicate n 1) string_new (97 ∷ 98 ∷ [])
      (unfold string_new in (refl, refl))
