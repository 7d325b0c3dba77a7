-- ===== src/Tests/System.antt =====
-- Tests of the system methods (src/round/method), of the answers to messages (local_node.c) and of
-- the messages (message.c).
use round.Common.{
  ℕ, ◌≡◌, refl, sym, ◌∙◌, true, false, Option, none, some, List, [], ◌∷◌, arith, if◌then◌else◌,
  ◌==◌, get_or, get_or-replicate,
}
use round.Common.Int.{ℤ, pos}
use round.Text.{CString, strlen, streq, strcmp_bytes}
use round.Map.{new_map, getobjectbykey, getmapobjectbykey, bucket, getkeycode, Bucket}
use round.Map.Bucket.{eq_key}
use round.Map.Invariant.New.{new_map-IsMap, new_map_lem}
use round.RpcError.{new_error}
use round.Method.{Method, isvalid, MethodManager, addmethod, getmethod}
use round.Method.Manager.{IsManager, getmethod-addmethod}
use round.LocalNode.{isfinalmethod}
use round.JsonRpc.{
  JsonLibrary, Member, absent, null_value, text, printed, map_getstring, map_text, is_cached,
}
use round.Registry.{RoundRegistry, getregistry}
use round.Registry.Node.{IsNodeRegistry}
use round.SystemMethod.{
  NodeState, name_key, lang_key, code_key, encode_key, key_key, value_key, decoded_code,
  decoded_size, made_method, system_setmethod, system_setregistry, system_getregistry,
}
use round.SystemMethod.Registries.{answer, answered, HasMember, getregistry-after_set}
use round.SystemMethod.Methods.{getmethod-after_set}
use round.SystemMethod.Calls.{SystemCall, set_method, remove_method, set_registry, system_calls}
use round.SystemMethod.Sound.{IsSound, system_calls-IsSound}

-- A text of one letter under each key but "enc", and nothing in the map 0.
abbrev member : ℕ → List ℕ → Member
member n key =
    if n == 0 then absent else if get_or key 0 0 == b'e' then absent else text (get_or key 0 0 ∷ [])

abbrev json : JsonLibrary ℕ
json = record {
  is_object = λ n. true;
  is_array = λ n. false;
  library_array_size = λ n. 0;
  library_array_get = λ n i. none;
  array_write = λ n i child. n;
  member_value = member;
  member_integer = λ n key. none;
  object_set_integer = λ n key value. n;
}

-- Keys are hashed by their lengths.
abbrev pub hash : CString → ℕ
hash = strlen

abbrev pub empty : MethodManager
empty = record { method_map = new_map 4; engine_map = new_map 4 }

pub empty-IsManager : IsManager hash empty
empty-IsManager = record {
  methods = new_map-IsMap hash 4 (omega arith);
  engines = new_map-IsMap hash 4 (omega arith);
}

pub getmethod-none : (k : List ℕ) → getmethod hash empty (some k) ≡ none
unfolding getmethod getobjectbykey getmapobjectbykey bucket
getmethod-none k = rw (new_map_lem {V = Method} 4 (omega arith)) (
    ground (
      arith,
      get_or-replicate {A = Option (Bucket Method)} 4
          (getkeycode hash (new_map {V = Method} 4) (some k)) none,
    ))

no_registry : (k : List ℕ) → getregistry {R = ℕ} hash (new_map 4) (some k) ≡ none
unfolding getregistry getobjectbykey getmapobjectbykey bucket
no_registry k = rw (new_map_lem {V = RoundRegistry ℕ} 4 (omega arith)) (
    ground (
      arith,
      get_or-replicate {A = Option (Bucket (RoundRegistry ℕ))} 4
          (getkeycode hash (new_map {V = RoundRegistry ℕ} 4) (some k)) none,
    ))

pub no_registry-IsNodeRegistry : IsNodeRegistry {R = ℕ} hash (new_map 4)
no_registry-IsNodeRegistry = record {
  map = new_map-IsMap hash 4 (omega arith);
  texts = λ k reg e. absurd (cc (sym (no_registry k) ∙ e));
}

abbrev node : NodeState ℕ
node = record { methods = empty; regs = new_map 4; clock = pos 7 }

has_member :
    (key : List ℕ) → (get_or key 0 0 == b'e') ≡ false → HasMember json 1 key (get_or key 0 0 ∷ [])
has_member key h = record { is_map = refl; holds = ground (arith, h) }

abbrev k : List ℕ
k = b'k' ∷ []

getregistry-after_set_example :
    (after : NodeState ℕ) × (system_setregistry json hash (pos 5) node 1 new_error
      ≡ some (after, none, true, new_error))
    × IsNodeRegistry hash after.regs
    × (answer (system_getregistry json hash after 1 new_error) ≡ (
        if eq_key k k
        then answered k (some (b'v' ∷ [])) (pos 5) (pos 7) new_error
        else answer (system_getregistry json hash node 1 new_error)))
getregistry-after_set_example =
    getregistry-after_set json hash node 1 1 k k new_error no_registry-IsNodeRegistry
      (has_member key_key refl) (b'v' ∷ []) (pos 5) (has_member key_key refl)
      (has_member value_key refl)

-- The decoder takes so many bytes of the text.
abbrev decode : List ℕ → ℕ → List ℕ
decode bytes size = bytes

abbrev n : List ℕ
n = b'n' ∷ []

getmethod-after_set_test :
    (after : NodeState ℕ) × (system_setmethod json hash decode node 1 new_error
      ≡ some (after, none, true, new_error))
    × IsManager hash after.methods
    × ((j : List ℕ)
        → getmethod hash after.methods (some j) ≡ (
            if eq_key n j
            then some (made_method (some n) (some (b'l' ∷ [])) (some (b'c' ∷ [])))
            else getmethod hash empty (some j)))
unfolding decoded_code map_text map_getstring streq isfinalmethod
getmethod-after_set_test =
    getmethod-after_set json hash decode node 1 new_error n (b'l' ∷ []) (b'c' ∷ []) (b'c' ∷ [])
      empty-IsManager (has_member name_key refl) (has_member lang_key refl)
      (has_member code_key refl) plain (λ e. cc) (λ e. cc) not_final
  where
    plain :
        decoded_code decode (map_text json 1 encode_key) (some (b'c' ∷ []))
        ≡ some (some (b'c' ∷ []))
    plain = refl

    not_final : isfinalmethod hash empty (some n) ≡ false
    not_final = ground (arith, getmethod-none n)

-- A final method "n"
abbrev final_method : Method
final_method = record {
  module_name = none;
  name = some n;
  lang = some (b'e' ∷ []);
  code = none;
  code_size = 0;
  is_final = true;
  is_static = true;
}

final_valid : isvalid final_method ≡ true
unfolding isvalid strlen
final_valid = refl

guarded : NodeState ℕ
guarded = record {
  methods = (addmethod hash empty final_method).0;
  regs = new_map 4;
  clock = pos 7;
}

guarded-IsSound : IsSound hash n final_method guarded
unfolding guarded streq strcmp_bytes
guarded-IsSound =
    let (m, _, g) =
      getmethod-addmethod hash empty final_method n empty-IsManager final_valid refl in
    record { methods = (m, g n ∙ refl); regs = no_registry-IsNodeRegistry }

abbrev three_calls : List (ℤ × SystemCall ℕ)
three_calls = (pos 5, remove_method 1) ∷ (pos 6, set_method 1) ∷ (pos 6, set_registry 1) ∷ []

system_calls-IsSound_example :
    (after : NodeState ℕ) × (system_calls json hash decode guarded three_calls new_error
      ≡ some after)
    × IsSound hash n final_method after
unfolding is_cached
system_calls-IsSound_example =
    system_calls-IsSound json hash decode n final_method refl guarded three_calls new_error
      (tt, ((refl, refl, refl), (refl, tt))) guarded-IsSound

-- Null for every member, and a number that is printed as "5".
abbrev nulls : JsonLibrary ℕ
nulls = record json { member_value = λ n key. null_value }

abbrev fives : JsonLibrary ℕ
fives = record json { member_value = λ n key. printed (b'5' ∷ []) }

-- A null value is not a missing one, and a number for a name is a read of freed memory.
null_member : map_getstring nulls 1 value_key ≡ some none
unfolding map_getstring
null_member = refl

number_name : system_setmethod fives hash decode node 1 new_error ≡ none
unfolding system_setmethod map_getstring is_cached
number_name = refl

-- Eight letters, the last two of them "=", stand for four bytes.
padded : decoded_size (1 ∷ 2 ∷ 3 ∷ 4 ∷ 5 ∷ 6 ∷ b'=' ∷ b'=' ∷ []) ≡ 4
unfolding decoded_size
padded = refl
