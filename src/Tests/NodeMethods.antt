-- ===== src/Tests/NodeMethods.antt =====
-- Tests of the calls of system methods (node_methods.c), with a small library of JSON.
use round.Common.{
  ℕ, ◌≡◌, refl, true, false, Option, none, some, List, [], ◌∷◌, arith, if◌then◌else◌,
}
use round.Common.Int.{pos}
use round.Text.{strlen, streq}
use round.Map.{new_map}
use round.Map.Bucket.{eq_key, eq_key_refl}
use round.RpcError.{new_error}
use round.Method.{getmethod}
use round.Method.Manager.{IsManager}
use round.JsonRpc.{JsonLibrary, Member, absent, text}
use round.LocalNode.{isfinalmethod}
use round.SystemMethod.{NodeState, made_method}
use round.NodeMethods.{JsonMaker, Post, encode_none, node_setmethod, node_getregistry}
use round.NodeMethods.Requests.{IsMaker, node_getregistry-key}
use round.NodeMethods.Served.{serve, node_setmethod-serve}
use round.Tests.System.{empty, empty-IsManager, getmethod-none}

-- An object is a map with its texts and the last object that was set in it.
data Object : Type 0 where
  texts : (List ℕ → Member) → Object
  with_object : (List ℕ → Member) → List ℕ → Object → Object

abbrev text_of : Object → List ℕ → Member
text_of (texts t) = t
text_of (with_object t k o) = t

abbrev put : (List ℕ → Member) → List ℕ → List ℕ → List ℕ → Member
put t k v j = if streq (some k) (some j) then text v else t j

abbrev set_text : Object → List ℕ → List ℕ → Object
set_text (texts t) k v = texts (put t k v)
set_text (with_object t j o) k v = with_object (put t k v) j o

abbrev object_at : Object → List ℕ → Option Object
object_at (texts t) k = none
object_at (with_object t j o) k = if streq (some j) (some k) then some o else none

abbrev json : JsonLibrary Object
json = record {
  is_object = λ o. true;
  is_array = λ o. false;
  library_array_size = λ o. 0;
  library_array_get = λ o i. none;
  array_write = λ o i child. o;
  member_value = text_of;
  member_integer = λ o key. none;
  object_set_integer = λ o key value. o;
}

abbrev maker : JsonMaker Object
maker = record {
  map_new = texts (λ k. absent);
  object_set_string = set_text;
  object_set = λ o k v. with_object (text_of o) k v;
  member_object = object_at;
}

text_of-set_text :
    (o : Object) (k v j : List ℕ) → text_of (set_text o k v) j ≡ put (text_of o) k v j
text_of-set_text (texts t) k v j = refl
text_of-set_text (with_object t i o) k v j = refl

maker-IsMaker : IsMaker json maker
maker-IsMaker = record {
  new_is_map = refl;
  new_empty = λ k. refl;
  text_is_map = λ o k v. refl;
  text_set = λ o k v j m. text_of-set_text o k v j;
  object_is_map = λ o k v. refl;
  object_set = λ o k v m. rw (eq_key_refl k) refl;
  object_others = λ o k j v d. refl;
}

abbrev node : NodeState ℕ
node = record { methods = empty; regs = new_map 4; clock = pos 7 }

abbrev decode : List ℕ → ℕ → List ℕ
decode bytes size = bytes

abbrev k : List ℕ
k = b'k' ∷ []

abbrev v : List ℕ
v = b'v' ∷ []

-- The node that is asked at the time 5
abbrev other : Option (Post (NodeState ℕ) Object)
other = some (serve json maker maker-IsMaker strlen decode (pos 5))

-- The value of the key is not what the caller gets.
node_getregistry-key_example :
    (node_getregistry maker other json node (some k) new_error).2
    ≡ (if (node_getregistry maker other json node (some k) new_error).1 then some k else none)
node_getregistry-key_example = node_getregistry-key json maker maker-IsMaker other node k new_error

node_setmethod-serve_example :
    ((node_setmethod maker other node (some (b'l' ∷ [])) (some k) (some v) encode_none new_error).1
      ≡ true)
    × IsManager strlen
        (node_setmethod maker other node
          (some (b'l' ∷ []))
          (some k)
          (some v)
          encode_none
          new_error).0.methods
    × ((j : List ℕ)
        → getmethod strlen
            (node_setmethod maker other node
              (some (b'l' ∷ []))
              (some k)
              (some v)
              encode_none
              new_error).0.methods
            (some j)
          ≡ (if eq_key k j
              then some (made_method (some k) (some (b'l' ∷ [])) (some v))
              else getmethod strlen empty (some j)))
node_setmethod-serve_example =
    node_setmethod-serve json maker maker-IsMaker strlen decode (pos 5) node (b'l' ∷ []) k v
      new_error empty-IsManager (λ e. cc) (λ e. cc) not_final
  where
    not_final : isfinalmethod strlen empty (some k) ≡ false
    not_final = unfold isfinalmethod in ground (arith, getmethod-none k)
