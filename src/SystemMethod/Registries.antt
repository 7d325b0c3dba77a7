-- ===== src/SystemMethod/Registries.antt =====
-- The registries that a caller of the system methods sees (method/set_registry.c, get_registry.c
-- and remove_registry.c).
use round.Common.{
  ℕ, ◌≡◌, refl, sym, ap, ◌∙◌, Bool, true, false, inl, inr, Option, none, some, List, arith,
  if◌then◌else◌, Bool-cases,
}
use round.Common.Int.{ℤ}
use round.Text.{CString}
use round.RpcError.{RoundError, setjsonrpcerrorcode, invalid_params, internal_error}
use round.JsonRpc.{JsonLibrary, Member, map_getstring, is_cached}
use round.Map.{RoundMap}
use round.Map.Bucket.{eq_key}
use round.Map.Invariant.Set.{getobjectbykey-removeobjectbykey}
use round.Registry.{RoundRegistry, getstring, getregistry, setregistry, removeregistry}
use round.Registry.Node.{IsNodeRegistry, IsStamped, getregistry-setregistry}
use round.SystemMethod.{
  NodeState, RegistryMap, Done, finish, key_key, value_key, system_setregistry, system_getregistry,
  system_removeregistry,
}

-- What a caller gets: the map, the flag and the error.
abbrev pub Answer : Type 0
Answer = Option (Option (Option RegistryMap) × Bool × RoundError)

abbrev pub answer : {R : Type 0} → Option (Done R) → Answer
answer none = none
answer (some (node, map, done, err)) = some (map, done, err)

-- The answer with a text, and the answer where there is no registry of the key.
abbrev pub answered : List ℕ → CString → ℤ → ℤ → RoundError → Answer
answered key val ts lts err = some (
  some (some (record { reg_key = some key; reg_value = val; reg_ts = ts; reg_lts = lts })),
  true,
  err,
)

abbrev pub refused : RoundError → Answer
refused err = some (none, false, setjsonrpcerrorcode err invalid_params)

show : {R : Type 0} → Option (RoundRegistry R) → List ℕ → RoundError → Answer
show none key err = refused err
show (some reg) key err = elim (getstring reg) [
  | none ↦ some (some none, false, setjsonrpcerrorcode err internal_error)
  | some val ↦ answered key val reg.ts reg.lts err
]

-- A map that holds a text under a member.
pub record HasMember {J : Type 0} (json : JsonLibrary J) (params : J) (member text : List ℕ)
    : Type 0 where
  pub is_map : json.is_object params ≡ true
  pub holds : json.member_value params member ≡ Member.text text

pub finish_state :
    {R : Type 0} (after : NodeState R) (err : RoundError) (b : Bool)
    → (finish after err b).0 ≡ after
finish_state after err true = refl
finish_state after err false = refl

module _ {J : Type 0} (json : JsonLibrary J) (params : J) (member text : List ℕ)
    (h : HasMember json params member text) where
  pub map_getstring-member : map_getstring json params member ≡ some (some text)
  unfolding map_getstring
  map_getstring-member = rw (h.is_map, h.holds) refl

  pub is_cached-member : is_cached json params member ≡ false
  unfolding is_cached
  is_cached-member = ground (arith, h.holds)

module _ (hash : CString → ℕ) {R : Type 0} (regs : RoundMap (RoundRegistry R)) (key : List ℕ)
    (n : IsNodeRegistry hash regs) where
  removed_at :
      (k : List ℕ)
      → getregistry hash (removeregistry hash regs (some key)).0 (some k)
        ≡ (if eq_key key k then none else getregistry hash regs (some k))
  unfolding getregistry removeregistry
  removed_at = (getobjectbykey-removeobjectbykey hash regs key n.map).1

  pub removeregistry-IsNodeRegistry : IsNodeRegistry hash (removeregistry hash regs (some key)).0
  removeregistry-IsNodeRegistry = record {
    map = unfold removeregistry in (getobjectbykey-removeobjectbykey hash regs key n.map).0;
    texts = λ k reg g. elim (Bool-cases (eq_key key k)) [
      | inl q ↦ absurd (cc (sym g ∙ removed_at k ∙ left k q))
      | inr q ↦ n.texts k reg (sym (removed_at k ∙ left k q) ∙ g)
    ];
  }
    where
      left :
          (k : List ℕ) {b : Bool}
          → eq_key key k ≡ b
          → (if eq_key key k then none else getregistry hash regs (some k))
            ≡ (if b then none else getregistry hash regs (some k))
      left k q = ap (λ b. if b then none else getregistry hash regs (some k)) q

module _ {J : Type 0} (json : JsonLibrary J) (hash : CString → ℕ) {R : Type 0} where
  answer-show :
      (node : NodeState R) (params : J) (key : List ℕ) (err : RoundError)
      → HasMember json params key_key key
      → answer (system_getregistry json hash node params err)
        ≡ show (getregistry hash node.regs (some key)) key err
  unfolding system_getregistry show
  answer-show node params key err h =
      ground (arith, h.is_map, map_getstring-member json params key_key key h)

  show-stamped :
      (reg : RoundRegistry R) (val : List ℕ) (now clock : ℤ) (key : List ℕ) (err : RoundError)
      → IsStamped hash val now clock reg
      → show (some reg) key err ≡ answered key (some val) now clock err
  unfolding show getstring
  show-stamped reg val now clock key err s = ground (arith, s.0, s.1, s.2)

  show_if :
      (b : Bool) (x y : Option (RoundRegistry R)) (key : List ℕ) (err : RoundError)
      → show (if b then x else y) key err ≡ (if b then show x key err else show y key err)
  show_if true x y key err = refl
  show_if false x y key err = refl

  module _ (node : NodeState R) (params query : J) (key other : List ℕ) (err : RoundError)
      (n : IsNodeRegistry hash node.regs) (asks : HasMember json query key_key other) where
    -- On a node whose registry is well formed and holds texts, set_registry with a key and a value
    -- succeeds and keeps the registry so; get_registry with the same key then answers with the
    -- key, the value, the time and the clock of the node, and with another key as before.
    pub getregistry-after_set :
        (val : List ℕ) (now : ℤ)
        → HasMember json params key_key key
        → HasMember json params value_key val
        → (after : NodeState R) × (system_setregistry json hash now node params err
            ≡ some (after, none, true, err))
          × IsNodeRegistry hash after.regs
          × (answer (system_getregistry json hash after query err) ≡ (
              if eq_key key other
              then answered other (some val) now node.clock err
              else answer (system_getregistry json hash node query err)))
    getregistry-after_set val now hk hv =
        let (ok, (kept, (reg, stamped, answers))) =
          getregistry-setregistry hash node.regs key val now node.clock n in
        let set : RoundMap (RoundRegistry R) × Bool =
          setregistry hash node.regs (some key) (some val) now node.clock in
        let gk = map_getstring-member json params key_key key hk in
        let gv = map_getstring-member json params value_key val hv in
        let ck = is_cached-member json params key_key key hk in
        let done : system_setregistry json hash now node params err
            ≡ some (record node { regs = set.0 }, none, true, err) =
          unfold system_setregistry in ground (arith, hk.is_map, gk, gv, ck, ok) in
        (
          record node { regs = set.0 },
          done,
          kept,
          answer-show (record node { regs = set.0 }) query other err asks
              ∙ ap (λ r. show r other err) (answers other)
              ∙ show_if (eq_key key other) _ _ other err
              ∙ rw
                  (
                    show-stamped reg val now node.clock other err stamped,
                    answer-show node query other err asks,
                  )
                  refl,
        )

    -- After remove_registry of a key, get_registry of it is refused, and any other key answers as
    -- before.
    pub getregistry-after_remove :
        HasMember json params key_key key
        → (done : Done R) × (system_removeregistry json hash node params err ≡ some done)
          × IsNodeRegistry hash done.0.regs
          × (answer (system_getregistry json hash done.0 query err) ≡ (
              if eq_key key other
              then refused err
              else answer (system_getregistry json hash node query err)))
    getregistry-after_remove hk =
        let regs' : RoundMap (RoundRegistry R) = (removeregistry hash node.regs (some key)).0 in
        let gk = map_getstring-member json params key_key key hk in
        let b : Bool = (removeregistry hash node.regs (some key)).1 in
        let done : system_removeregistry json hash node params err
            ≡ some (finish (record node { regs = regs' }) err b) =
          unfold system_removeregistry in ground (arith, hk.is_map, gk) in
        let state : (finish (record node { regs = regs' }) err b).0 ≡ record node { regs = regs' } =
          finish_state (record node { regs = regs' }) err b in
        (
          finish (record node { regs = regs' }) err b,
          done,
          rw state (removeregistry-IsNodeRegistry hash node.regs key n),
          rw state (
              answer-show (record node { regs = regs' }) query other err asks
              ∙ ap (λ r. show r other err) (removed_at hash node.regs key n other)
              ∙ show_if (eq_key key other) _ _ other err
              ∙ rw (answer-show node query other err asks) (unfold show in refl)),
        )
