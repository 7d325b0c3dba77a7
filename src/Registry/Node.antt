-- ===== src/Registry/Node.antt =====
-- The registry of a local node (local_node.c) as a partial function from keys to registries.
pub mod Kept
use round.Common.{
  ℕ, ◌≡◌, refl, sym, subst, ap, ◌∙◌, ◌⊎◌, Bool, true, false, inl, inr, Option, none, some, List, [],
  ◌∷◌, if◌then◌else◌, arith, Bool-cases, Option-cases,
}
use round.Common.Int.{ℤ}
use round.Text.{CString, streq}
use round.Text.Order.{streq_iff}
use round.Map.{RoundMap, Bucket, find, iskey, bucket, getmapobjectbykey, setobject, getobjectbykey}
use round.Map.Bucket.{eq_key, eq_key_refl}
use round.Map.Invariant.{IsMap}
use round.Map.Invariant.Set.{getobjectbykey-setobject}
use round.Registry.{
  RegistryValue, unknown, string, integer, real, RoundRegistry, setstring, registry_new, write,
  stamp, setregistry, getregistry,
}
use round.Registry.Write.{write-IsMap, getobjectbykey-write}

abbrev pub is_text : {R : Type 0} → RegistryValue R → Bool
is_text unknown = true
is_text (string _) = true
is_text (integer _) = false
is_text (real _) = false

pub text-cases :
    {R : Type 0} (v : RegistryValue R)
    → is_text v ≡ true
    → (v ≡ unknown) ⊎ ((s : CString) × (v ≡ string s))
text-cases unknown h = inl refl
text-cases (string s) h = inr (s, refl)
text-cases (integer _) h = cc
text-cases (real _) h = cc

pub chosen : {A : Type 0} (b : Bool) (x y z : A) → b ≡ false → x ≡ (if b then y else z) → x ≡ z
chosen b x y z e q = q ∙ ap (λ c. if c then y else z) e

pub taken : {A : Type 0} (b : Bool) (x y z : A) → b ≡ true → x ≡ (if b then y else z) → x ≡ y
taken b x y z e q = q ∙ ap (λ c. if c then y else z) e

collapse :
    {A : Type 0} (b : Bool) (x y z w : A)
    → x ≡ (if b then z else w)
    → (if b then y else x) ≡ (if b then y else w)
collapse true x y z w e = refl
collapse false x y z w e = e

abbrev pub holds_text : {R : Type 0} → Option (RoundRegistry R) → Bool
holds_text none = true
holds_text (some reg) = is_text reg.value

module _ {R : Type 0} (hash : CString → ℕ) where
  -- The map is well formed, and each registry in it is a string, or not set.
  pub record IsNodeRegistry (regs : RoundMap (RoundRegistry R)) : Type 0 where
    pub map : IsMap hash regs
    pub texts :
        (k : List ℕ) (reg : RoundRegistry R)
        → getregistry hash regs (some k) ≡ some reg
        → is_text reg.value ≡ true

  -- What a registry holds after the writes.
  abbrev pub IsStamped : List ℕ → ℤ → ℤ → RoundRegistry R → Type 0
  IsStamped v now clock reg = (reg.value ≡ string (some v)) × (reg.ts ≡ now) × (reg.lts ≡ clock)

  stamp-IsStamped :
      (v : List ℕ) (now clock : ℤ) (reg : RoundRegistry R)
      → is_text reg.value ≡ true
      → IsStamped v now clock (stamp hash (some v) now clock reg)
  unfolding stamp setstring
  stamp-IsStamped v now clock reg t = elim (text-cases reg.value t) [
    | inl e ↦ (ground (arith, e), ground (arith, e), ground (arith, e))
    | inr (s, e) ↦ (ground (arith, e), ground (arith, e), ground (arith, e))
  ]

  module _ (regs : RoundMap (RoundRegistry R)) (j v : List ℕ) (now clock : ℤ) where
    setregistry_present :
        (reg : RoundRegistry R)
        → getobjectbykey hash regs (some j) ≡ some reg
        → setregistry hash regs (some j) (some v) now clock
          ≡ (write hash regs (some j) (stamp hash (some v) now clock), true)
    unfolding setregistry
    setregistry_present reg e = ground (arith, e)

    abbrev pub fresh : RoundRegistry R
    fresh = record registry_new { key = some j }

    setregistry_absent :
        getobjectbykey hash regs (some j) ≡ none
        → (setobject hash regs (some j) (some fresh)).1 ≡ true
        → setregistry hash regs (some j) (some v) now clock ≡ (
          write hash
              (setobject hash regs (some j) (some fresh)).0
              (some j)
              (stamp hash (some v) now clock),
          true,
        )
    unfolding setregistry
    setregistry_absent e ok = ground (arith, e, ok)

  -- What `setregistry` is to do: the key answers with the text, the time and the clock, every other
  -- key as before, and the registry stays well formed.
  abbrev pub IsUpdated :
      List ℕ → List ℕ → ℤ → ℤ → RoundMap (RoundRegistry R) → RoundMap (RoundRegistry R) → Type 0
  IsUpdated j v now clock before after =
      IsNodeRegistry after
      × ((reg : RoundRegistry R) × IsStamped v now clock reg
          × ((k : List ℕ)
              → getregistry hash after (some k)
                ≡ (if eq_key j k then some reg else getregistry hash before (some k))))

  -- A write of a text into the registry under the key
  written :
      (regs : RoundMap (RoundRegistry R)) (j v : List ℕ) (now clock : ℤ) (reg : RoundRegistry R)
      → IsNodeRegistry regs
      → getobjectbykey hash regs (some j) ≡ some reg
      → IsUpdated j v now clock regs (write hash regs (some j) (stamp hash (some v) now clock))
  unfolding getregistry
  written regs j v now clock reg n e = (
    record { map = write-IsMap hash regs n.map j (stamp hash (some v) now clock); texts = texts },
    (stamp hash (some v) now clock reg, stamped, answers),
  )
    where
      stamped : IsStamped v now clock (stamp hash (some v) now clock reg)
      stamped = stamp-IsStamped v now clock reg (n.texts j reg e)

      answers :
          (k : List ℕ)
          → getobjectbykey hash (write hash regs (some j) (stamp hash (some v) now clock)) (some k)
            ≡ (if eq_key j k
                then some (stamp hash (some v) now clock reg)
                else getobjectbykey hash regs (some k))
      answers k =
          getobjectbykey-write hash regs n.map j (stamp hash (some v) now clock) k
          ∙ elim (Bool-cases (eq_key j k)) [
            | inl q ↦
                let s : j ≡ k = (streq_iff j k).0 q in
                let g : getobjectbykey hash regs (some k) ≡ some reg =
                  ap (λ x. getobjectbykey hash regs (some x)) (sym s) ∙ e in
                rw (q, g) refl
            | inr q ↦ rw q refl
          ]

      texts :
          (k : List ℕ) (r : RoundRegistry R)
          → getobjectbykey hash (write hash regs (some j) (stamp hash (some v) now clock)) (some k)
            ≡ some r
          → is_text r.value ≡ true
      texts k r g = elim (Bool-cases (eq_key j k)) [
        | inl q ↦
            ap holds_text (sym g ∙ taken (eq_key j k) _ _ _ q (answers k)) ∙ ap is_text stamped.0
        | inr q ↦ n.texts k r (sym (chosen (eq_key j k) _ _ _ q (answers k)) ∙ g)
      ]

  pub added-IsNodeRegistry :
      (regs : RoundMap (RoundRegistry R)) (j v : List ℕ) (now clock : ℤ)
      → IsNodeRegistry regs
      → {added : RoundMap (RoundRegistry R)} → IsMap hash added
      → ((k : List ℕ)
          → getobjectbykey hash added (some k) ≡ (
              if eq_key j k
              then some (fresh regs j v now clock)
              else getobjectbykey hash regs (some k)))
      → IsNodeRegistry added
  unfolding getregistry
  added-IsNodeRegistry regs j v now clock n am ag = record {
    map = am;
    texts = λ k r g. elim (Bool-cases (eq_key j k)) [
      | inl q ↦
          ap holds_text (sym g ∙ taken (eq_key j k) _ _ _ q (ag k)) ∙ unfold registry_new in refl
      | inr q ↦ n.texts k r (sym (chosen (eq_key j k) _ _ _ q (ag k)) ∙ g)
    ];
  }

  -- Where a registry map is well formed and holds texts only, setregistry of a key and a text
  -- succeeds and keeps it so; the key then answers with a registry of that text, the time and the
  -- clock, and every other key answers as before.
  pub getregistry-setregistry :
      (regs : RoundMap (RoundRegistry R)) (j v : List ℕ) (now clock : ℤ)
      → IsNodeRegistry regs
      → ((setregistry hash regs (some j) (some v) now clock).1 ≡ true)
        × IsUpdated j v now clock regs (setregistry hash regs (some j) (some v) now clock).0
  unfolding getregistry
  getregistry-setregistry regs j v now clock n =
      elim (Option-cases (getobjectbykey hash regs (some j))) [
        | inr (reg, e) ↦
            rw (setregistry_present regs j v now clock reg e)
              (refl, written regs j v now clock reg n e)
        | inl e ↦
            let (ok, am, ag) =
              getobjectbykey-setobject hash regs j (fresh regs j v now clock) n.map in
            let added : RoundMap (RoundRegistry R) =
              (setobject hash regs (some j) (some (fresh regs j v now clock))).0 in
            let here : getobjectbykey hash added (some j) ≡ some (fresh regs j v now clock) =
              taken (eq_key j j) _ _ _ (eq_key_refl j) (ag j) in
            let (after, (reg, stamped, answers)) =
              written added j v now clock (fresh regs j v now clock)
                (added-IsNodeRegistry regs j v now clock n am ag) here in
            rw (setregistry_absent regs j v now clock e ok)
              (refl, (after, (reg, stamped, λ k. answers k ∙ collapse (eq_key j k) _ _ _ _ (ag k))))
      ]
