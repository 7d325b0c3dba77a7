-- ===== src/Registry/Node/Kept.antt =====
-- The registry of a local node (local_node.c) stays well formed, also where NULL is set.
use round.Common.{
  ℕ, ◌≡◌, refl, sym, subst, ap, ◌∙◌, true, inl, inr, none, some, List, [], ◌∷◌, arith, Bool-cases,
  Option-cases,
}
use round.Common.Int.{ℤ}
use round.Text.{CString, streq}
use round.Text.Order.{streq_iff}
use round.Map.{RoundMap, Bucket, find, iskey, bucket, getmapobjectbykey, setobject, getobjectbykey}
use round.Map.Bucket.{eq_key, eq_key_refl}
use round.Map.Invariant.Set.{getobjectbykey-setobject}
use round.Registry.{RoundRegistry, setstring, write, stamp, setregistry, getregistry}
use round.Registry.Write.{write-IsMap, getobjectbykey-write}
use round.Registry.Node.{
  is_text, text-cases, holds_text, taken, IsNodeRegistry, fresh, added-IsNodeRegistry,
}

module _ {R : Type 0} (hash : CString → ℕ) where
  -- A write of a text or of NULL under a key keeps the registry well formed.
  written-IsNodeRegistry :
      (regs : RoundMap (RoundRegistry R)) (j : List ℕ) (c : CString) (now clock : ℤ)
      (reg : RoundRegistry R)
      → IsNodeRegistry hash regs
      → getobjectbykey hash regs (some j) ≡ some reg
      → IsNodeRegistry hash (write hash regs (some j) (stamp hash c now clock))
  unfolding getregistry
  written-IsNodeRegistry regs j c now clock reg n e = record {
    map = write-IsMap hash regs n.map j (stamp hash c now clock);
    texts = λ k r g. elim (Bool-cases (eq_key j k)) [
      | inl q ↦
          let s : j ≡ k = (streq_iff j k).0 q in
          let here : getobjectbykey hash regs (some k) ≡ some reg =
            ap (λ x. getobjectbykey hash regs (some x)) (sym s) ∙ e in
          let w : getobjectbykey hash (write hash regs (some j) (stamp hash c now clock)) (some k)
              ≡ some (stamp hash c now clock reg) =
            getobjectbykey-write hash regs n.map j (stamp hash c now clock) k ∙ rw (q, here) refl in
          ap holds_text (sym g ∙ w) ∙ stamp_text reg (n.texts j reg e)
      | inr q ↦
          n.texts k r (
            sym (getobjectbykey-write hash regs n.map j (stamp hash c now clock) k ∙ rw q refl) ∙ g)
    ];
  }
    where
      stamp_text :
          (r : RoundRegistry R)
          → is_text r.value ≡ true
          → is_text (stamp hash c now clock r).value ≡ true
      stamp_text r t =
          unfold stamp setstring in
          elim (text-cases r.value t) [ inl z ↦ rw z refl | inr (s, z) ↦ rw z refl ]

  find_null : (objs : Bucket (RoundRegistry R)) → find objs none ≡ none
  unfolding find iskey streq
  find_null [] = refl
  find_null (o ∷ objs) = find_null objs

  getobjectbykey_null : (regs : RoundMap (RoundRegistry R)) → getobjectbykey hash regs none ≡ none
  unfolding getobjectbykey getmapobjectbykey
  getobjectbykey_null regs = elim (Option-cases (bucket hash regs none)) [
    | inl e ↦ ground (arith, e)
    | inr (objs, e) ↦ ground (arith, e, find_null objs)
  ]

  setregistry_missing :
      (regs : RoundMap (RoundRegistry R)) (j : List ℕ) (c : CString) (now clock : ℤ)
      → getobjectbykey hash regs (some j) ≡ none
      → (setobject hash regs (some j) (some (fresh hash regs j [] now clock))).1 ≡ true
      → setregistry hash regs (some j) c now clock ≡ (
        write hash
            (setobject hash regs (some j) (some (fresh hash regs j [] now clock))).0
            (some j)
            (stamp hash c now clock),
        true,
      )
  unfolding setregistry
  setregistry_missing regs j c now clock e ok = ground (arith, e, ok)

  -- setregistry of any key and text, NULL included, keeps a registry map well formed and its texts.
  pub setregistry-IsNodeRegistry :
      (regs : RoundMap (RoundRegistry R)) (key val : CString) (now clock : ℤ)
      → IsNodeRegistry hash regs
      → IsNodeRegistry hash (setregistry hash regs key val now clock).0
  unfolding setregistry setobject
  setregistry-IsNodeRegistry regs none val now clock n = subst (IsNodeRegistry hash) (sym same) n
    where
      same : (setregistry hash regs none val now clock).0 ≡ regs
      same = ground (arith, getobjectbykey_null regs)
  setregistry-IsNodeRegistry regs (some j) val now clock n =
      elim (Option-cases (getobjectbykey hash regs (some j))) [
        | inr (reg, e) ↦
            subst (IsNodeRegistry hash) (sym (present_key reg e))
              (written-IsNodeRegistry regs j val now clock reg n e)
        | inl e ↦
            let (ok, am, ag) =
              getobjectbykey-setobject hash regs j (fresh hash regs j [] now clock) n.map in
            let here : getobjectbykey hash
                  (setobject hash regs (some j) (some (fresh hash regs j [] now clock))).0 (some j)
                ≡ some (fresh hash regs j [] now clock) =
              taken (eq_key j j) _ _ _ (eq_key_refl j) (ag j) in
            let added : RoundMap (RoundRegistry R) =
              (setobject hash regs (some j) (some (fresh hash regs j [] now clock))).0 in
            subst (IsNodeRegistry hash) (sym (absent_key e ok)) (
              written-IsNodeRegistry added j val now clock (fresh hash regs j [] now clock)
                (added-IsNodeRegistry hash regs j [] now clock n am ag) here)
      ]
    where
      present_key :
          (reg : RoundRegistry R)
          → getobjectbykey hash regs (some j) ≡ some reg
          → (setregistry hash regs (some j) val now clock).0
            ≡ write hash regs (some j) (stamp hash val now clock)
      present_key reg e = ground (arith, e)

      absent_key :
          getobjectbykey hash regs (some j) ≡ none
          → (setobject hash regs (some j) (some (fresh hash regs j [] now clock))).1 ≡ true
          → (setregistry hash regs (some j) val now clock).0
            ≡ write hash
                (setobject hash regs (some j) (some (fresh hash regs j [] now clock))).0
                (some j)
                (stamp hash val now clock)
      absent_key e ok = ap (λ r. r.0) (setregistry_missing regs j val now clock e ok)
