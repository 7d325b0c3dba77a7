-- ===== src/LocalNode/Final.antt =====
-- What the functions of a local node (local_node.c) do to its methods, final or not.
use round.Common.{
  ℕ, ◌≡◌, ◌≢◌, refl, sym, ap, ◌∙◌, if◌then◌else◌, true, false, none, some, List, [], ◌∷◌, arith,
  Bool-cases, Option-cases, inl, inr,
}
use round.Text.{CString, streq, strlen}
use round.Text.Order.{streq_iff}
use round.Map.{find, iskey, getmapobjectbykey, getobjectbykey, bucket, Bucket}
use round.Map.Bucket.{eq_key, eq_key_refl}
use round.Method.{Method, isvalid, MethodManager, addmethod, getmethod}
use round.Method
use round.Method.Manager.{IsManager, getmethod-addmethod, getmethod-removemethod}
use round.LocalNode.{setmethod, removemethod, MethodCall, set, remove, call, call_all}

find_null : {V : Type 0} (objs : Bucket V) → find objs none ≡ none
unfolding find iskey streq
find_null [] = refl
find_null (o ∷ objs) = find_null objs

module _ (hash : CString → ℕ) where
  getmethod_null : (mgr : MethodManager) → getmethod hash mgr none ≡ none
  unfolding getmethod getobjectbykey getmapobjectbykey
  getmethod_null mgr = elim (Option-cases (bucket hash mgr.method_map none)) [
    | inl e ↦ ground (arith, e)
    | inr (objs, e) ↦ ground (arith, e, find_null objs)
  ]

  addmethod_invalid :
      (mgr : MethodManager) (method : Method)
      → isvalid method ≡ false
      → (addmethod hash mgr method).0 ≡ mgr
  unfolding addmethod
  addmethod_invalid mgr method v = rw v refl

  addmethod_nameless :
      (mgr : MethodManager) (method : Method)
      → method.name ≡ none
      → (addmethod hash mgr method).0 ≡ mgr
  addmethod_nameless mgr method e =
      addmethod_invalid mgr method (unfold isvalid strlen in ground (arith, e))

  -- The manager is well formed and answers the name with the method.
  abbrev pub Holds : List ℕ → Method → MethodManager → Type 0
  Holds j f mgr = IsManager hash mgr × (getmethod hash mgr (some j) ≡ some f)

  addmethod-Holds :
      (j : List ℕ) (f : Method) (mgr : MethodManager) (method : Method) (k : List ℕ)
      → method.name ≡ some k
      → eq_key k j ≡ false
      → Holds j f mgr
      → Holds j f (addmethod hash mgr method).0
  addmethod-Holds j f mgr method k e d (m, g) = elim (Bool-cases (isvalid method)) [
    | inl v ↦
        let (am, _, ag) = getmethod-addmethod hash mgr method k m v e in
        (am, ag j ∙ ap (λ b. if b then some method else getmethod hash mgr (some j)) d ∙ g)
    | inr v ↦ rw (addmethod_invalid mgr method v) (m, g)
  ]

  removemethod-Holds :
      (j : List ℕ) (f : Method) (mgr : MethodManager) (k : List ℕ)
      → eq_key k j ≡ false
      → Holds j f mgr
      → Holds j f (Method.removemethod hash mgr (some k)).0
  removemethod-Holds j f mgr k d (m, g) =
      let (rm, rg) = getmethod-removemethod hash mgr k m in
      (rm, rg j ∙ ap (λ b. if b then none else getmethod hash mgr (some j)) d ∙ g)

  -- Another method, or none, stands under another name.
  other_key :
      (j k : List ℕ) (mgr : MethodManager)
      → getmethod hash mgr (some k) ≢ getmethod hash mgr (some j)
      → eq_key k j ≡ false
  other_key j k mgr ne = elim (Bool-cases (eq_key k j)) [
    | inl e ↦ absurd (ne (ap (λ x. getmethod hash mgr (some x)) ((streq_iff k j).0 e)))
    | inr e ↦ e
  ]

  module _ (mgr : MethodManager) (method : Method) where
    pub setmethod_absent :
        getmethod hash mgr method.name ≡ none
        → setmethod hash mgr method ≡ addmethod hash mgr method
    unfolding setmethod
    setmethod_absent e = ground (arith, e)

    pub setmethod_final :
        (ex : Method)
        → getmethod hash mgr method.name ≡ some ex
        → ex.is_final ≡ true
        → setmethod hash mgr method ≡ (mgr, false)
    unfolding setmethod
    setmethod_final ex e t = ground (arith, e, t)

    pub setmethod_over :
        (ex : Method)
        → getmethod hash mgr method.name ≡ some ex
        → ex.is_final ≡ false
        → setmethod hash mgr method
          ≡ addmethod hash (Method.removemethod hash mgr method.name).0 method
    unfolding setmethod
    setmethod_over ex e t = ground (arith, e, t)

  module _ (mgr : MethodManager) (name : CString) where
    removemethod_absent : getmethod hash mgr name ≡ none → (removemethod hash mgr name).0 ≡ mgr
    unfolding removemethod
    removemethod_absent e = ground (arith, e)

    pub removemethod_final :
        (m : Method)
        → getmethod hash mgr name ≡ some m
        → m.is_final ≡ true
        → (removemethod hash mgr name).0 ≡ mgr
    unfolding removemethod
    removemethod_final m e t = ground (arith, e, t)

    pub removemethod_over :
        (m : Method)
        → getmethod hash mgr name ≡ some m
        → m.is_final ≡ false
        → (removemethod hash mgr name).0 ≡ (Method.removemethod hash mgr name).0
    unfolding removemethod
    removemethod_over m e t = ground (arith, e, t)

  module _ (j : List ℕ) (f : Method) (final : f.is_final ≡ true) where
    pub setmethod-Holds :
        (mgr : MethodManager) (method : Method)
        → Holds j f mgr
        → Holds j f (setmethod hash mgr method).0
    setmethod-Holds mgr method h = elim (Option-cases (getmethod hash mgr method.name)) [
      | inl e ↦ rw (setmethod_absent mgr method e) (elim (Option-cases method.name) [
        | inl n ↦ rw (addmethod_nameless mgr method n) h
        | inr (k, n) ↦
            addmethod-Holds j f mgr method k n
              (other_key j k mgr (λ q. cc (q, h.1, e, ap (λ x. getmethod hash mgr x) n))) h
      ])
      | inr (ex, e) ↦ elim (Bool-cases ex.is_final) [
        | inl t ↦ rw (setmethod_final mgr method ex e t) h
        | inr t ↦ rw (setmethod_over mgr method ex e t) (elim (Option-cases method.name) [
          | inl n ↦
              absurd (cc (sym (getmethod_null mgr) ∙ sym (ap (λ x. getmethod hash mgr x) n) ∙ e))
          | inr (k, n) ↦
              let d =
                other_key j k mgr
                  (λ q. ground (arith, q, h.1, e, t, final, ap (λ x. getmethod hash mgr x) n)) in
              addmethod-Holds j f (Method.removemethod hash mgr method.name).0 method k n d
                (rw n (removemethod-Holds j f mgr k d h))
        ])
      ]
    ]

    pub removemethod_call-Holds :
        (mgr : MethodManager) (name : CString)
        → Holds j f mgr
        → Holds j f (removemethod hash mgr name).0
    removemethod_call-Holds mgr name h = elim (Option-cases (getmethod hash mgr name)) [
      | inl e ↦ rw (removemethod_absent mgr name e) h
      | inr (m, e) ↦ elim (Bool-cases m.is_final) [
        | inl t ↦ rw (removemethod_final mgr name m e t) h
        | inr t ↦ rw (removemethod_over mgr name m e t) (elim (Option-cases name) [
          | inl n ↦
              absurd (cc (sym (getmethod_null mgr) ∙ sym (ap (λ x. getmethod hash mgr x) n) ∙ e))
          | inr (k, n) ↦
              let d =
                other_key j k mgr
                  (λ q. ground (arith, q, h.1, e, t, final, ap (λ x. getmethod hash mgr x) n)) in
              rw n (removemethod-Holds j f mgr k d h)
        ])
      ]
    ]

    -- Where a well-formed method manager holds a final method under a name, it is well formed and
    -- holds that method under the name after every sequence of calls of setmethod and
    -- removemethod.
    pub call_all-Holds :
        (calls : List MethodCall) (mgr : MethodManager)
        → Holds j f mgr
        → Holds j f (call_all hash mgr calls)
    unfolding call_all call
    call_all-Holds [] mgr h = h
    call_all-Holds (set method ∷ calls) mgr h =
        call_all-Holds calls (setmethod hash mgr method).0 (setmethod-Holds mgr method h)
    call_all-Holds (remove name ∷ calls) mgr h =
        call_all-Holds calls (removemethod hash mgr name).0 (removemethod_call-Holds mgr name h)

  addmethod_refused :
      (mgr : MethodManager) (method : Method)
      → isvalid method ≡ false
      → (addmethod hash mgr method).1 ≡ false
  unfolding addmethod
  addmethod_refused mgr method v = ground (arith, v)

  -- Where a well-formed manager holds a method that is not final, setmethod of an invalid method
  -- of that name fails, and the manager then holds no method under the name.
  pub setmethod_drops :
      (mgr : MethodManager) (method ex_method : Method) (j : List ℕ)
      → IsManager hash mgr
      → getmethod hash mgr (some j) ≡ some ex_method
      → ex_method.is_final ≡ false
      → method.name ≡ some j
      → isvalid method ≡ false
      → ((setmethod hash mgr method).1 ≡ false)
        × (getmethod hash (setmethod hash mgr method).0 (some j) ≡ none)
  setmethod_drops mgr method ex j m g t n v =
      let removed : MethodManager = (Method.removemethod hash mgr method.name).0 in
      let (_, rg) = getmethod-removemethod hash mgr j m in
      let gone : getmethod hash (Method.removemethod hash mgr (some j)).0 (some j) ≡ none =
        rg j ∙ ap (λ b. if b then none else getmethod hash mgr (some j)) (eq_key_refl j) in
      rw (setmethod_over mgr method ex (ap (λ x. getmethod hash mgr x) n ∙ g) t)
        (addmethod_refused removed method v, rw (addmethod_invalid removed method v) (rw n gone))
