-- ===== src/NodeThreads/Triggers.antt =====
-- The triggers by their names: `round_trigger_manager_settrigger` of src/round/trigger_manager.c.
use round.Common.{
  ℕ, ◌≡◌, ◌≢◌, refl, sym, ap, ◌∙◌, Bool, true, false, inl, inr, Option, none, some, List, [], ◌∷◌,
  ◌++◌, arith, ◌==◌, if◌then◌else◌, Bool-cases, Option-cases,
}
use round.Text.{CString, streq, strlen}
use round.Text.Order.{streq_iff}
use round.NodeThreads.{RoundThread, getthreadbyname, remove_from, settrigger}

-- No two triggers have one name.
abbrev pub IsTriggers : List RoundThread → Type 0
IsTriggers [] = Unit
IsTriggers (t ∷ triggers) = (getthreadbyname triggers t.name ≡ none) × IsTriggers triggers

streq_name : (c : CString) (n : List ℕ) → streq c (some n) ≡ true → c ≡ some n
unfolding streq
streq_name none n h = cc
streq_name (some m) n h = ap some ((streq_iff m n).0 (unfold streq in h))

streq_self : (n : List ℕ) → streq (some n) (some n) ≡ true
streq_self n = (streq_iff n n).1 refl

streq_sym : (m n : List ℕ) → streq (some m) (some n) ≡ streq (some n) (some m)
streq_sym m n = elim (Bool-cases (streq (some m) (some n))) [
  | inl e ↦ e ∙ sym ((streq_iff n m).1 (sym ((streq_iff m n).0 e)))
  | inr e ↦ elim (Bool-cases (streq (some n) (some m))) [
    | inl f ↦ absurd (cc (sym e ∙ (streq_iff m n).1 (sym ((streq_iff n m).0 f))))
    | inr f ↦ e ∙ sym f
  ]
]

get-append :
    (triggers : List RoundThread) (t : RoundThread) (name : CString)
    → getthreadbyname triggers name ≡ none
    → getthreadbyname (triggers ++ t ∷ []) name ≡ (if streq t.name name then some t else none)
unfolding getthreadbyname
get-append [] t name e = refl
get-append (u ∷ triggers) t name e = elim (Bool-cases (streq u.name name)) [
  | inl s ↦ absurd (ground (arith, s, e))
  | inr s ↦ rw s (get-append triggers t name (rw s at e))
]

get-append_old :
    (triggers : List RoundThread) (t u : RoundThread) (name : CString)
    → getthreadbyname triggers name ≡ some u
    → getthreadbyname (triggers ++ t ∷ []) name ≡ some u
unfolding getthreadbyname
get-append_old [] t u name e = cc
get-append_old (v ∷ triggers) t u name e = elim (Bool-cases (streq v.name name)) [
  | inl s ↦ rw s (rw s at e)
  | inr s ↦ rw s (get-append_old triggers t u name (rw s at e))
]

get-remove :
    (triggers : List RoundThread) (n k : List ℕ)
    → IsTriggers triggers
    → getthreadbyname (remove_from triggers (some n)) (some k)
      ≡ (if streq (some n) (some k) then none else getthreadbyname triggers (some k))
unfolding getthreadbyname remove_from
get-remove [] n k i = ground arith
get-remove (t ∷ triggers) n k i = elim (Bool-cases (streq t.name (some n))) [
  | inl s ↦
      let tn : t.name ≡ some n = streq_name t.name n s in
      rw s (elim (Bool-cases (streq (some n) (some k))) [
        | inl q ↦
            let nk : n ≡ k = (streq_iff n k).0 q in
            rw q (ap (getthreadbyname triggers) (ap some (sym nk) ∙ sym tn) ∙ i.0)
        | inr q ↦ rw (q, ap (λ c. streq c (some k)) tn ∙ q) refl
      ])
  | inr s ↦ rw s (elim (Bool-cases (streq t.name (some k))) [
    | inl q ↦
        let tk : t.name ≡ some k = streq_name t.name k q in
        let nk : streq (some n) (some k) ≡ false =
          streq_sym n k ∙ ap (λ c. streq c (some n)) (sym tk) ∙ s in
        rw (q, nk) refl
    | inr q ↦ rw q (get-remove triggers n k i.1)
  ])
]

-- A trigger is found under no name that it was not found under.
remove-none :
    (triggers : List RoundThread) (n : List ℕ) (name : CString)
    → getthreadbyname triggers name ≡ none
    → getthreadbyname (remove_from triggers (some n)) name ≡ none
unfolding getthreadbyname remove_from
remove-none [] n name e = refl
remove-none (t ∷ triggers) n name e = elim (Bool-cases (streq t.name name)) [
  | inl q ↦ absurd (ground (arith, q, e))
  | inr q ↦ elim (Bool-cases (streq t.name (some n))) [
    | inl s ↦ rw s (rw q at e)
    | inr s ↦ rw (s, q) (remove-none triggers n name (rw q at e))
  ]
]

remove-IsTriggers :
    (triggers : List RoundThread) (n : List ℕ)
    → IsTriggers triggers
    → IsTriggers (remove_from triggers (some n))
unfolding remove_from
remove-IsTriggers [] n i = tt
remove-IsTriggers (t ∷ triggers) n i = elim (Bool-cases (streq t.name (some n))) [
  | inl s ↦ rw s i.1
  | inr s ↦ rw s (remove-none triggers n t.name i.0, remove-IsTriggers triggers n i.1)
]

module _ (trigger : RoundThread) (name : List ℕ) (named : trigger.name ≡ some name) where
  append-IsTriggers :
      (triggers : List RoundThread)
      → getthreadbyname triggers (some name) ≡ none
      → IsTriggers triggers
      → IsTriggers (triggers ++ trigger ∷ [])
  unfolding getthreadbyname
  append-IsTriggers [] e i = (refl, tt)
  append-IsTriggers (t ∷ triggers) e i = elim (Bool-cases (streq t.name (some name))) [
    | inl s ↦ absurd (ground (arith, s, e))
    | inr s ↦ (
      get-append triggers trigger t.name i.0 ∙ rw (differs t.name s) refl,
      append-IsTriggers triggers (rw s at e) i.1,
    )
  ]
    where
      differs : (c : CString) → streq c (some name) ≡ false → streq trigger.name c ≡ false
      differs none h = rw named (unfold streq in refl)
      differs (some m) h = rw named (streq_sym name m ∙ h)

  added :
      (others : List RoundThread) (k : List ℕ)
      → getthreadbyname others (some name) ≡ none
      → getthreadbyname (others ++ trigger ∷ []) (some k)
        ≡ (if streq (some name) (some k) then some trigger else getthreadbyname others (some k))
  added others k e = elim (Bool-cases (streq (some name) (some k))) [
    | inl q ↦
        let nk : name ≡ k = (streq_iff name k).0 q in
        rw q (
          get-append others trigger (some k)
            (ap (λ x. getthreadbyname others (some x)) (sym nk) ∙ e)
          ∙ rw (named, q) refl)
    | inr q ↦ rw q (elim (Option-cases (getthreadbyname others (some k))) [
      | inl z ↦ get-append others trigger (some k) z ∙ rw (named, q, z) refl
      | inr (u, z) ↦ get-append_old others trigger u (some k) z ∙ sym z
    ])
  ]

  -- On a list of triggers of which no two have one name, settrigger of a trigger with a name that
  -- is not empty succeeds and keeps the list so; the name is then answered with that trigger, and
  -- every other name as before.
  pub getthreadbyname-settrigger :
      (triggers : List RoundThread)
      → IsTriggers triggers
      → name ≢ []
      → ((settrigger triggers trigger).1 ≡ true)
        × IsTriggers (settrigger triggers trigger).0
        × ((k : List ℕ)
            → getthreadbyname (settrigger triggers trigger).0 (some k) ≡ (
                if streq (some name) (some k)
                then some trigger
                else getthreadbyname triggers (some k)))
  getthreadbyname-settrigger triggers i n0 =
      elim (Option-cases (getthreadbyname triggers (some name))) [
        | inl e ↦
            rw (absent triggers e) (refl, append-IsTriggers triggers e i, λ k. added triggers k e)
        | inr (u, e) ↦
            let others = remove_from triggers (some name) in
            let gone : getthreadbyname others (some name) ≡ none =
              get-remove triggers name name i ∙ rw (streq_self name) refl in
            rw (present triggers u e) (
              refl,
              append-IsTriggers others gone (remove-IsTriggers triggers name i),
              λ k.
                  added others k gone
                  ∙ ap (λ x. if streq (some name) (some k) then some trigger else x)
                      (get-remove triggers name k i)
                  ∙ twice (streq (some name) (some k)) (getthreadbyname triggers (some k)),
            )
      ]
    where
      twice :
          (b : Bool) (x : Option RoundThread)
          → (if b then some trigger else (if b then none else x)) ≡ (if b then some trigger else x)
      twice true x = refl
      twice false x = refl

      long : (strlen (some name) == 0) ≡ false
      long = nonempty name n0
        where
          nonempty : (l : List ℕ) → l ≢ [] → (strlen (some l) == 0) ≡ false
          nonempty [] h = absurd (h refl)
          nonempty (x ∷ l) h = unfold strlen in ground arith

      absent :
          (l : List RoundThread)
          → getthreadbyname l (some name) ≡ none
          → settrigger l trigger ≡ (l ++ trigger ∷ [], true)
      absent l e = unfold settrigger in ground (arith, long, named, e)

      present :
          (l : List RoundThread) (u : RoundThread)
          → getthreadbyname l (some name) ≡ some u
          → settrigger l trigger ≡ (remove_from l (some name) ++ trigger ∷ [], true)
      present l u e = unfold settrigger in ground (arith, long, named, e)
