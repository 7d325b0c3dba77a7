-- ===== src/Route/Names.antt =====
-- The routes of a manager by their names: src/round/route_manager.c.
use round.Common.{
  ℕ, ◌≡◌, ◌≢◌, ◌==◌, refl, sym, ap, ◌∙◌, Bool, true, false, Option, none, some, List, arith,
  if◌then◌else◌, Bool-cases, Option-cases, inl, inr,
}
use round.Text.{CString}
use round.Text.Order.{streq_iff}
use round.Map.{RoundMap, setobject, removeobjectbykey}
use round.Map.Bucket.{eq_key}
use round.Map.Invariant.{IsMap}
use round.Map.Invariant.Set.{getobjectbykey-setobject, getobjectbykey-removeobjectbykey}
use round.Route.{Route, getbyname, removeroute, setroute}

abbrev pub address_of : Option Route → Option ℕ
address_of none = none
address_of (some r) = some r.at

module _ (hash : CString → ℕ) where
  -- Each route stands under its own name.
  pub record IsRoutes (mgr : RoundMap Route) : Type 0 where
    pub is_map : IsMap hash mgr
    pub by_name : (k : List ℕ) (r : Route) → getbyname hash mgr (some k) ≡ some r → r.name ≡ some k

  module _ (route : Route) (name : List ℕ) (named : route.name ≡ some name) where
    record IsAdded (mgr : RoundMap Route) (set : RoundMap Route × Bool) : Type 0 where
      routes : IsRoutes set.0
      success : set.1 ≡ true
      answers :
          (k : List ℕ)
          → getbyname hash set.0 (some k)
            ≡ (if eq_key name k then some route else getbyname hash mgr (some k))

    setobject-IsAdded :
        (mgr : RoundMap Route)
        → IsRoutes mgr
        → IsAdded mgr (setobject hash mgr (some name) (some route))
    unfolding getbyname
    setobject-IsAdded mgr i =
        let (ok, m, a) = getobjectbykey-setobject hash mgr name route i.is_map in
        record {
          routes = record { is_map = m; by_name = λ k r e. under k r (sym (a k) ∙ e) };
          success = ok;
          answers = a;
        }
      where
        under :
            (k : List ℕ) (r : Route)
            → (if eq_key name k then some route else getbyname hash mgr (some k)) ≡ some r
            → r.name ≡ some k
        under k r e = elim (Bool-cases (eq_key name k)) [
          | inl h ↦
              let q : some route ≡ some r = rw h at e in
              let rr : route ≡ r = cc q in
              ap (λ x. x.name) (sym rr) ∙ named ∙ ap some ((streq_iff name k).0 h)
          | inr h ↦ i.by_name k r (rw h at e)
        ]

    remove-IsRoutes :
        (mgr : RoundMap Route)
        → IsRoutes mgr
        → IsRoutes (removeobjectbykey hash mgr (some name)).0
          × ((k : List ℕ)
              → getbyname hash (removeobjectbykey hash mgr (some name)).0 (some k)
                ≡ (if eq_key name k then none else getbyname hash mgr (some k)))
    unfolding getbyname
    remove-IsRoutes mgr i =
        let (m, a) = getobjectbykey-removeobjectbykey hash mgr name i.is_map in
        (record { is_map = m; by_name = λ k r e. under k r (sym (a k) ∙ e) }, a)
      where
        under :
            (k : List ℕ) (r : Route)
            → (if eq_key name k then none else getbyname hash mgr (some k)) ≡ some r
            → r.name ≡ some k
        under k r e = elim (Bool-cases (eq_key name k)) [
          | inl h ↦ absurd (ground (arith, h, e))
          | inr h ↦ i.by_name k r (rw h at e)
        ]

    setroute-none :
        (mgr : RoundMap Route)
        → getbyname hash mgr (some name) ≡ none
        → setroute hash mgr route
          ≡ some (
            (setobject hash mgr (some name) (some route)).0,
            (setobject hash mgr (some name) (some route)).1,
            none,
          )
    unfolding setroute
    setroute-none mgr e = simp (setroute, named, e)

    setroute-some :
        (mgr : RoundMap Route) (old : Route)
        → getbyname hash mgr (some name) ≡ some old
        → old.name ≡ some name
        → old.at ≢ route.at
        → setroute hash mgr route
          ≡ some (
            (setobject hash (removeobjectbykey hash mgr (some name)).0 (some name) (some route)).0,
            (setobject hash (removeobjectbykey hash mgr (some name)).0 (some name) (some route)).1,
            some old.at,
          )
    unfolding setroute removeroute
    setroute-some mgr old e n d =
        let f : (old.at == route.at) ≡ false = ground (arith, d) in
        simp (setroute, removeroute, named, e, n, f)

    -- On a well-formed manager of routes that each stand under their names, setroute of a route
    -- with a name, where the route that stands under the name, if there is one, is not that route
    -- itself, ends without a read of freed memory, succeeds, keeps the manager so, and deletes the
    -- route that stood under the name, if there is one; the name is then answered with the new
    -- route, and every other name as before.
    pub getbyname-setroute :
        (mgr : RoundMap Route)
        → IsRoutes mgr
        → ((old : Route) → getbyname hash mgr (some name) ≡ some old → old.at ≢ route.at)
        → (set : RoundMap Route × Bool × Option ℕ) × (setroute hash mgr route ≡ some set)
          × IsRoutes set.0
          × (set.1 ≡ true)
          × (set.2 ≡ address_of (getbyname hash mgr (some name)))
          × ((k : List ℕ)
              → getbyname hash set.0 (some k)
                ≡ (if eq_key name k then some route else getbyname hash mgr (some k)))
    getbyname-setroute mgr i away = elim (Option-cases (getbyname hash mgr (some name))) [
      | inl e ↦
          let s = setobject-IsAdded mgr i in
          (_, setroute-none mgr e, s.routes, s.success, ap address_of (sym e), s.answers)
      | inr (old, e) ↦
          let n : old.name ≡ some name = i.by_name name old e in
          let (r, gone) = remove-IsRoutes mgr i in
          let s = setobject-IsAdded (removeobjectbykey hash mgr (some name)).0 r in
          (
            _,
            setroute-some mgr old e n (away old e),
            s.routes,
            s.success,
            ap address_of (sym e),
            λ k.
                s.answers k
                ∙ ap (λ x. if eq_key name k then some route else x) (gone k)
                ∙ twice (eq_key name k) (getbyname hash mgr (some k)),
          )
    ]
      where
        twice :
            (b : Bool) (x : Option Route)
            → (if b then some route else (if b then none else x)) ≡ (if b then some route else x)
        twice true x = refl
        twice false x = refl
