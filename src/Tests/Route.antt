-- ===== src/Tests/Route.antt =====
-- Tests of the routes (route_manager.c).
use round.Common.{
  ℕ, Bool, ◌≡◌, refl, true, Option, none, some, List, [], ◌∷◌, arith, if◌then◌else◌, sym, ◌∙◌,
  get_or-replicate,
}
use round.Text.{strlen}
use round.Map.{RoundMap, new_map, getobjectbykey, getmapobjectbykey, bucket, getkeycode, Bucket}
use round.Map.Bucket.{eq_key}
use round.Map.Invariant.New.{new_map-IsMap, new_map_lem}
use round.Route.{Route, route_new, getbyname, setroute}
use round.Route.Names.{IsRoutes, address_of, getbyname-setroute}

abbrev r : List ℕ
r = b'r' ∷ []

abbrev at_seven : Route
at_seven = record (route_new 7) { name = some r }

getbyname-none : (k : List ℕ) → getbyname strlen (new_map 4) (some k) ≡ none
unfolding getbyname getobjectbykey getmapobjectbykey bucket
getbyname-none k = rw (new_map_lem {V = Route} 4 (omega arith)) (
    ground (
      arith,
      get_or-replicate {A = Option (Bucket Route)} 4
          (getkeycode strlen (new_map {V = Route} 4) (some k)) none,
    ))

none-IsRoutes : IsRoutes strlen (new_map 4)
none-IsRoutes = record {
  is_map = new_map-IsMap strlen 4 (omega arith);
  by_name = λ k route e. absurd (cc (sym (getbyname-none k) ∙ e));
}

getbyname-setroute_example :
    (set : RoundMap Route × Bool × Option ℕ) × (setroute strlen (new_map 4) at_seven ≡ some set)
    × IsRoutes strlen set.0
    × (set.1 ≡ true)
    × (set.2 ≡ address_of (getbyname strlen (new_map 4) (some r)))
    × ((k : List ℕ)
        → getbyname strlen set.0 (some k)
          ≡ (if eq_key r k then some at_seven else getbyname strlen (new_map 4) (some k)))
getbyname-setroute_example =
    getbyname-setroute strlen at_seven r refl (new_map 4) none-IsRoutes
      (λ old e. absurd (cc (sym (getbyname-none r) ∙ e)))
