-- ===== src/Route/Screened.antt =====
-- services/routing.py: a zone that the checker reports is named and weighs on every segment.
use ocean_data_engine_fronte.Prelude.{
  ◌≡◌, refl, ap, ◌∙◌, subst, inl, inr, String, str_eq, eq_refl, List, [], ◌∷◌, ◌++◌, Bool, true,
  false, not, ◌&&◌, ◌||◌, Option, some, is_empty, any-append, In, All, All-append, arith, if-elim,
  if◌then◌else◌,
}
use mathlib.Core.Bool.{false≢true}
use ocean_data_engine_fronte.Prelude.Float.{Float}
use ocean_data_engine_fronte.Geofence.Zones.{ZoneSummary, Answer, found}
use ocean_data_engine_fronte.Route.Earth.{Trig}
use ocean_data_engine_fronte.Route.Parts.{
  RouteSegment, RouteRequest, Progress, listed, label, avoid, add_zone,
}
use ocean_data_engine_fronte.Route.Defs.{
  add_leg, legs, route_between, route_screen, route_vertices, begun, screen, screened_answer,
  coordinates_of, next_leg, segment_of,
}
use ocean_data_engine_fronte.Route.Legs.{legs-All}

or_left : (a b : Bool) → a ≡ true → (a || b) ≡ true
or_left a b h = ground arith

or_right : (a b : Bool) → b ≡ true → (a || b) ≡ true
or_right a b h = ground arith

listed-append :
    (name : String) (names more : List String)
    → listed name names ≡ true
    → listed name (names ++ more) ≡ true
listed-append name names more h = any-append (λ n. str_eq n name) names more ∙ or_left _ _ h

listed-last : (name : String) (names : List String) → listed name (names ++ name ∷ []) ≡ true
listed-last name names =
    any-append (λ n. str_eq n name) names (name ∷ [])
    ∙ or_right _ _ (or_left (str_eq name name) false (eq_refl name))

not_empty :
    (name : String) (names : List String) → listed name names ≡ true → is_empty names ≡ false
not_empty name [] h = absurd (false≢true h)
not_empty name (n ∷ names) h = refl

left_listed : (a b : Bool) → a ≡ false → (not a && not b) ≡ false → b ≡ true
left_listed a b h k = ground arith

module _ {W G : Type 0} where
  abbrev names_after : ZoneSummary W G → List String → List String
  names_after s names =
      if not (str_eq (label s) "") && not (listed (label s) names)
      then names ++ label s ∷ []
      else names

  names-kept :
      (name : String) (s : ZoneSummary W G) (names : List String)
      → listed name names ≡ true
      → listed name (names_after s names) ≡ true
  names-kept name s names h =
      if-elim (λ ns. listed name ns ≡ true)
        (not (str_eq (label s) "") && not (listed (label s) names))
        (λ e. listed-append name names (label s ∷ []) h) (λ e. h)

  named :
      (s : ZoneSummary W G) (names : List String)
      → str_eq (label s) "" ≡ false
      → listed (label s) (names_after s names) ≡ true
  named s names h =
      if-elim (λ ns. listed (label s) ns ≡ true)
        (not (str_eq (label s) "") && not (listed (label s) names))
        (λ e. listed-last (label s) names)
        (λ e. left_listed (str_eq (label s) "") (listed (label s) names) h e)

  avoid-kept :
      (name : String) (zones : List (ZoneSummary W G)) (names : List String)
      → listed name names ≡ true
      → listed name (avoid zones names) ≡ true
  unfolding avoid
  avoid-kept name [] names h = h
  avoid-kept name (s ∷ zones) names h =
      avoid-kept name zones (names_after s names) (names-kept name s names h)

  avoid-listed :
      (s : ZoneSummary W G) (zones : List (ZoneSummary W G)) (names : List String)
      → In s zones
      → str_eq (label s) "" ≡ false
      → listed (label s) (avoid zones names) ≡ true
  unfolding avoid
  avoid-listed s [] names h k = absurd h
  avoid-listed s (z ∷ zones) names (inl e) k =
      avoid-kept (label s) zones (names_after z names)
        (subst (λ r. listed (label s) (names_after r names) ≡ true) e (named s names k))
  avoid-listed s (z ∷ zones) names (inr h) k = avoid-listed s zones (names_after z names) h k

module _ {W G : Type 0} ⦃f : Float W⦄ (trig : Trig W) (q : RouteRequest W G) where
  abbrev pub CarriesZone : RouteSegment W → Type 0
  CarriesZone leg = leg.penalties.zone_penalty ≡ f.lit 20 1

  zone-carried :
      (meets : Bool) (p : Progress W) (a b : W × W)
      → meets ≡ true
      → CarriesZone (segment_of trig q (add_zone meets (next_leg trig q p a b).0) a b)
  unfolding add_zone
  zone-carried true p a b h = refl
  zone-carried false p a b h = absurd (false≢true h)

  legs-carry :
      (meets : Bool) (p : Progress W) (vertices : List (W × W))
      → meets ≡ true
      → All CarriesZone p.segments
      → All CarriesZone (legs trig q meets p vertices).segments
  unfolding add_leg
  legs-carry meets p vertices h k =
      legs-All trig q meets CarriesZone
        (λ p a b c.
          All-append CarriesZone p.segments
            (segment_of trig q (add_zone meets (next_leg trig q p a b).0) a b ∷ []) c
            (zone-carried meets p a b h, tt))
        p vertices k

  -- When the zone checker reports a zone that has a name or an identity, the route names it among the zones to avoid and
  -- every one of its segments carries the zone penalty, whichever of them the zone meets.
  pub route_between-screened :
      (s e : W × W) (checker : List (W × W) → Option (Answer W G)) (zones : List (ZoneSummary W G))
      (z : ZoneSummary W G)
      → q.zone_checker ≡ some checker
      → checker (route_between trig q s e).coordinates ≡ some (found zones)
      → In z zones
      → str_eq (label z) "" ≡ false
      → (listed (label z) (route_between trig q s e).avoided_zones ≡ true)
        × All CarriesZone (route_between trig q s e).segments
  unfolding route_between screen
  route_between-screened s e checker zones z h k member name =
      let coordinates = coordinates_of trig q (route_vertices trig q s e) in
      let asked : (route_screen trig q s e).0 ≡ avoid zones [] =
        ap (λ c. (screen c coordinates).0) h ∙ ap (λ o. (screened_answer o).0) k in
      let listed_there : listed (label z) (route_screen trig q s e).0 ≡ true =
        ap (listed (label z)) asked ∙ avoid-listed z zones [] member name in
      (
        listed_there,
        legs-carry (not (is_empty (route_screen trig q s e).0)) (begun trig q s e)
            (route_vertices trig q s e)
            (ap not (not_empty (label z) (route_screen trig q s e).0 listed_there)) tt,
      )
