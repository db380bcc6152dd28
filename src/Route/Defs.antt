-- ===== src/Route/Defs.antt =====
-- services/routing.py: `compute_safe_route`, its screening for zones and its loop over the segments.
use ocean_data_engine_fronte.Prelude.{
  ℕ, zero, suc, String, List, [], ◌∷◌, ◌++◌, map, Bool, true, false, not, Option, none, some,
  length, is_empty, max, if◌then◌else◌,
}
use ocean_data_engine_fronte.Prelude.Float.{Float, zero_, fmax}
use ocean_data_engine_fronte.Geofence.Zones.{Answer, source_gap, found}
use ocean_data_engine_fronte.Route.Earth.{
  Trig, is_zero, ensure_wgs84_point, haversine_km, interpolate_great_circle,
}
use ocean_data_engine_fronte.Route.Parts.{
  RouteSegment, RouteWarning, identical_points, zones_not_screened, zone_check_failed,
  no_env_sampler, env_sample_failed, RouteResult, Environment, RouteRequest, Scored, Progress,
  avoid, no_penalties, add_totals, major_drivers, no_environment, score_environment, add_zone,
}

module _ {W : Type 0} ⦃f : Float W⦄ where
  -- v, where it is true as a number
  abbrev pub when_nonzero : Option W → Option W
  when_nonzero none = none
  when_nonzero (some v) = if is_zero v then none else some v

  abbrev pub divided : W → Option W → Option W
  divided km none = none
  divided km (some speed) = some (f.div km speed)

  abbrev pub or_zero : Option W → W
  or_zero none = zero_
  or_zero (some h) = h

  abbrev pub after_hours : W → Option W → W
  after_hours total none = total
  after_hours total (some h) = f.add total h

  abbrev pub arrival : Option ℕ → Option W → W → Option W → Option (ℕ × W)
  arrival (some departure) (some speed) hours seg =
      some (departure, f.add hours (f.div (or_zero seg) (f.lit 2 1)))
  arrival _ _ hours seg = none

  abbrev pub screened_answer : {G : Type 0} → Option (Answer W G) → List String × List RouteWarning
  screened_answer none = ([], zone_check_failed ∷ [])
  screened_answer (some source_gap) = ([], zones_not_screened ∷ [])
  screened_answer (some (found zones)) = (avoid zones [], [])

  -- the zones to avoid, and the warnings
  unfoldable pub screen :
      {G : Type 0}
      → Option (List (W × W) → Option (Answer W G))
      → List (W × W)
      → List String × List RouteWarning
  unfolding avoid
  screen none coordinates = ([], [])
  screen (some checker) coordinates = screened_answer (checker coordinates)

  abbrev pub max_from : W → List (RouteSegment W) → W
  max_from best [] = best
  max_from best (s ∷ ss) = max_from (fmax best s.risk_score) ss

  abbrev pub sum_from : W → List (RouteSegment W) → W
  sum_from total [] = total
  sum_from total (s ∷ ss) = sum_from (f.add total s.risk_score) ss

  unfoldable pub route_risk : List (RouteSegment W) → W
  route_risk [] = zero_
  route_risk (s ∷ ss) =
      let mean = f.div (sum_from zero_ (s ∷ ss)) (f.lit (length (s ∷ ss)) 1) in
      f.round (f.add (f.mul (f.lit 6 10) (max_from s.risk_score ss)) (f.mul (f.lit 4 10) mean)) 2

  -- the vertices from the i-th on, so many of them
  abbrev pub vertices_from : (ℕ → W × W) → ℕ → ℕ → List (W × W)
  vertices_from vertex i zero = vertex i ∷ []
  vertices_from vertex i (suc k) = vertex i ∷ vertices_from vertex (suc i) k

module _ {W G : Type 0} ⦃f : Float W⦄ (trig : Trig W) (q : RouteRequest W G) where
  -- the speed in km/h, where it is positive
  abbrev pub speed_kmh : Option W
  speed_kmh =
      if f.lt zero_ q.vessel_speed_knots
      then when_nonzero (some (f.mul q.vessel_speed_knots (f.lit 1852 1000)))
      else none

  abbrev pub sampled : Option (Environment W) → ℕ → Environment W × List RouteWarning
  sampled none i = (no_environment, env_sample_failed i ∷ [])
  sampled (some e) i = (e, [])

  -- without a sampler all is 0
  abbrev pub leg_score :
      Option (W → W → Option (ℕ × W) → Option (Environment W))
      → W × W
      → W × W
      → Option (ℕ × W)
      → ℕ
      → Scored W × List RouteWarning
  leg_score none a b eta i = ((no_penalties, zero_, []), [])
  leg_score (some sampler) a b eta i =
      let mid = interpolate_great_circle trig a.0 a.1 b.0 b.1 (f.lit 5 10) in
      let e = sampled (sampler mid.0 mid.1 eta) i in
      (score_environment (record q.thresholds { vessel_type = q.vessel_type }) e.0, e.1)

  -- the hours of a segment
  abbrev pub leg_hours : W × W → W × W → Option W
  leg_hours a b = divided (haversine_km trig a.0 a.1 b.0 b.1) speed_kmh

  abbrev pub next_leg : Progress W → W × W → W × W → Scored W × List RouteWarning
  next_leg p a b =
      leg_score q.env_sampler a b
        (arrival q.departure_time speed_kmh p.cumulative_h (leg_hours a b)) (length p.segments)

  abbrev pub segment_of : Scored W → W × W → W × W → RouteSegment W
  segment_of scored a b = record {
    start = a;
    end = b;
    distance_km = haversine_km trig a.0 a.1 b.0 b.1;
    travel_time_hours = leg_hours a b;
    risk_score = scored.1;
    penalties = scored.0;
  }

  unfoldable pub add_leg : Bool → Progress W → W × W → W × W → Progress W
  unfolding add_zone score_environment
  add_leg meets p a b =
      let leg = next_leg p a b in
      let scored = add_zone meets leg.0 in
      record {
        segments = p.segments ++ segment_of scored a b ∷ [];
        driver_totals = add_totals scored.2 p.driver_totals;
        cumulative_h = after_hours p.cumulative_h (when_nonzero (leg_hours a b));
        warnings = p.warnings ++ leg.1;
      }

  unfoldable pub legs : Bool → Progress W → List (W × W) → Progress W
  unfolding add_leg
  legs meets p [] = p
  legs meets p (a ∷ []) = p
  legs meets p (a ∷ b ∷ vertices) = legs meets (add_leg meets p a b) (b ∷ vertices)

  abbrev pub segment_count : W → ℕ
  segment_count total_km =
      if f.lt zero_ q.segment_km then max 1 (trig.ceil (f.div total_km q.segment_km)) else 1

  unfoldable pub vertices_of : W × W → W × W → ℕ → List (W × W)
  vertices_of s e n =
      vertices_from (λ i. interpolate_great_circle trig s.0 s.1 e.0 e.1 (f.lit i n)) 0 n

  -- GeoJSON has the longitude first
  abbrev pub coordinates_of : List (W × W) → List (W × W)
  coordinates_of vertices = map (λ v. (f.round v.1 6, f.round v.0 6)) vertices

  abbrev pub one_if : Bool → RouteWarning → List RouteWarning
  one_if b w = if b then w ∷ [] else []

  abbrev pub has_sampler : Option (W → W → Option (ℕ × W) → Option (Environment W)) → Bool
  has_sampler none = false
  has_sampler (some sampler) = true

  abbrev pub distance_of : W × W → W × W → W
  distance_of s e = haversine_km trig s.0 s.1 e.0 e.1

  abbrev pub route_vertices : W × W → W × W → List (W × W)
  route_vertices s e = vertices_of s e (segment_count (distance_of s e))

  abbrev pub route_screen : W × W → W × W → List String × List RouteWarning
  route_screen s e = screen q.zone_checker (coordinates_of (route_vertices s e))

  abbrev pub begun : W × W → W × W → Progress W
  begun s e = record {
    segments = [];
    driver_totals = [];
    cumulative_h = zero_;
    warnings = one_if (is_zero (distance_of s e)) identical_points ++ (route_screen s e).1;
  }

  unfoldable pub route_between : W × W → W × W → RouteResult W
  unfolding screen legs vertices_of
  route_between s e =
      let avoided = (route_screen s e).0 in
      let done = legs (not (is_empty avoided)) (begun s e) (route_vertices s e) in
      let computed = has_sampler q.env_sampler in
      record {
        coordinates = coordinates_of (route_vertices s e);
        total_distance_km = distance_of s e;
        estimated_duration_hours = divided (distance_of s e) speed_kmh;
        route_risk_score = route_risk done.segments;
        segments = done.segments;
        avoided_zones = avoided;
        major_risk_drivers = major_drivers done.driver_totals;
        sources = q.sources;
        is_computed = computed;
        warnings = done.warnings ++ one_if (not computed) no_env_sampler;
      }

  abbrev pub route_of : Option (W × W) → Option (W × W) → Option (RouteResult W)
  route_of (some s) (some e) = some (route_between s e)
  route_of _ _ = none

  -- `none` for the ValueError of a point that is no point
  unfoldable pub compute_safe_route : Option (RouteResult W)
  unfolding route_between
  compute_safe_route =
      route_of (ensure_wgs84_point trig q.start.0 q.start.1)
        (ensure_wgs84_point trig q.end.0 q.end.1)
