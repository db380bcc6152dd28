-- ===== src/Route/Parts.antt =====
-- services/routing.py: the data of a route and the scoring of a segment. The environment's sampler and the zone checker are parameters, with `none`
-- where they raise; the checker answers as those of Geofence do. The texts of the warnings are constructors.
use ocean_data_engine_fronte.Prelude.{
  ℕ, zero, suc, String, str_eq, List, [], ◌∷◌, ◌++◌, Bool, not, ◌&&◌, ◌||◌, Option, none, some,
  length, any, is_empty, max, if◌then◌else◌,
}
use ocean_data_engine_fronte.Prelude.Json.{JsonFields}
use ocean_data_engine_fronte.Prelude.Float.{Float, zero_, fmax, fmin}
use ocean_data_engine_fronte.Risk.Thresholds.{RiskThresholds}
use ocean_data_engine_fronte.Risk.Assess.{
  RiskFactor, ActiveWarning, RiskInputs, RiskAssessment, sum_of, assess_marine_risk,
}
use ocean_data_engine_fronte.Geofence.Zones.{ZoneSummary, Answer}

pub record Penalties (W : Type 0) : Type 0 where
  pub wave_penalty : W
  pub wind_penalty : W
  pub current_penalty : W
  pub hazard_penalty : W
  pub zone_penalty : W

pub record RouteSegment (W : Type 0) : Type 0 where
  pub start : W × W
  pub end : W × W
  pub distance_km : W
  pub travel_time_hours : Option W
  pub risk_score : W
  pub penalties : Penalties W

pub data RouteWarning : Type 0 where
  identical_points zones_not_screened zone_check_failed no_env_sampler : RouteWarning
  env_sample_failed : ℕ → RouteWarning

pub record RouteResult (W : Type 0) : Type 0 where
  -- longitudes and latitudes
  pub coordinates : List (W × W)
  pub total_distance_km : W
  pub estimated_duration_hours : Option W
  pub route_risk_score : W
  pub segments : List (RouteSegment W)
  pub avoided_zones : List String
  pub major_risk_drivers : List String
  pub sources : List JsonFields
  -- whether the status is `computed`, and `partial` otherwise
  pub is_computed : Bool
  pub warnings : List RouteWarning

-- what a sampler returns: the factors of the risk engine, and the current
pub record Environment (W : Type 0) : Type 0 where
  pub wave_height : Option W
  pub wave_period : Option W
  pub swell_height : Option W
  pub wind_speed : Option W
  pub wind_gust : Option W
  pub rainfall : Option W
  pub pressure : Option W
  pub pressure_trend : Option W
  pub active_warnings : List ActiveWarning
  pub cyclone_distance_km : Option W
  pub current_speed : Option W

-- the arguments of `compute_safe_route`; the time of arrival is the departure and the hours after it
pub record RouteRequest (W G : Type 0) : Type 0 where
  pub start : W × W
  pub end : W × W
  pub departure_time : Option ℕ
  pub vessel_type : String
  pub vessel_speed_knots : W
  pub thresholds : RiskThresholds W
  pub segment_km : W
  pub env_sampler : Option (W → W → Option (ℕ × W) → Option (Environment W))
  pub zone_checker : Option (List (W × W) → Option (Answer W G))
  pub sources : List JsonFields

-- the penalties and the score of a segment, with the factors behind them
abbrev pub Scored : Type 0 → Type 0
Scored W = Penalties W × W × List (RiskFactor W)

-- what the loop over the segments keeps
pub record Progress (W : Type 0) : Type 0 where
  pub segments : List (RouteSegment W)
  pub driver_totals : List (String × W)
  pub cumulative_h : W
  pub warnings : List RouteWarning

-- name in names
abbrev pub listed : String → List String → Bool
listed name names = any (λ n. str_eq n name) names

-- zone.get("name") or zone.get("zone_uid")
abbrev pub label : {W G : Type 0} → ZoneSummary W G → String
label s = if str_eq s.zone.parsed.name "" then s.zone.parsed.zone_uid else s.zone.parsed.name

unfoldable pub avoid : {W G : Type 0} → List (ZoneSummary W G) → List String → List String
avoid [] names = names
avoid (s ∷ zones) names = avoid zones (
    if not (str_eq (label s) "") && not (listed (label s) names)
    then names ++ label s ∷ []
    else names)

abbrev is_wave : String → Bool
is_wave name =
    str_eq name "wave_height" || (str_eq name "swell_height" || str_eq name "wave_period")

abbrev is_wind : String → Bool
is_wind name =
    str_eq name "wind_speed"
    || (str_eq name "wind_gust" || (str_eq name "pressure_trend" || str_eq name "rainfall"))

-- xs[:n]
abbrev take : {A : Type 0} → ℕ → List A → List A
take zero xs = []
take (suc n) [] = []
take (suc n) (x ∷ xs) = x ∷ take n xs

module _ {W : Type 0} ⦃f : Float W⦄ where
  abbrev pub no_penalties : Penalties W
  no_penalties = record {
    wave_penalty = zero_;
    wind_penalty = zero_;
    current_penalty = zero_;
    hazard_penalty = zero_;
    zone_penalty = zero_;
  }

  abbrev sum_where : (String → Bool) → List (RiskFactor W) → W → W
  sum_where p [] total = total
  sum_where p (x ∷ xs) total =
      sum_where p xs (if p x.name then f.add total x.contribution else total)

  unfoldable pub penalties_from_assessment : RiskAssessment W → Penalties W
  penalties_from_assessment a =
      let sum = sum_of (λ r. r.contribution) zero_ a.factors in
      let mean = f.div sum (f.lit (max 1 (length a.factors)) 1) in
      let hazard = if is_empty a.warnings then zero_ else fmax zero_ (f.sub a.risk_score mean) in
      record {
        wave_penalty = f.round (sum_where is_wave a.factors zero_) 3;
        wind_penalty = f.round (sum_where (λ n. not (is_wave n) && is_wind n) a.factors zero_) 3;
        current_penalty = f.round zero_ 3;
        hazard_penalty = f.round hazard 3;
        zone_penalty = f.round zero_ 3;
      }

  abbrev add_total : String → W → List (String × W) → List (String × W)
  add_total name c [] = (name, f.add zero_ c) ∷ []
  add_total name c ((n, t) ∷ totals) =
      let rest = add_total name c totals in
      if str_eq n name then (n, f.add t c) ∷ totals else (n, t) ∷ rest

  abbrev pub add_totals : List (RiskFactor W) → List (String × W) → List (String × W)
  add_totals [] totals = totals
  add_totals (r ∷ rs) totals = add_totals rs (add_total r.name r.contribution totals)

  -- sorted by total, the largest first, equal ones in their order
  abbrev place_total : String × W → List (String × W) → List (String × W)
  place_total x [] = x ∷ []
  place_total x (y ∷ ys) =
      let rest = place_total x ys in if f.lt x.1 y.1 then y ∷ rest else x ∷ y ∷ ys

  abbrev sort_totals : List (String × W) → List (String × W)
  sort_totals [] = []
  sort_totals (x ∷ xs) = place_total x (sort_totals xs)

  abbrev positive_names : List (String × W) → List String
  positive_names [] = []
  positive_names ((n, t) ∷ totals) =
      let rest = positive_names totals in if f.lt zero_ t then n ∷ rest else rest

  unfoldable pub major_drivers : List (String × W) → List String
  major_drivers totals = take 5 (positive_names (sort_totals totals))

  abbrev pub risk_inputs : Environment W → RiskInputs W
  risk_inputs e = record {
    wave_height = e.wave_height;
    wave_period = e.wave_period;
    swell_height = e.swell_height;
    wind_speed = e.wind_speed;
    wind_gust = e.wind_gust;
    rainfall = e.rainfall;
    pressure = e.pressure;
    pressure_trend = e.pressure_trend;
    active_warnings = e.active_warnings;
    cyclone_distance_km = e.cyclone_distance_km;
    valid_from = none;
    valid_until = none;
    sources = [];
  }

  -- the environment of a sampler that raises or returns nothing
  abbrev pub no_environment : Environment W
  no_environment = record {
    wave_height = none;
    wave_period = none;
    swell_height = none;
    wind_speed = none;
    wind_gust = none;
    rainfall = none;
    pressure = none;
    pressure_trend = none;
    active_warnings = [];
    cyclone_distance_km = none;
    current_speed = none;
  }

  abbrev pub current_penalty : W → W
  current_penalty cs =
      f.round (fmin (f.lit 100 1) (fmax zero_ (f.mul (f.sub cs (f.lit 5 10)) (f.lit 40 1)))) 3

  abbrev pub add_current : Option W → Penalties W → W → Penalties W × W
  add_current none p risk = (p, risk)
  add_current (some cs) p risk = (
    record p { current_penalty = current_penalty cs },
    fmin (f.lit 100 1) (f.add risk (f.mul (current_penalty cs) (f.lit 3 10))),
  )

  unfoldable pub score_environment : RiskThresholds W → Environment W → Scored W
  unfolding penalties_from_assessment
  score_environment thresholds e =
      let a = assess_marine_risk (risk_inputs e) thresholds in
      let scored = add_current e.current_speed (penalties_from_assessment a) a.risk_score in
      (scored.0, scored.1, a.factors)

  -- the flat penalty if any zone meets the route
  unfoldable pub add_zone : Bool → Scored W → Scored W
  add_zone meets s =
      if meets
      then (
        record s.0 { zone_penalty = f.lit 20 1 },
        fmin (f.lit 100 1) (f.add s.1 (f.lit 20 1)),
        s.2,
      )
      else s
