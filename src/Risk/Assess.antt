-- ===== src/Risk/Assess.antt =====
-- domain/risk.py `assess_marine_risk` and its helpers.
use ocean_data_engine_fronte.Prelude.{
  ℕ, String, List, [], ◌∷◌, ◌++◌, Bool, false, not, ◌&&◌, Option, none, some, if◌then◌else◌,
}
use ocean_data_engine_fronte.Prelude.Json.{JsonFields}
use ocean_data_engine_fronte.Prelude.Text.{Text, codes, lower}
use ocean_data_engine_fronte.Prelude.Float.{Float, zero_, fmax, fmin, fabs}
use ocean_data_engine_fronte.Risk.Thresholds.{
  RiskLevel, RiskThresholds, classify, severity_penalty, cyclone_proximity_bands,
}

pub record RiskFactor (W : Type 0) : Type 0 where
  pub name : String
  pub value : W
  pub threshold_low : W
  pub threshold_high : W
  pub weight : W
  pub contribution : W

-- one of the dictionaries of `active_warnings`; `none` for a key that is missing
pub record ActiveWarning : Type 0 where
  pub severity : Option Text
  pub event_type : Option Text
  pub headline : Option Text

-- the entries of `warnings`, with what their texts show
pub data RiskNote (W : Type 0) : Type 0 where
  source_gap : RiskNote W
  warned : (severity label : Text) → (penalty : W) → RiskNote W
  cyclone_within : (distance radius penalty : W) → RiskNote W
  driver : String → W → RiskNote W

pub record RiskInputs (W : Type 0) : Type 0 where
  pub wave_height : Option W
  pub wave_period : Option W
  pub swell_height : Option W
  pub wind_speed : Option W
  pub wind_gust : Option W
  pub rainfall : Option W
  pub pressure : Option W
  pub pressure_trend : Option W
  pub active_warnings : List ActiveWarning
  pub cyclone_distance_km : Option W
  pub valid_from : Option ℕ
  pub valid_until : Option ℕ
  pub sources : List JsonFields

pub record RiskAssessment (W : Type 0) : Type 0 where
  pub risk_score : W
  pub risk_level : RiskLevel
  pub factors : List (RiskFactor W)
  pub warnings : List (RiskNote W)
  pub valid_from : Option ℕ
  pub valid_until : Option ℕ
  pub sources : List JsonFields

-- `a or b`, for texts that may be missing
abbrev pub or_text : Option Text → Text → Text
or_text none t = t
or_text (some []) t = t
or_text (some (c ∷ s)) t = c ∷ s

abbrev pub label_of : ActiveWarning → Text
label_of w = or_text w.event_type (or_text w.headline (codes "warning"))

unfoldable pub severity_of : ActiveWarning → Text
unfolding lower
severity_of w = lower (elim w.severity [ none ↦ codes "unknown" | some s ↦ s ])

module _ {W : Type 0} ⦃f : Float W⦄ where
  abbrev pub valid : Option W → Bool
  valid none = false
  valid (some x) = not (f.isnan x)

  unfoldable pub band_fraction : W → W → W → W
  band_fraction value low high =
      if f.le high low
      then (if f.le high value then f.lit 1 1 else f.lit 0 1)
      else if f.le value low
      then f.lit 0 1
      else if f.le high value
      then f.lit 1 1
      else f.div (f.sub value low) (f.sub high low)

  unfoldable pub inverse_band_fraction : W → W → W → W
  inverse_band_fraction value comfortable dangerous =
      if f.le comfortable dangerous
      then (if f.le value dangerous then f.lit 1 1 else f.lit 0 1)
      else if f.le comfortable value
      then f.lit 0 1
      else if f.le value dangerous
      then f.lit 1 1
      else f.div (f.sub comfortable value) (f.sub comfortable dangerous)

  abbrev pub scored : String → W → W → W → W → W → RiskFactor W
  scored name value low high weight fraction = record {
    name = name;
    value = value;
    threshold_low = low;
    threshold_high = high;
    weight = weight;
    contribution = f.mul (f.mul fraction (f.lit 100 1)) weight;
  }

  abbrev pub add_valid : String → W → W → W → W → List (RiskFactor W) → List (RiskFactor W)
  add_valid name value low high weight factors =
      if f.isnan value
      then factors
      else factors ++ scored name value low high weight (band_fraction value low high) ∷ []

  unfoldable pub add_factor :
      String → Option W → W → W → W → List (RiskFactor W) → List (RiskFactor W)
  unfolding band_fraction
  add_factor name none low high weight factors = factors
  add_factor name (some value) low high weight factors =
      add_valid name value low high weight factors

  -- with `inverse` and a `danger`
  unfoldable pub add_inverse :
      String → Option W → W → W → W → List (RiskFactor W) → List (RiskFactor W)
  unfolding inverse_band_fraction
  add_inverse name none low danger weight factors = factors
  add_inverse name (some value) low danger weight factors =
      if f.isnan value
      then factors
      else factors
        ++ scored name value danger low weight (inverse_band_fraction value low danger) ∷ []

  -- the magnitude of a falling pressure
  unfoldable pub add_pressure :
      Option W → RiskThresholds W → List (RiskFactor W) → List (RiskFactor W)
  unfolding band_fraction
  add_pressure none t factors = factors
  add_pressure (some trend) t factors =
      if not (f.isnan trend) && f.lt trend zero_
      then factors
        ++ scored "pressure_trend" trend (f.neg t.pressure_drop_moderate)
            (f.neg t.pressure_drop_extreme) t.weight_pressure
            (band_fraction (fabs trend) t.pressure_drop_moderate t.pressure_drop_extreme)
          ∷ []
      else factors

  unfoldable pub environmental_factors : RiskInputs W → RiskThresholds W → List (RiskFactor W)
  unfolding add_factor add_inverse add_pressure
  environmental_factors i t = add_pressure i.pressure_trend t (
      add_factor "rainfall" i.rainfall t.rainfall_moderate t.rainfall_extreme t.weight_rainfall (
        add_inverse "wave_period" i.wave_period t.wave_period_min_comfortable
          t.wave_period_min_dangerous t.weight_wave_period
          (add_factor "swell_height" i.swell_height t.swell_height_moderate t.swell_height_extreme
            t.weight_swell
            (add_factor "wind_gust" i.wind_gust t.gust_moderate t.gust_extreme t.weight_gust (
              add_factor "wind_speed" i.wind_speed t.wind_speed_moderate t.wind_speed_extreme
                t.weight_wind_speed
                (add_factor "wave_height" i.wave_height t.wave_height_moderate t.wave_height_extreme
                  t.weight_wave_height []))))))

  -- sum(…), which starts at 0
  abbrev pub sum_of : (RiskFactor W → W) → W → List (RiskFactor W) → W
  sum_of g acc [] = acc
  sum_of g acc (x ∷ xs) = sum_of g (f.add acc (g x)) xs

  -- the truth value of a float
  abbrev pub is_zero : W → Bool
  is_zero x = f.le x zero_ && f.le zero_ x

  unfoldable pub base_score : List (RiskFactor W) → W
  base_score [] = f.lit 0 1
  base_score (x ∷ xs) =
      let total = sum_of (λ r. r.weight) zero_ (x ∷ xs) in
      if is_zero total then f.lit 0 1 else f.div (sum_of (λ r. r.contribution) zero_ (x ∷ xs)) total

  abbrev pub gap_notes : List (RiskFactor W) → List (RiskNote W)
  gap_notes [] = source_gap ∷ []
  gap_notes (x ∷ xs) = []

  unfoldable pub add_warnings : W → List ActiveWarning → W
  unfolding severity_penalty severity_of
  add_warnings score [] = score
  add_warnings score (w ∷ ws) = add_warnings (f.add score (severity_penalty (severity_of w))) ws

  unfoldable pub warning_notes : List ActiveWarning → List (RiskNote W)
  unfolding severity_penalty severity_of
  warning_notes [] = []
  warning_notes (w ∷ ws) =
      warned (severity_of w) (label_of w) (severity_penalty (severity_of w)) ∷ warning_notes ws

  -- the nearest matching band
  unfoldable pub nearest_band : W → List (W × W) → Option (W × W)
  nearest_band distance [] = none
  nearest_band distance ((radius, penalty) ∷ bands) =
      let rest = nearest_band distance bands in
      if f.le distance radius then some (radius, penalty) else rest

  abbrev pub add_band : W → W → Option (W × W) → W × List (RiskNote W)
  add_band distance score none = (score, [])
  add_band distance score (some (radius, penalty)) =
      (f.add score penalty, cyclone_within distance radius penalty ∷ [])

  unfoldable pub add_cyclone : Option W → W → W × List (RiskNote W)
  unfolding nearest_band
  add_cyclone none score = (score, [])
  add_cyclone (some distance) score =
      if f.isnan distance
      then (score, [])
      else add_band distance score (nearest_band distance cyclone_proximity_bands)

  -- max(0.0, min(100.0, score))
  unfoldable pub clamp : W → W
  clamp score = fmax (f.lit 0 1) (fmin (f.lit 100 1) score)

  -- sorted by contribution, the largest first, equal ones in their order
  abbrev place : RiskFactor W → List (RiskFactor W) → List (RiskFactor W)
  place x [] = x ∷ []
  place x (y ∷ ys) = if f.lt x.contribution y.contribution then y ∷ place x ys else x ∷ y ∷ ys

  abbrev by_contribution : List (RiskFactor W) → List (RiskFactor W)
  by_contribution [] = []
  by_contribution (x ∷ xs) = place x (by_contribution xs)

  abbrev drivers_in : List (RiskFactor W) → List (RiskNote W)
  drivers_in [] = []
  drivers_in (x ∷ xs) =
      let rest = drivers_in xs in
      if f.le (f.lit 25 1) x.contribution then driver x.name x.value ∷ rest else rest

  unfoldable pub driver_notes : List (RiskFactor W) → List (RiskNote W)
  driver_notes factors = drivers_in (by_contribution factors)

  unfoldable pub total_score : RiskInputs W → RiskThresholds W → W
  unfolding environmental_factors base_score add_warnings add_cyclone clamp
  total_score i t =
      clamp
        (add_cyclone i.cyclone_distance_km
          (add_warnings (base_score (environmental_factors i t)) i.active_warnings)).0

  unfoldable pub assess_marine_risk : RiskInputs W → RiskThresholds W → RiskAssessment W
  unfolding total_score classify warning_notes driver_notes
  assess_marine_risk i t =
      let factors = environmental_factors i t in
      let score = total_score i t in
      record {
        risk_score = score;
        risk_level = classify score;
        factors = factors;
        warnings =
            gap_notes factors
            ++ (warning_notes i.active_warnings
                ++ ((add_cyclone i.cyclone_distance_km score).1 ++ driver_notes factors));
        valid_from = i.valid_from;
        valid_until = i.valid_until;
        sources = i.sources;
      }
