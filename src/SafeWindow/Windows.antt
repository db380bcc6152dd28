-- ===== src/SafeWindow/Windows.antt =====
-- domain/safe_window.py. Instants and the interval are microseconds; the interval is not negative.
use ocean_data_engine_fronte.Prelude.{
  ℕ, ◌+◌, List, [], ◌∷◌, Bool, true, false, ◌&&◌, ◌||◌, Option, none, some, any, length, ltb, leb,
  ◌==◌, if◌then◌else◌, min,
}
use ocean_data_engine_fronte.Prelude.Float.{Float, fmax}
use ocean_data_engine_fronte.Qc.Checks.{DateTime, as_utc}
use ocean_data_engine_fronte.Risk.Thresholds.{RiskThresholds}
use ocean_data_engine_fronte.Risk.Assess.{RiskInputs, assess_marine_risk}

pub data WindowClass : Type 0 where
  favourable moderate high_risk : WindowClass

pub record TimeWindow (W : Type 0) : Type 0 where
  pub start : ℕ
  pub end : ℕ
  pub classification : WindowClass
  pub risk_score : W
  pub wave_height_max : Option W
  pub wind_speed_max : Option W
  pub warning_active : Bool

abbrev pub same_class : WindowClass → WindowClass → Bool
same_class favourable favourable = true
same_class moderate moderate = true
same_class high_risk high_risk = true
same_class _ _ = false

-- [start, end) against [valid_from, valid_until]
unfoldable pub warning_overlaps : ℕ → ℕ → List (DateTime × DateTime) → Bool
warning_overlaps start end warnings_active =
    any (λ w. leb start (as_utc w.1) && leb (as_utc w.0) end) warnings_active

-- the fixed interval, or the next timestamp when it comes later than the start and sooner
unfoldable pub step_end : ℕ → ℕ → List DateTime → ℕ
step_end interval start [] = start + interval
step_end interval start (next ∷ later) =
    if ltb start (as_utc next) then min (start + interval) (as_utc next) else start + interval

module _ {W : Type 0} ⦃f : Float W⦄ where
  -- the cut points FAVOURABLE_MAX and MODERATE_MAX
  unfoldable pub classify_score : W → WindowClass
  classify_score score =
      if f.le score (f.lit 25 1)
      then favourable
      else if f.le score (f.lit 50 1)
      then moderate
      else high_risk

  abbrev pub step_inputs : Option W → Option W → ℕ → ℕ → RiskInputs W
  step_inputs wave wind start end = record {
    wave_height = wave;
    wave_period = none;
    swell_height = none;
    wind_speed = wind;
    wind_gust = none;
    rainfall = none;
    pressure = none;
    pressure_trend = none;
    active_warnings = [];
    cyclone_distance_km = none;
    valid_from = some start;
    valid_until = some end;
    sources = [];
  }

  -- under a warning max(score, MODERATE_MAX + 25.0), which is 75.0 exactly
  unfoldable pub step_score : RiskThresholds W → Option W → Option W → ℕ → ℕ → Bool → W
  step_score t wave wind start end overlapping =
      let score = (assess_marine_risk (step_inputs wave wind start end) t).risk_score in
      if overlapping then fmax score (f.lit 75 1) else score

  unfoldable pub step_window :
      RiskThresholds W → List (DateTime × DateTime) → Option W → Option W → ℕ → ℕ → TimeWindow W
  unfolding classify_score step_score warning_overlaps
  step_window t warnings_active wave wind start end =
      let overlapping = warning_overlaps start end warnings_active in
      let score = step_score t wave wind start end overlapping in
      record {
        start = start;
        end = end;
        classification = classify_score score;
        risk_score = score;
        wave_height_max = wave;
        wind_speed_max = wind;
        warning_active = overlapping;
      }

  unfoldable pub steps_of :
      RiskThresholds W
      → List (DateTime × DateTime)
      → ℕ
      → List DateTime
      → List (Option W)
      → List (Option W)
      → List (TimeWindow W)
  unfolding step_window step_end
  steps_of t warnings_active interval (at ∷ times) (wave ∷ waves) (wind ∷ winds) =
      step_window t warnings_active wave wind (as_utc at) (step_end interval (as_utc at) times)
      ∷ steps_of t warnings_active interval times waves winds
  steps_of t warnings_active interval _ _ _ = []

  abbrev pub max_opt : Option W → Option W → Option W
  max_opt none b = b
  max_opt (some a) none = some a
  max_opt (some a) (some b) = some (fmax a b)

  abbrev pub joins : TimeWindow W → TimeWindow W → Bool
  joins prev s = same_class prev.classification s.classification && leb s.start prev.end

  abbrev pub join : TimeWindow W → TimeWindow W → TimeWindow W
  join prev s = record prev {
    end = s.end;
    risk_score = fmax prev.risk_score s.risk_score;
    wave_height_max = max_opt prev.wave_height_max s.wave_height_max;
    wind_speed_max = max_opt prev.wind_speed_max s.wind_speed_max;
    warning_active = prev.warning_active || s.warning_active;
  }

  -- the rest of the loop, with the window that was appended last
  unfoldable pub merge_from : TimeWindow W → List (TimeWindow W) → List (TimeWindow W)
  merge_from prev [] = prev ∷ []
  merge_from prev (s ∷ steps) = elim (joins prev s) [
    | true ↦ merge_from (join prev s) steps
    | false ↦ prev ∷ merge_from s steps
  ]

  unfoldable pub merge_steps : List (TimeWindow W) → List (TimeWindow W)
  unfolding merge_from
  merge_steps [] = []
  merge_steps (s ∷ steps) = merge_from s steps

  -- `none` for the ValueError
  unfoldable pub compute_safe_windows :
      RiskThresholds W
      → List (DateTime × DateTime)
      → ℕ
      → List DateTime
      → List (Option W)
      → List (Option W)
      → Option (List (TimeWindow W))
  unfolding steps_of merge_steps
  compute_safe_windows t warnings_active interval times waves winds =
      if (length waves == length times) && (length winds == length times)
      then some (merge_steps (steps_of t warnings_active interval times waves winds))
      else none
