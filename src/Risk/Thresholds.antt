-- ===== src/Risk/Thresholds.antt =====
-- domain/risk.py: the levels, the penalties and the thresholds of a vessel type.
use ocean_data_engine_fronte.Prelude.{ℕ, String, List, [], ◌∷◌, if◌then◌else◌}
use ocean_data_engine_fronte.Prelude.Text.{Text, codes, text_eq}
use ocean_data_engine_fronte.Prelude.Float.{Float}

pub data RiskLevel : Type 0 where
  low moderate high extreme : RiskLevel

pub record RiskThresholds (W : Type 0) : Type 0 where
  pub vessel_type : String
  pub wave_height_moderate : W
  pub wave_height_high : W
  pub wave_height_extreme : W
  pub wind_speed_moderate : W
  pub wind_speed_high : W
  pub wind_speed_extreme : W
  pub gust_moderate : W
  pub gust_high : W
  pub gust_extreme : W
  pub swell_height_moderate : W
  pub swell_height_high : W
  pub swell_height_extreme : W
  pub wave_period_min_comfortable : W
  pub wave_period_min_dangerous : W
  pub rainfall_moderate : W
  pub rainfall_high : W
  pub rainfall_extreme : W
  pub pressure_drop_moderate : W
  pub pressure_drop_high : W
  pub pressure_drop_extreme : W
  pub weight_wave_height : W
  pub weight_wind_speed : W
  pub weight_gust : W
  pub weight_swell : W
  pub weight_wave_period : W
  pub weight_rainfall : W
  pub weight_pressure : W

-- WARNING_SEVERITY_PENALTY.get(severity, …["unknown"]), as whole points
abbrev pub penalty_points : Text → ℕ
penalty_points severity =
    if text_eq severity (codes "extreme")
    then 45
    else if text_eq severity (codes "severe")
    then 30
    else if text_eq severity (codes "moderate")
    then 15
    else if text_eq severity (codes "minor")
    then 7
    else 15

module _ {W : Type 0} ⦃f : Float W⦄ where
  abbrev pub default_thresholds : RiskThresholds W
  default_thresholds = record {
    vessel_type = "default";
    wave_height_moderate = f.lit 2 1;
    wave_height_high = f.lit 4 1;
    wave_height_extreme = f.lit 6 1;
    wind_speed_moderate = f.lit 10 1;
    wind_speed_high = f.lit 17 1;
    wind_speed_extreme = f.lit 25 1;
    gust_moderate = f.lit 13 1;
    gust_high = f.lit 21 1;
    gust_extreme = f.lit 30 1;
    swell_height_moderate = f.lit 15 10;
    swell_height_high = f.lit 3 1;
    swell_height_extreme = f.lit 5 1;
    wave_period_min_comfortable = f.lit 6 1;
    wave_period_min_dangerous = f.lit 3 1;
    rainfall_moderate = f.lit 15 1;
    rainfall_high = f.lit 50 1;
    rainfall_extreme = f.lit 100 1;
    pressure_drop_moderate = f.lit 2 1;
    pressure_drop_high = f.lit 4 1;
    pressure_drop_extreme = f.lit 8 1;
    weight_wave_height = f.lit 14 10;
    weight_wind_speed = f.lit 12 10;
    weight_gust = f.lit 8 10;
    weight_swell = f.lit 1 1;
    weight_wave_period = f.lit 6 10;
    weight_rainfall = f.lit 5 10;
    weight_pressure = f.lit 7 10;
  }

  unfoldable pub classify : W → RiskLevel
  classify score =
      if f.le (f.lit 75 1) score
      then extreme
      else if f.le (f.lit 50 1) score
      then high
      else if f.le (f.lit 25 1) score
      then moderate
      else low

  unfoldable pub severity_penalty : Text → W
  severity_penalty severity = f.lit (penalty_points severity) 1

  -- (radius in km, penalty)
  abbrev pub cyclone_proximity_bands : List (W × W)
  cyclone_proximity_bands =
      (f.lit 100 1, f.lit 60 1)
      ∷ (f.lit 300 1, f.lit 40 1)
      ∷ (f.lit 500 1, f.lit 20 1)
      ∷ (f.lit 800 1, f.lit 8 1)
      ∷ []
