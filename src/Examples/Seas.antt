-- ===== src/Examples/Seas.antt =====
-- Risk, sea state, the safety gate and the operating windows on a calm and on a rough day, over thousandths.
use ocean_data_engine_fronte.Prelude.{
  inr, ◌≤◌, ◌≡◌, ◌↔◌, refl, inl, List, [], ◌∷◌, ◌++◌, true, false, Option, none, some, arith, All,
}
use ocean_data_engine_fronte.Prelude.Text.{Text, codes}
use ocean_data_engine_fronte.Prelude.Fixed.{Fixed, fixed_float, fixed-IsIeee}
use ocean_data_engine_fronte.Qc.Checks.{DateTime, aware}
use ocean_data_engine_fronte.Risk.Thresholds.{default_thresholds}
use ocean_data_engine_fronte.Risk.Assess.{ActiveWarning, RiskInputs, valid, assess_marine_risk}
use ocean_data_engine_fronte.Risk.Bounds.{risk_score_bounds, warning_monotone}
use ocean_data_engine_fronte.SeaState.Parse.{
  SeaStateBand, collapse, normalise, split_span, codes_of, sorted_set, band_of, term_to_code,
  min_of, max_of, parse_sea_state_category,
}
use ocean_data_engine_fronte.SeaState.Conservative.{Covers, parse_sea_state_category-Covers}
use ocean_data_engine_fronte.SafetyGate.Gate.{
  cleared, not_cleared, wind_unavailable, sea_state_unknown, GateInputs, has_reason, zone_scan,
  hazard_reasons, evaluate_safety_gate,
}
use ocean_data_engine_fronte.SafetyGate.Clearance.{IsClear, cleared_iff}
use ocean_data_engine_fronte.SafetyGate.Reasons.{
  count_reason, NoSeaState, missing_evidence, reasons_unique,
}
use ocean_data_engine_fronte.SafeWindow.Windows.{
  TimeWindow, step_end, step_window, steps_of, merge_steps, compute_safe_windows,
}
use ocean_data_engine_fronte.SafeWindow.Merged.{IsSound}
use ocean_data_engine_fronte.SafeWindow.Warned.{IsAlarmed, compute_safe_windows-IsAlarmed}
use ocean_data_engine_fronte.SafeWindow.Cover.{IsCoveredBy, compute_safe_windows-covers}

abbrev gale : ActiveWarning
gale = record {
  severity = some (codes "severe");
  event_type = some (codes "gale");
  headline = none;
}

abbrev rough : RiskInputs Fixed
rough = record {
  wave_height = some (some 3500);
  wave_period = none;
  swell_height = none;
  wind_speed = some (some 14000);
  wind_gust = some none;
  rainfall = none;
  pressure = none;
  pressure_trend = none;
  active_warnings = [];
  cyclone_distance_km = some (some 250000);
  valid_from = none;
  valid_until = none;
  sources = [];
}

risk_score_bounds_example :
    (fixed_float.le (some 0) (assess_marine_risk rough default_thresholds).risk_score ≡ true)
    × (fixed_float.le (assess_marine_risk rough default_thresholds).risk_score (some 100000) ≡ true)
risk_score_bounds_example = risk_score_bounds fixed-IsIeee rough default_thresholds

warning_monotone_example :
    fixed_float.le
      (assess_marine_risk rough default_thresholds).risk_score
      (assess_marine_risk
        (record rough { active_warnings = gale ∷ [] })
        default_thresholds).risk_score
    ≡ true
warning_monotone_example = warning_monotone fixed-IsIeee rough default_thresholds gale

abbrev moderate_to_rough : Text
moderate_to_rough = codes "Moderate to rough"

abbrev rough_band : SeaStateBand Fixed
rough_band = record {
  category = codes "Moderate to rough";
  normalised = codes "moderate to rough";
  band_codes = 4 ∷ 5 ∷ [];
  labels = "moderate" ∷ "rough" ∷ [];
  min_height_m = some 1250;
  max_height_m = some 4000;
  open_ended = false;
}

rough_band_parsed : parse_sea_state_category (some moderate_to_rough) ≡ some rough_band
unfolding parse_sea_state_category collapse normalise split_span codes_of sorted_set band_of
    term_to_code min_of max_of
rough_band_parsed = refl

parse_sea_state_category-Covers_example :
    All (Covers fixed-IsIeee rough_band) (split_span (normalise (collapse moderate_to_rough)))
parse_sea_state_category-Covers_example =
    parse_sea_state_category-Covers fixed-IsIeee moderate_to_rough rough_band rough_band_parsed

abbrev calm : GateInputs Fixed
calm = record {
  wave_height = some (some 800);
  wind_speed = some (some 4000);
  tide_level = none;
  swell_height = none;
  wave_period = none;
  wind_gust = none;
  sea_state_category = none;
  rainfall = none;
  pressure_trend = none;
  active_warnings = [];
  cyclone_distance_km = none;
  restricted_zone_intersections = [];
  route_risk_complete = true;
  require_tide = false;
  valid_from = none;
  valid_until = none;
  sources = [];
}

abbrev no_wind : GateInputs Fixed
no_wind = record calm { wind_speed = some none; active_warnings = gale ∷ [] }

cleared_iff_example :
    ((evaluate_safety_gate calm default_thresholds).safety_status ≡ cleared)
    ↔ IsClear calm default_thresholds
cleared_iff_example = cleared_iff calm default_thresholds

missing_evidence_example :
    let d = evaluate_safety_gate no_wind default_thresholds in
    (d.safety_status ≡ not_cleared)
    × (d.insufficient_data ≡ true)
    × (valid no_wind.wind_speed ≡ false → has_reason wind_unavailable d.reasons ≡ true)
    × (NoSeaState no_wind default_thresholds → has_reason sea_state_unknown d.reasons ≡ true)
missing_evidence_example = missing_evidence no_wind default_thresholds (inl refl)

reasons_unique_example :
    let d = evaluate_safety_gate no_wind default_thresholds in
    (count_reason wind_unavailable d.reasons ≤ 1)
    × (has_reason wind_unavailable d.reasons
        ≡ has_reason wind_unavailable
            ((zone_scan no_wind).0 ++ hazard_reasons no_wind default_thresholds))
reasons_unique_example = reasons_unique no_wind default_thresholds wind_unavailable

-- three steps of three hours, with a warning over the last one
abbrev times : List DateTime
times = aware 0 ∷ aware 10_800_000_000 ∷ aware 21_600_000_000 ∷ []

abbrev waves : List (Option Fixed)
waves = some (some 800) ∷ some (some 900) ∷ none ∷ []

abbrev winds : List (Option Fixed)
winds = some (some 4000) ∷ some (some 5000) ∷ some (some 5000) ∷ []

abbrev warnings_active : List (DateTime × DateTime)
warnings_active = (aware 22_000_000_000, aware 30_000_000_000) ∷ []

abbrev windows : List (TimeWindow Fixed)
windows = merge_steps (steps_of default_thresholds warnings_active 10_800_000_000 times waves winds)

windows_computed :
    compute_safe_windows default_thresholds warnings_active 10_800_000_000 times waves winds
    ≡ some windows
unfolding compute_safe_windows
windows_computed = refl

-- the step under the warning
abbrev evening : TimeWindow Fixed
evening =
    step_window default_thresholds warnings_active none (some (some 5000)) 21_600_000_000
      32_400_000_000

compute_safe_windows-IsAlarmed_example : IsAlarmed windows evening × All IsSound windows
unfolding steps_of step_end
compute_safe_windows-IsAlarmed_example =
    compute_safe_windows-IsAlarmed fixed-IsIeee default_thresholds warnings_active 10_800_000_000
      times waves winds windows evening (aware 22_000_000_000, aware 30_000_000_000)
      (omega arith, (omega arith, tt)) windows_computed (inr (inr (inl refl))) (inl refl)
      (omega arith) (omega arith)

compute_safe_windows-covers_example :
    All
      (IsCoveredBy windows)
      (steps_of default_thresholds warnings_active 10_800_000_000 times waves winds)
compute_safe_windows-covers_example =
    compute_safe_windows-covers fixed-IsIeee default_thresholds warnings_active 10_800_000_000 times
      waves winds windows (omega arith, (omega arith, tt)) windows_computed
