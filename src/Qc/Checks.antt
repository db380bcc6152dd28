-- ===== src/Qc/Checks.antt =====
-- domain/qc.py. The texts of the details are left out.
use ocean_data_engine_fronte.Prelude.{
  ℕ, ◌+◌, String, str_eq, List, [], ◌∷◌, ◌++◌, Bool, true, false, not, ◌&&◌, ◌||◌, Option, none,
  some, keep, length, is_empty, max, leb, if◌then◌else◌,
}
use ocean_data_engine_fronte.Prelude.Float.{Float}

-- db/enums.py
pub data QcStatus : Type 0 where
  accepted rejected quarantined unknown : QcStatus

pub data CheckName : Type 0 where
  schema value_present physical_range spatial temporal : CheckName
  geometry_present geometry_valid validity_window : CheckName

pub record QcCheck : Type 0 where
  pub name : CheckName
  pub passed : Bool

pub record QcResult (W : Type 0) : Type 0 where
  pub status : QcStatus
  pub score : W
  pub checks : List QcCheck
  -- the checks whose details or names make up the reason; `none` for no reason
  pub reason : Option (List QcCheck)
  pub missing_flag : Bool
  pub outlier_flag : Bool
  pub interpolated_flag : Bool

-- A `datetime` with its zone, as the instant in microseconds, or without one, which is read as UTC.
pub data DateTime : Type 0 where
  naive aware : ℕ → DateTime

abbrev pub as_utc : DateTime → ℕ
as_utc (naive t) = t
as_utc (aware t) = t

-- the set `hard_fail_names`
abbrev pub is_hard : CheckName → Bool
is_hard schema = true
is_hard spatial = true
is_hard temporal = true
is_hard geometry_valid = true
is_hard validity_window = true
is_hard _ = false

abbrev pub check : CheckName → Bool → QcCheck
check name passed = record { name = name; passed = passed }

abbrev pub failed_of : List QcCheck → List QcCheck
failed_of checks = keep (λ c. not c.passed) checks

abbrev pub hard_failed_of : List QcCheck → List QcCheck
hard_failed_of checks = keep (λ c. is_hard c.name) (failed_of checks)

unfoldable pub status_of : List QcCheck → Bool → Bool → QcStatus
status_of checks missing outlier =
    if not (is_empty (hard_failed_of checks))
    then rejected
    else if outlier || missing
    then quarantined
    else accepted

unfoldable pub reason_of : List QcCheck → Bool → Bool → Option (List QcCheck)
reason_of checks missing outlier =
    if not (is_empty (hard_failed_of checks))
    then some (hard_failed_of checks)
    else if outlier || missing
    then some (failed_of checks)
    else none

-- at most 300 seconds ahead of the clock
abbrev pub temporal_ok : ℕ → DateTime → Bool
temporal_ok now at = leb (as_utc at) (now + 300_000_000)

abbrev pub temporal_checks : ℕ → Option DateTime → List QcCheck
temporal_checks now none = []
temporal_checks now (some at) = check temporal (temporal_ok now at) ∷ []

module _ {W : Type 0} ⦃f : Float W⦄ where
  -- round(1.0 - (len(failed) / total), 4)
  unfoldable pub score_of : List QcCheck → W
  score_of checks =
      f.round (f.sub (f.lit 1 1) (f.lit (length (failed_of checks)) (max 1 (length checks)))) 4

  unfoldable pub finalize : List QcCheck → Bool → Bool → Bool → QcResult W
  unfolding status_of reason_of score_of
  finalize checks missing outlier interpolated = record {
    status = status_of checks missing outlier;
    score = score_of checks;
    checks = checks;
    reason = reason_of checks missing outlier;
    missing_flag = missing;
    outlier_flag = outlier;
    interpolated_flag = interpolated;
  }

  abbrev whole : ℕ → W
  whole n = f.lit n 1

  abbrev minus : ℕ → W
  minus n = f.neg (f.lit n 1)

  -- PHYSICAL_RANGES
  abbrev range_table : List (String × W × W)
  range_table =
      ("sea_surface_temperature", minus 2, whole 40)
      ∷ ("chlorophyll_a", whole 0, whole 100)
      ∷ ("current_u", minus 5, whole 5)
      ∷ ("current_v", minus 5, whole 5)
      ∷ ("current_speed", whole 0, whole 10)
      ∷ ("significant_wave_height", whole 0, whole 30)
      ∷ ("wave_period", whole 0, whole 30)
      ∷ ("wave_direction", whole 0, whole 360)
      ∷ ("swell_height", whole 0, whole 30)
      ∷ ("sea_surface_salinity", whole 0, whole 45)
      ∷ ("wind_speed", whole 0, whole 120)
      ∷ ("wind_direction", whole 0, whole 360)
      ∷ ("wind_u", minus 90, whole 90)
      ∷ ("wind_v", minus 90, whole 90)
      ∷ ("gust_speed", whole 0, whole 120)
      ∷ ("rainfall_rate", whole 0, whole 500)
      ∷ ("rainfall_accumulation", whole 0, whole 2000)
      ∷ ("sea_level_pressure", whole 850, whole 1085)
      ∷ ("station_pressure", whole 500, whole 1085)
      ∷ ("humidity", whole 0, whole 100)
      ∷ ("water_level", minus 15, whole 15)
      ∷ []

  abbrev find_range : String → List (String × W × W) → Option (W × W)
  find_range name [] = none
  find_range name ((key, lo, hi) ∷ rows) =
      let rest = find_range name rows in if str_eq key name then some (lo, hi) else rest

  unfoldable pub physical_range_of : String → Option (W × W)
  physical_range_of parameter = find_range parameter range_table

  -- a parameter with no configured range passes
  abbrev pub within : Option (W × W) → W → Bool
  within none value = true
  within (some (lo, hi)) value = f.le lo value && f.le value hi

  abbrev pub valid_within : W → Option W → Bool
  valid_within limit none = false
  valid_within limit (some x) = f.le (f.neg limit) x && f.le x limit

  abbrev pub value_checks : String → Option W → List QcCheck
  value_checks parameter none = check value_present false ∷ []
  value_checks parameter (some value) =
      check value_present true
      ∷ check physical_range (within (physical_range_of parameter) value)
      ∷ []

  abbrev pub is_missing : Option W → Bool
  is_missing none = true
  is_missing (some value) = false

  abbrev pub is_outlier : String → Option W → Bool
  is_outlier parameter none = false
  is_outlier parameter (some value) = not (within (physical_range_of parameter) value)

  -- coordinates may be missing both, and must be valid both otherwise
  abbrev pub spatial_ok : Option W → Option W → Bool
  spatial_ok latitude longitude =
      valid_within (f.lit 90 1) latitude && valid_within (f.lit 180 1) longitude

  abbrev pub spatial_checks : Option W → Option W → List QcCheck
  spatial_checks latitude longitude =
      if is_missing latitude && is_missing longitude
      then []
      else check spatial (spatial_ok latitude longitude) ∷ []

  abbrev pub observation_checks :
      String → Option W → Option W → Option W → Option DateTime → ℕ → List QcCheck
  observation_checks parameter value latitude longitude observed_at now =
      check schema (not (str_eq parameter ""))
      ∷ (value_checks parameter value
          ++ (spatial_checks latitude longitude ++ temporal_checks now observed_at))

  unfoldable pub qc_observation :
      String → Option W → Option W → Option W → Option DateTime → ℕ → Bool → QcResult W
  unfolding finalize
  qc_observation parameter value latitude longitude observed_at now interpolated =
      finalize (observation_checks parameter value latitude longitude observed_at now)
        (is_missing value) (is_outlier parameter value) interpolated

-- What shapely answers for a geometry: that it cannot be loaded, or whether it is valid and empty.
pub data Loaded : Type 0 where
  load_failed : Loaded
  loaded : (is_valid is_empty_geometry : Bool) → Loaded

abbrev pub geometry_check : Option Loaded → QcCheck
geometry_check none = check geometry_present false
geometry_check (some load_failed) = check geometry_valid false
geometry_check (some (loaded v e)) = check geometry_valid (v || not e)

abbrev pub window_checks : Option DateTime → Option DateTime → List QcCheck
window_checks (some from) (some until) =
    check validity_window (leb (as_utc from) (as_utc until)) ∷ []
window_checks _ _ = []

abbrev pub no_geometry : Option Loaded → Bool
no_geometry none = true
no_geometry (some g) = false

module _ {W : Type 0} ⦃f : Float W⦄ where
  unfoldable pub qc_geometry_record : Option Loaded → Option DateTime → Option DateTime → QcResult W
  unfolding finalize
  qc_geometry_record geometry from until =
      finalize (geometry_check geometry ∷ window_checks from until) (no_geometry geometry) false
        false
