-- ===== src/Anomaly/Detect.antt =====
-- domain/anomaly.py: `compute_anomaly`, its two variants and `detect_anomalies`. The error function is a parameter, as the
-- percentile of a z-score. A `dict` is a list of its items.
use ocean_data_engine_fronte.Prelude.{
  String, str_eq, List, [], ◌∷◌, ◌++◌, Bool, true, false, not, ◌||◌, Option, none, some, is_empty,
  if◌then◌else◌,
}
use ocean_data_engine_fronte.Prelude.Float.{Float, zero_}

pub data Departure : Type 0 where
  normal warm cold high low : Departure
  warm_extreme cold_extreme high_extreme low_extreme : Departure

pub record AnomalyResult (W : Type 0) : Type 0 where
  pub current_value : W
  pub baseline_value : W
  pub anomaly : W
  pub percentile : Option W
  pub classification : Departure

pub data Category : Type 0 where
  moderate strong severe extreme : Category

pub data Driver (W : Type 0) : Type 0 where
  marine_heatwave : Category → W → Driver W
  sst_departure : Departure → W → Driver W
  oligotrophic_depletion : Driver W
  chlorophyll_departure : Departure → W → Driver W
  departure : String → Departure → W → Driver W

pub record AnomalyDetectionSummary (W : Type 0) : Type 0 where
  pub anomalies : List (String × AnomalyResult W)
  pub drivers : List (Driver W)
  pub mhw_detected : Bool
  pub mhw_category : Option Category
  pub anomaly_detected : Bool

abbrev pub is_normal : Departure → Bool
is_normal normal = true
is_normal _ = false

-- the `mapping` of SST labels; the labels that it lacks do not arise
abbrev pub warm_or_cold : Departure → Departure
warm_or_cold high_extreme = warm_extreme
warm_or_cold high = warm
warm_or_cold low_extreme = cold_extreme
warm_or_cold low = cold
warm_or_cold d = d

abbrev pub lookup : {A : Type 0} → String → List (String × A) → Option A
lookup key [] = none
lookup key ((k, v) ∷ items) = let rest = lookup key items in if str_eq k key then some v else rest

abbrev pub is_chlorophyll : String → Bool
is_chlorophyll param =
    str_eq param "chlorophyll" || (str_eq param "chlorophyll_a" || str_eq param "chl")

abbrev pub is_some : Option Category → Bool
is_some none = false
is_some (some c) = true

abbrev pub is_low : Departure → Bool
is_low low = true
is_low _ = false

abbrev pub keep_category : Option Category → Option Category → Option Category
keep_category none before = before
keep_category (some c) before = some c

module _ {W : Type 0} ⦃f : Float W⦄ where
  unfoldable pub z_band : W → Departure
  z_band z =
      if f.le (f.lit 2 1) z
      then high_extreme
      else if f.le (f.lit 1 1) z
      then high
      else if f.le z (f.neg (f.lit 2 1))
      then low_extreme
      else if f.le z (f.neg (f.lit 1 1))
      then low
      else normal

  unfoldable pub sign_band : W → Departure
  sign_band anomaly =
      if f.lt zero_ anomaly then high else if f.lt anomaly zero_ then low else normal

  -- std is not None and std > 0, which NaN is not
  abbrev pub positive : Option W → Bool
  positive none = false
  positive (some std) = f.lt zero_ std

  abbrev unscored : W → W → AnomalyResult W
  unscored current baseline = record {
    current_value = current;
    baseline_value = baseline;
    anomaly = f.sub current baseline;
    percentile = none;
    classification = sign_band (f.sub current baseline);
  }

  abbrev reclassify : Departure → AnomalyResult W → AnomalyResult W
  reclassify d r = record r { classification = d }

  unfoldable pub sst_band : W → Departure
  sst_band anomaly =
      if f.le (f.lit 1 1) anomaly
      then warm
      else if f.le anomaly (f.neg (f.lit 1 1))
      then cold
      else normal

  unfoldable pub chlorophyll_band : W → Departure
  chlorophyll_band rel =
      if f.le (f.lit 5 10) rel then high else if f.le rel (f.neg (f.lit 3 10)) then low else normal

  unfoldable pub mhw_category : W → Option Category
  mhw_category anomaly =
      if f.le (f.lit 4 1) anomaly
      then some extreme
      else if f.le (f.lit 3 1) anomaly
      then some severe
      else if f.le (f.lit 2 1) anomaly
      then some strong
      else if f.le (f.lit 1 1) anomaly
      then some moderate
      else none

  abbrev pub drivers_unless : Bool → Driver W → List (Driver W)
  drivers_unless skip d = if skip then [] else d ∷ []

  abbrev pub category_of : W → Option Category
  category_of anomaly = if f.lt zero_ anomaly then mhw_category anomaly else none

  abbrev pub heatwave_drivers : Option Category → W → List (Driver W)
  heatwave_drivers none anomaly = []
  heatwave_drivers (some c) anomaly = marine_heatwave c anomaly ∷ []

  abbrev pub add_result :
      String
      → AnomalyResult W
      → List (Driver W)
      → AnomalyDetectionSummary W
      → AnomalyDetectionSummary W
  add_result param r more s = record s {
    anomalies = s.anomalies ++ (param, r) ∷ [];
    drivers = s.drivers ++ more;
  }

  abbrev pub sst_step :
      String → AnomalyResult W → AnomalyDetectionSummary W → AnomalyDetectionSummary W
  sst_step param r s =
      let c = category_of r.anomaly in
      record (add_result param r
        (heatwave_drivers c r.anomaly
          ++ drivers_unless (is_normal r.classification) (sst_departure r.classification r.anomaly))
        s) {
          mhw_detected = is_some c || s.mhw_detected;
          mhw_category = keep_category c s.mhw_category;
        }

  abbrev pub chlorophyll_drivers : AnomalyResult W → List (Driver W)
  chlorophyll_drivers r =
      if is_low r.classification
      then oligotrophic_depletion ∷ []
      else drivers_unless (is_normal r.classification)
          (chlorophyll_departure r.classification r.anomaly)

  abbrev pub no_anomalies : AnomalyDetectionSummary W
  no_anomalies = record {
    anomalies = [];
    drivers = [];
    mhw_detected = false;
    mhw_category = none;
    anomaly_detected = false;
  }

  -- round(_normal_cdf(z) * 100.0, 3), with `_normal_cdf` over math.erf a parameter
  module _ (normal_cdf : W → W) where
    abbrev scored : W → W → W → AnomalyResult W
    scored current baseline std =
        let anomaly = f.sub current baseline in
        let z = f.div anomaly std in
        record {
          current_value = current;
          baseline_value = baseline;
          anomaly = anomaly;
          percentile = some (f.round (f.mul (normal_cdf z) (f.lit 100 1)) 3);
          classification = z_band z;
        }

    unfoldable pub compute_anomaly : W → W → Option W → AnomalyResult W
    compute_anomaly current baseline none = unscored current baseline
    compute_anomaly current baseline (some std) =
        if f.lt zero_ std then scored current baseline std else unscored current baseline

    unfoldable pub compute_sst_anomaly : W → W → Option W → AnomalyResult W
    compute_sst_anomaly sst baseline std =
        let result = compute_anomaly sst baseline std in
        reclassify
          (if positive std then warm_or_cold result.classification else sst_band result.anomaly)
          result

    unfoldable pub compute_chlorophyll_anomaly : W → W → Option W → AnomalyResult W
    compute_chlorophyll_anomaly chl baseline std =
        let result = compute_anomaly chl baseline std in
        if positive std
        then result
        else if f.lt zero_ baseline
        then reclassify (chlorophyll_band (f.div result.anomaly baseline)) result
        else result

    unfoldable pub evaluate :
        String → W → W → Option W → AnomalyDetectionSummary W → AnomalyDetectionSummary W
    evaluate param current baseline std s =
        let generic = compute_anomaly current baseline std in
        let chl = compute_chlorophyll_anomaly current baseline std in
        if str_eq param "sst"
        then sst_step param (compute_sst_anomaly current baseline std) s
        else if is_chlorophyll param
        then add_result param chl (chlorophyll_drivers chl) s
        else add_result param generic
            (drivers_unless (is_normal generic.classification)
              (departure param generic.classification generic.anomaly))
            s

    abbrev pub evaluate_if :
        String → W → Option W → Option W → AnomalyDetectionSummary W → AnomalyDetectionSummary W
    evaluate_if param current none std s = s
    evaluate_if param current (some baseline) std s = evaluate param current baseline std s

    unfoldable pub detect_from :
        List (String × W)
        → List (String × W)
        → List (String × W)
        → AnomalyDetectionSummary W
        → AnomalyDetectionSummary W
    detect_from [] baselines stds s = s
    detect_from ((param, current) ∷ values) baselines stds s =
        detect_from values baselines stds
          (evaluate_if param current (lookup param baselines) (lookup param stds) s)

    unfoldable pub detect_anomalies :
        List (String × W) → List (String × W) → List (String × W) → AnomalyDetectionSummary W
    unfolding detect_from
    detect_anomalies values baselines stds =
        let s = detect_from values baselines stds no_anomalies in
        record s { anomaly_detected = not (is_empty s.drivers) }
