-- ===== src/Suitability/SubScores.antt =====
-- domain/suitability.py: the weights, the classes and the sub-scores of `assess_fishing_suitability`.
use ocean_data_engine_fronte.Prelude.{List, [], ◌∷◌, Bool, ◌&&◌, Option, none, some, if◌then◌else◌}
use ocean_data_engine_fronte.Prelude.Float.{Float, zero_, fmax, fmin}

pub record SuitabilityWeights (W : Type 0) : Type 0 where
  pub sst_ideal_low : W
  pub sst_ideal_high : W
  pub sst_tolerance : W
  pub chl_good : W
  pub chl_excellent : W
  pub chl_bloom_cap : W
  pub current_ideal : W
  pub current_max : W
  pub wave_comfortable : W
  pub wave_max : W
  pub wind_comfortable : W
  pub wind_max : W
  pub pfz_near_km : W
  pub pfz_far_km : W
  pub weight_sst : W
  pub weight_chlorophyll : W
  pub weight_anomaly : W
  pub weight_current : W
  pub weight_pfz : W
  pub weight_safety : W

pub data SuitabilityClass : Type 0 where
  excellent good moderate poor unsuitable : SuitabilityClass

module _ {W : Type 0} ⦃f : Float W⦄ where
  abbrev pub default_weights : SuitabilityWeights W
  default_weights = record {
    sst_ideal_low = f.lit 26 1;
    sst_ideal_high = f.lit 30 1;
    sst_tolerance = f.lit 4 1;
    chl_good = f.lit 3 10;
    chl_excellent = f.lit 1 1;
    chl_bloom_cap = f.lit 20 1;
    current_ideal = f.lit 5 10;
    current_max = f.lit 15 10;
    wave_comfortable = f.lit 15 10;
    wave_max = f.lit 3 1;
    wind_comfortable = f.lit 8 1;
    wind_max = f.lit 15 1;
    pfz_near_km = f.lit 25 1;
    pfz_far_km = f.lit 100 1;
    weight_sst = f.lit 12 10;
    weight_chlorophyll = f.lit 13 10;
    weight_anomaly = f.lit 6 10;
    weight_current = f.lit 7 10;
    weight_pfz = f.lit 15 10;
    weight_safety = f.lit 1 1;
  }

  -- x >= y and x > y
  abbrev pub ge : W → W → Bool
  ge x y = f.le y x

  abbrev pub one : W
  one = f.lit 1 1

  -- `_valid`: a value that is there and is a number
  abbrev pub when_valid : Option W → Option W
  when_valid none = none
  when_valid (some v) = if f.isnan v then none else some v

  unfoldable pub classify : W → SuitabilityClass
  classify score =
      if ge score (f.lit 80 1)
      then excellent
      else if ge score (f.lit 60 1)
      then good
      else if ge score (f.lit 40 1)
      then moderate
      else if ge score (f.lit 20 1)
      then poor
      else unsuitable

  unfoldable pub sst_score : W → SuitabilityWeights W → W
  sst_score sst w =
      let dist =
        if f.lt sst w.sst_ideal_low
        then f.sub w.sst_ideal_low sst
        else f.sub sst w.sst_ideal_high in
      if f.le w.sst_ideal_low sst && f.le sst w.sst_ideal_high
      then one
      else if f.le w.sst_tolerance zero_
      then zero_
      else fmax zero_ (f.sub one (f.div dist w.sst_tolerance))

  -- max(1e-6, x)
  abbrev span_of : W → W
  span_of x = fmax (f.lit 1 1_000_000) x

  unfoldable pub chl_score : W → SuitabilityWeights W → W
  chl_score chl w =
      let taper = span_of (f.sub w.chl_bloom_cap w.chl_excellent) in
      let ramp = span_of (f.sub w.chl_excellent w.chl_good) in
      if ge chl w.chl_bloom_cap
      then zero_
      else if f.le chl zero_
      then zero_
      else if ge chl w.chl_excellent
      then fmax (f.lit 3 10)
          (f.sub one (f.div (f.mul (f.lit 7 10) (f.sub chl w.chl_excellent)) taper))
      else if ge chl w.chl_good
      then f.add (f.lit 6 10) (f.div (f.mul (f.lit 4 10) (f.sub chl w.chl_good)) ramp)
      else f.mul (f.lit 6 10) (f.div chl (span_of w.chl_good))

  unfoldable pub current_score : W → SuitabilityWeights W → W
  current_score speed w =
      if f.le speed zero_
      then f.lit 3 10
      else if ge speed w.current_max
      then zero_
      else if f.le speed w.current_ideal
      then f.add (f.lit 3 10) (f.mul (f.lit 7 10) (f.div speed (span_of w.current_ideal)))
      else fmax zero_ (
          f.sub one
            (f.div (f.sub speed w.current_ideal) (span_of (f.sub w.current_max w.current_ideal))))

  -- 1 up to `low`, 0 from `high` on, and linear between them
  abbrev pub falling : W → W → W → W
  falling low high x =
      if f.le x low
      then one
      else if ge x high
      then zero_
      else f.sub one (f.div (f.sub x low) (f.sub high low))

  abbrev pub part_of : W → W → Option W → List W
  part_of low high none = []
  part_of low high (some x) = falling low high x ∷ []

  -- min(parts), and `none` for no part
  abbrev pub least : List W → Option W
  least [] = none
  least (x ∷ xs) = elim (least xs) [ none ↦ some x | some y ↦ some (fmin x y) ]

  abbrev pub both_parts : List W → List W → List W
  both_parts [] ys = ys
  both_parts (x ∷ xs) ys = x ∷ ys

  unfoldable pub safety_score : Option W → Option W → SuitabilityWeights W → Option W
  safety_score wave wind w = least (
      both_parts (part_of w.wave_comfortable w.wave_max (when_valid wave))
        (part_of w.wind_comfortable w.wind_max (when_valid wind)))

  unfoldable pub pfz_score : W → SuitabilityWeights W → W
  pfz_score distance_km w = falling w.pfz_near_km w.pfz_far_km distance_km
