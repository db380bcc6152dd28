-- ===== src/Examples/Fishing.antt =====
-- Fishing suitability and anomalies at concrete values.
use ocean_data_engine_fronte.Prelude.{◌≡◌, refl, String, List, [], ◌∷◌, true, none, some}
use ocean_data_engine_fronte.Prelude.Text.{Text, codes}
use ocean_data_engine_fronte.Prelude.Fixed.{Fixed, fixed_float, fixed-IsIeee}
use ocean_data_engine_fronte.Suitability.SubScores.{default_weights, safety_score}
use ocean_data_engine_fronte.Suitability.Assess.{SuitabilityInputs, assess_fishing_suitability}
use ocean_data_engine_fronte.Suitability.Safety.{
  AreBands, InUnit, wave_factor, wind_factor, safety_score_lem,
}
use ocean_data_engine_fronte.Suitability.Hazards.{suitability_score_lem}

abbrev warm_and_calm : SuitabilityInputs Fixed
warm_and_calm = record {
  sst = some (some 28000);
  chlorophyll = some (some 500);
  sst_anomaly = none;
  chlorophyll_anomaly = none;
  current_speed = none;
  wave_height = some (some 1000);
  wind_speed = some (some 5000);
  pfz_distance_km = none;
  ecological_hazards = [];
  fishery_advisories = [];
  sources = [];
}

abbrev bloom : Text
bloom = codes "Harmful Algal Bloom"

suitability_score_example :
    (fixed_float.le
        (fixed_float.lit 0 1)
        (assess_fishing_suitability warm_and_calm default_weights).score
      ≡ true)
    × (fixed_float.le
          (assess_fishing_suitability warm_and_calm default_weights).score
          (fixed_float.lit 100 1)
        ≡ true)
    × (fixed_float.le
          (assess_fishing_suitability
            (record warm_and_calm { ecological_hazards = bloom ∷ [] })
            default_weights).score
          (assess_fishing_suitability warm_and_calm default_weights).score
        ≡ true)
    × (fixed_float.le
          (assess_fishing_suitability
            (record warm_and_calm { fishery_advisories = bloom ∷ [] })
            default_weights).score
          (assess_fishing_suitability warm_and_calm default_weights).score
        ≡ true)
suitability_score_example = suitability_score_lem fixed-IsIeee warm_and_calm default_weights bloom

default-AreBands : AreBands fixed-IsIeee default_weights
default-AreBands = ((refl, refl, refl), (refl, refl, refl))

safety_score_example :
    (s : Fixed) × (t : Fixed) × (safety_score (some (some 2000)) (some (some 9000)) default_weights
      ≡ some s)
    × (safety_score (some (some 2500)) (some (some 9000)) default_weights ≡ some t)
    × InUnit fixed-IsIeee s
    × (fixed_float.le s (wave_factor fixed-IsIeee default_weights default-AreBands (some 2000))
        ≡ true)
    × (fixed_float.le s (wind_factor fixed-IsIeee default_weights default-AreBands (some 9000))
        ≡ true)
    × (fixed_float.le t s ≡ true)
safety_score_example =
    safety_score_lem fixed-IsIeee default_weights default-AreBands (some 2000) (some 2500)
      (some 9000) refl refl

-- the middle of the distribution for every z-score
abbrev half : Fixed → Fixed
half z = some 500

abbrev today : List (String × Fixed)
today = ("sst", some 31500) ∷ ("chl", some 400) ∷ []

abbrev climate : List (String × Fixed)
climate = ("sst", some 29000) ∷ ("chl", some 300) ∷ []
