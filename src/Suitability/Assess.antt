-- ===== src/Suitability/Assess.antt =====
-- domain/suitability.py: `assess_fishing_suitability`. The texts of the drivers are constructors with what they show.
use ocean_data_engine_fronte.Prelude.{
  ℕ, ◌+◌, List, [], ◌∷◌, ◌++◌, map, Bool, not, ◌&&◌, ◌||◌, Option, none, some, length, is_empty,
  ◌==◌, if◌then◌else◌,
}
use ocean_data_engine_fronte.Prelude.Json.{JsonFields}
use ocean_data_engine_fronte.Prelude.Text.{Text, codes, text_eq, lower}
use ocean_data_engine_fronte.Prelude.Float.{Float, zero_, fmax, fmin, fabs}
use ocean_data_engine_fronte.Suitability.SubScores.{
  SuitabilityWeights, SuitabilityClass, ge, one, when_valid, classify, sst_score, chl_score,
  current_score, safety_score, pfz_score,
}

pub data Driver (W : Type 0) : Type 0 where
  sst_in_band sst_outside_band : W → Driver W
  bloom_scale high_productivity low_productivity : W → Driver W
  positive_chlorophyll_anomaly large_sst_anomaly : W → Driver W
  strong_current : W → Driver W
  near_pfz far_from_pfz : W → Driver W
  unsafe_conditions calm_conditions : Driver W
  source_gap : Driver W
  ecological_hazard : Text → W → Driver W
  fishery_advisory : Text → Driver W

-- what one input adds: a component with its weight, and drivers of either kind
pub record Part (W : Type 0) : Type 0 where
  pub components : List (W × W)
  pub positives : List (Driver W)
  pub negatives : List (Driver W)

pub record SuitabilityInputs (W : Type 0) : Type 0 where
  pub sst : Option W
  pub chlorophyll : Option W
  pub sst_anomaly : Option W
  pub chlorophyll_anomaly : Option W
  pub current_speed : Option W
  pub wave_height : Option W
  pub wind_speed : Option W
  pub pfz_distance_km : Option W
  pub ecological_hazards : List Text
  pub fishery_advisories : List Text
  pub sources : List JsonFields

pub record SuitabilityResult (W : Type 0) : Type 0 where
  pub score : W
  pub classification : SuitabilityClass
  pub positive_drivers : List (Driver W)
  pub negative_drivers : List (Driver W)
  pub confidence : W
  pub sources : List JsonFields

-- text.replace(" ", "_")
abbrev pub underscored : Text → Text
underscored text = map (λ c. if c == b' ' then b'_' else c) text

abbrev pub one_if {ℓ} : {A : Type ℓ} → Bool → A → List A
one_if b a = if b then a ∷ [] else []

module _ {W : Type 0} ⦃f : Float W⦄ where
  abbrev no_part : Part W
  no_part = record { components = []; positives = []; negatives = [] }

  abbrev sst_part : SuitabilityWeights W → Option W → Part W
  sst_part w none = no_part
  sst_part w (some sst) =
      let s = sst_score sst w in
      record {
        components = (s, w.weight_sst) ∷ [];
        positives = one_if (ge s (f.lit 9 10)) (sst_in_band sst);
        negatives = one_if (not (ge s (f.lit 9 10)) && f.le s (f.lit 2 10)) (sst_outside_band sst);
      }

  abbrev chlorophyll_part : SuitabilityWeights W → Option W → Part W
  chlorophyll_part w none = no_part
  chlorophyll_part w (some chl) =
      let s = chl_score chl w in
      let bloom = ge chl w.chl_bloom_cap in
      record {
        components = (s, w.weight_chlorophyll) ∷ [];
        positives = one_if (not bloom && ge s (f.lit 8 10)) (high_productivity chl);
        negatives =
            if bloom
            then bloom_scale chl ∷ []
            else one_if (not (ge s (f.lit 8 10)) && f.le s (f.lit 3 10)) (low_productivity chl);
      }

  abbrev chlorophyll_anomaly_parts : Option W → List W
  chlorophyll_anomaly_parts none = []
  chlorophyll_anomaly_parts (some a) =
      let shifted = f.add (f.lit 5 10) a in
      if f.lt zero_ a then fmin one shifted ∷ [] else fmax zero_ shifted ∷ []

  abbrev sst_anomaly_parts : Option W → List W
  sst_anomaly_parts none = []
  sst_anomaly_parts (some a) = fmax zero_ (f.sub one (f.div (fabs a) (f.lit 3 1))) ∷ []

  -- sum(xs), from the left
  abbrev sum_from : W → List W → W
  sum_from total [] = total
  sum_from total (x ∷ xs) = sum_from (f.add total x) xs

  abbrev pub sum : List W → W
  sum xs = sum_from zero_ xs

  abbrev anomaly_component : W → List W → List (W × W)
  anomaly_component weight [] = []
  anomaly_component weight (x ∷ xs) =
      (f.div (sum (x ∷ xs)) (f.lit (length (x ∷ xs)) 1), weight) ∷ []

  abbrev driver_if : {D : Type 0} → Option W → (W → Bool) → (W → D) → List D
  driver_if none test make = []
  driver_if (some v) test make = one_if (test v) (make v)

  abbrev anomaly_part : SuitabilityWeights W → Option W → Option W → Part W
  anomaly_part w chl sst = record {
    components =
        anomaly_component w.weight_anomaly (chlorophyll_anomaly_parts chl ++ sst_anomaly_parts sst);
    positives = driver_if chl (λ a. f.lt zero_ a) positive_chlorophyll_anomaly;
    negatives = driver_if sst (λ a. ge (fabs a) (f.lit 2 1)) large_sst_anomaly;
  }

  abbrev current_part : SuitabilityWeights W → Option W → Part W
  current_part w none = no_part
  current_part w (some speed) = record {
    components = (current_score speed w, w.weight_current) ∷ [];
    positives = [];
    negatives = one_if (ge speed w.current_max) (strong_current speed);
  }

  abbrev pfz_part : SuitabilityWeights W → Option W → Part W
  pfz_part w none = no_part
  pfz_part w (some distance) =
      let s = pfz_score distance w in
      record {
        components = (s, w.weight_pfz) ∷ [];
        positives = one_if (ge s (f.lit 9 10)) (near_pfz distance);
        negatives = one_if (not (ge s (f.lit 9 10)) && f.le s (f.lit 1 10)) (far_from_pfz distance);
      }

  abbrev safety_part : SuitabilityWeights W → Option W → Part W
  safety_part w none = no_part
  safety_part w (some s) = record {
    components = (s, w.weight_safety) ∷ [];
    positives = one_if (not (f.le s (f.lit 2 10)) && ge s (f.lit 9 10)) calm_conditions;
    negatives = one_if (f.le s (f.lit 2 10)) unsafe_conditions;
  }

  abbrev join_part : Part W → Part W → Part W
  join_part a b = record {
    components = a.components ++ b.components;
    positives = a.positives ++ b.positives;
    negatives = a.negatives ++ b.negatives;
  }

  unfoldable pub all_parts : SuitabilityInputs W → SuitabilityWeights W → Part W
  all_parts i w = join_part (sst_part w (when_valid i.sst)) (
      join_part (chlorophyll_part w (when_valid i.chlorophyll)) (
        join_part (anomaly_part w (when_valid i.chlorophyll_anomaly) (when_valid i.sst_anomaly)) (
          join_part (current_part w (when_valid i.current_speed)) (
            join_part (pfz_part w (when_valid i.pfz_distance_km))
              (safety_part w (safety_score i.wave_height i.wind_speed w))))))

  -- a number that Python takes as true
  abbrev is_nonzero : W → Bool
  is_nonzero v = not (f.le v zero_ && f.le zero_ v)

  unfoldable pub base_score : List (W × W) → W
  base_score [] = zero_
  base_score (c ∷ cs) =
      let total = sum (map (λ p. p.1) (c ∷ cs)) in
      let weighted = sum (map (λ p. f.mul p.0 p.1) (c ∷ cs)) in
      if is_nonzero total then f.div (f.mul (f.lit 100 1) weighted) total else zero_

  unfoldable pub hazard_penalty : Text → W
  hazard_penalty hazard =
      let key = underscored (lower hazard) in
      if text_eq key (codes "hab") || text_eq key (codes "harmful_algal_bloom")
      then f.lit 60 1
      else if text_eq key (codes "oil_spill")
      then f.lit 80 1
      else if text_eq key (codes "jellyfish_bloom")
      then f.lit 25 1
      else if text_eq key (codes "coral_bleaching")
      then f.lit 15 1
      else f.lit 20 1

  unfoldable pub subtract_hazards : W → List Text → W
  subtract_hazards score [] = score
  subtract_hazards score (h ∷ hs) = subtract_hazards (f.sub score (hazard_penalty h)) hs

  unfoldable pub subtract_advisories : W → List Text → W
  subtract_advisories score [] = score
  subtract_advisories score (a ∷ advisories) =
      subtract_advisories (f.sub score (f.lit 30 1)) advisories

  unfoldable pub clamp_score : W → W
  clamp_score score = fmax (f.lit 0 1) (fmin (f.lit 100 1) score)

  abbrev count_valid : Option W → ℕ
  count_valid none = 0
  count_valid (some v) = if f.isnan v then 0 else 1

  abbrev pub primary_present : SuitabilityInputs W → ℕ
  primary_present i =
      count_valid i.sst
      + count_valid i.chlorophyll
      + count_valid i.current_speed
      + count_valid i.wave_height
      + count_valid i.wind_speed
      + count_valid i.pfz_distance_km

  abbrev confidence_of : ℕ → W
  confidence_of n = if n == 0 then zero_ else f.round (f.lit n 6) 3

  unfoldable pub assess_fishing_suitability :
      SuitabilityInputs W → SuitabilityWeights W → SuitabilityResult W
  unfolding clamp_score
  assess_fishing_suitability i w =
      let parts = all_parts i w in
      let penalised = subtract_hazards (base_score parts.components) i.ecological_hazards in
      let score = clamp_score (subtract_advisories penalised i.fishery_advisories) in
      record {
        score = score;
        classification = classify score;
        positive_drivers = parts.positives;
        negative_drivers =
            parts.negatives
            ++ (one_if (is_empty parts.components) source_gap
                ++ (map (λ h. ecological_hazard h (hazard_penalty h)) i.ecological_hazards
                    ++ map (λ a. fishery_advisory a) i.fishery_advisories));
        confidence = confidence_of (primary_present i);
        sources = i.sources;
      }
