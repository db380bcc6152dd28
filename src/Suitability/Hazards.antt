-- ===== src/Suitability/Hazards.antt =====
-- domain/suitability.py: the range of the score, and that a reported hazard or advisory never raises it.
use ocean_data_engine_fronte.Prelude.{
  ℕ, ◌≤◌, ◌≡◌, inl, inr, List, [], ◌∷◌, ◌++◌, Bool, true, false, ◌||◌, arith, Bool-cases,
  if◌then◌else◌,
}
use ocean_data_engine_fronte.Prelude.Text.{Text, codes, text_eq, lower}
use ocean_data_engine_fronte.Prelude.Float.{Float, IsIeee}
use ocean_data_engine_fronte.Risk.Assess.{clamp}
use ocean_data_engine_fronte.Risk.Bounds.{NotBelow, clamp-ge-zero, clamp-le-hundred, clamp_mono}
use ocean_data_engine_fronte.Suitability.SubScores.{SuitabilityWeights}
use ocean_data_engine_fronte.Suitability.Assess.{
  SuitabilityInputs, assess_fishing_suitability, base_score, all_parts, hazard_penalty,
  subtract_hazards, subtract_advisories, clamp_score, underscored,
}

module _ {W : Type 0} ⦃f : Float W⦄ (law : IsIeee W) where
  -- a penalty of whole points
  abbrev IsPenalty : W → Type 0
  IsPenalty p = (f.isfinite p ≡ true) × (f.le (f.lit 0 1) p ≡ true)

  points : (n : ℕ) → n ≤ 1_000_000_000 → IsPenalty (f.lit n 1)
  points n h = (
    law.isfinite-lit n 1 (omega arith) h,
    law.lit_mono 0 1 n 1 (omega arith) (omega arith) (omega arith),
  )

  either : (b : Bool) (x y : W) → IsPenalty x → IsPenalty y → IsPenalty (if b then x else y)
  either true x y h k = h
  either false x y h k = k

  hazard_penalty-IsPenalty : (hazard : Text) → IsPenalty (hazard_penalty hazard)
  unfolding hazard_penalty
  hazard_penalty-IsPenalty hazard =
      let is : Text → Bool = text_eq (underscored (lower hazard)) in
      let other = points 20 (omega arith) in
      let coral = either (is (codes "coral_bleaching")) _ _ (points 15 (omega arith)) other in
      let jelly = either (is (codes "jellyfish_bloom")) _ _ (points 25 (omega arith)) coral in
      let oil = either (is (codes "oil_spill")) _ _ (points 80 (omega arith)) jelly in
      either (is (codes "hab") || is (codes "harmful_algal_bloom")) _ _ (points 60 (omega arith))
        oil

  lowered : (x p : W) → IsPenalty p → NotBelow law (f.sub x p) x
  lowered x p h = elim (Bool-cases (f.isnan x)) [
    | inl e ↦ inr (law.isnan-sub x p e, e)
    | inr e ↦ inl (law.sub_le x p e h.0 h.1)
  ]

  sub_NotBelow : (x y p : W) → IsPenalty p → NotBelow law x y → NotBelow law (f.sub x p) (f.sub y p)
  sub_NotBelow x y p h (inl k) = inl (law.sub_mono x y p h.0 k)
  sub_NotBelow x y p h (inr (nx, ny)) = inr (law.isnan-sub x p nx, law.isnan-sub y p ny)

  more_hazards :
      (score : W) (hazards : List Text) (hazard : Text)
      → NotBelow law
          (subtract_hazards score (hazards ++ hazard ∷ []))
          (subtract_hazards score hazards)
  unfolding subtract_hazards
  more_hazards score [] hazard =
      lowered score (hazard_penalty hazard) (hazard_penalty-IsPenalty hazard)
  more_hazards score (h ∷ hazards) hazard =
      more_hazards (f.sub score (hazard_penalty h)) hazards hazard

  advisories_mono :
      (x y : W) (advisories : List Text)
      → NotBelow law x y
      → NotBelow law (subtract_advisories x advisories) (subtract_advisories y advisories)
  unfolding subtract_advisories
  advisories_mono x y [] h = h
  advisories_mono x y (a ∷ advisories) h =
      advisories_mono (f.sub x (f.lit 30 1)) (f.sub y (f.lit 30 1)) advisories
        (sub_NotBelow x y (f.lit 30 1) (points 30 (omega arith)) h)

  more_advisories :
      (score : W) (advisories : List Text) (advisory : Text)
      → NotBelow law
          (subtract_advisories score (advisories ++ advisory ∷ []))
          (subtract_advisories score advisories)
  unfolding subtract_advisories
  more_advisories score [] advisory = lowered score (f.lit 30 1) (points 30 (omega arith))
  more_advisories score (a ∷ advisories) advisory =
      more_advisories (f.sub score (f.lit 30 1)) advisories advisory

  -- The score lies between 0 and 100 for all inputs and weights; and one more ecological hazard, or one more fishery
  -- advisory, never raises it. The numbers meet the laws of IEEE 754.
  pub suitability_score_lem :
      (i : SuitabilityInputs W) (w : SuitabilityWeights W) (reported : Text)
      → let score = (assess_fishing_suitability i w).score in
        (f.le (f.lit 0 1) score ≡ true)
        × (f.le score (f.lit 100 1) ≡ true)
        × (f.le
              (assess_fishing_suitability
                (record i { ecological_hazards = i.ecological_hazards ++ reported ∷ [] })
                w).score
              score
            ≡ true)
        × (f.le
              (assess_fishing_suitability
                (record i { fishery_advisories = i.fishery_advisories ++ reported ∷ [] })
                w).score
              score
            ≡ true)
  unfolding assess_fishing_suitability clamp_score clamp all_parts
  suitability_score_lem i w reported =
      let base = base_score (all_parts i w).components in
      let penalised = subtract_hazards base i.ecological_hazards in
      (
        clamp-ge-zero law _,
        clamp-le-hundred law _,
        clamp_mono law _ _ (
            advisories_mono _ penalised i.fishery_advisories
              (more_hazards base i.ecological_hazards reported)),
        clamp_mono law _ _ (more_advisories penalised i.fishery_advisories reported),
      )
