-- ===== src/Risk/Bounds.antt =====
-- The score of the risk engine: its range, and what can only raise it.
use ocean_data_engine_fronte.Prelude.{
  ℕ, ◌≤◌, ◌≡◌, refl, ◌⊎◌, inl, inr, List, [], ◌∷◌, ◌++◌, true, Option, none, some, arith,
  Bool-cases,
}
use ocean_data_engine_fronte.Prelude.Text.{Text}
use ocean_data_engine_fronte.Prelude.Float.{Float, IsIeee, fmin}
use ocean_data_engine_fronte.Prelude.Ieee.{fmin_mono, fmax_mono, fmax-ge}
use ocean_data_engine_fronte.Risk.Thresholds.{
  RiskThresholds, severity_penalty, penalty_points, cyclone_proximity_bands,
}
use ocean_data_engine_fronte.Risk.Assess.{
  ActiveWarning, RiskInputs, severity_of, environmental_factors, add_warnings, add_cyclone,
  add_band, nearest_band, clamp, total_score, assess_marine_risk,
}

module _ {W : Type 0} ⦃f : Float W⦄ (law : IsIeee W) where
  pub clamp-ge-zero : (s : W) → f.le (f.lit 0 1) (clamp s) ≡ true
  unfolding clamp
  clamp-ge-zero s = fmax-ge law _ _ (law.isnan-lit 0 1)

  pub fmin-le : (s : W) → f.le (fmin (f.lit 100 1) s) (f.lit 100 1) ≡ true
  fmin-le s = elim (Bool-cases (f.lt s (f.lit 100 1))) [
    | inl e ↦ rw e (law.lt_le _ _ e)
    | inr e ↦ rw e (law.le_refl _ (law.isnan-lit 100 1))
  ]

  pub clamp-le-hundred : (s : W) → f.le (clamp s) (f.lit 100 1) ≡ true
  unfolding clamp
  clamp-le-hundred s = elim (Bool-cases (f.lt (f.lit 0 1) (fmin (f.lit 100 1) s))) [
    | inl e ↦ rw e (fmin-le s)
    | inr e ↦ rw e (law.lit_mono 0 1 100 1 (omega arith) (omega arith) (omega arith))
  ]

  -- The score lies between 0 and 100 for all inputs and thresholds, those that make the sums NaN or
  -- infinite included. The numbers meet the laws of IEEE 754.
  pub risk_score_bounds :
      (i : RiskInputs W) (t : RiskThresholds W)
      → (f.le (f.lit 0 1) (assess_marine_risk i t).risk_score ≡ true)
        × (f.le (assess_marine_risk i t).risk_score (f.lit 100 1) ≡ true)
  unfolding assess_marine_risk total_score
  risk_score_bounds i t = (clamp-ge-zero _, clamp-le-hundred _)

  -- `y` is at least `x`, or neither is a number.
  abbrev pub NotBelow : W → W → Type 0
  NotBelow x y = (f.le x y ≡ true) ⊎ ((f.isnan x ≡ true) × (f.isnan y ≡ true))

  pub clamp_mono : (x y : W) → NotBelow x y → f.le (clamp x) (clamp y) ≡ true
  unfolding clamp
  clamp_mono x y (inl h) =
      fmax_mono law _ _ _ (law.isnan-lit 0 1) (fmin_mono law _ _ _ (law.isnan-lit 100 1) h)
  clamp_mono x y (inr (nx, ny)) =
      rw (law.lt_nan_left x (f.lit 100 1) nx, law.lt_nan_left y (f.lit 100 1) ny)
        (fmax_mono law _ _ _ (law.isnan-lit 0 1) (law.le_refl _ (law.isnan-lit 100 1)))

  add_NotBelow : (x y p : W) → f.isfinite p ≡ true → NotBelow x y → NotBelow (f.add x p) (f.add y p)
  add_NotBelow x y p fin (inl h) = inl (law.add_mono x y p fin h)
  add_NotBelow x y p fin (inr (nx, ny)) = inr (law.isnan-add x p nx, law.isnan-add y p ny)

  raised : (x p : W) → f.isfinite p ≡ true → f.le (f.lit 0 1) p ≡ true → NotBelow x (f.add x p)
  raised x p fin pos = elim (Bool-cases (f.isnan x)) [
    | inl e ↦ inr (e, law.isnan-add x p e)
    | inr e ↦ inl (law.le-add x p e fin pos)
  ]

  abbrev AllFinite : List (W × W) → Type 0
  AllFinite [] = Unit
  AllFinite (b ∷ bs) = (f.isfinite b.1 ≡ true) × AllFinite bs

  cyclone_bands_finite : AllFinite cyclone_proximity_bands
  cyclone_bands_finite =
      let fin = λ (n : ℕ) (small : n ≤ 1_000_000_000). law.isfinite-lit n 1 (omega arith) small in
      (
        fin 60 (omega arith),
        (fin 40 (omega arith), (fin 20 (omega arith), (fin 8 (omega arith), tt))),
      )

  band_NotBelow :
      (d x y : W) (bands : List (W × W))
      → AllFinite bands
      → NotBelow x y
      → NotBelow (add_band d x (nearest_band d bands)).0 (add_band d y (nearest_band d bands)).0
  unfolding nearest_band
  band_NotBelow d x y [] fin h = h
  band_NotBelow d x y (b ∷ bands) fin h = elim (Bool-cases (f.le d b.0)) [
    | inl e ↦ rw e (add_NotBelow x y b.1 fin.0 h)
    | inr e ↦ rw e (band_NotBelow d x y bands fin.1 h)
  ]

  cyclone_NotBelow :
      (d : Option W) (x y : W) → NotBelow x y → NotBelow (add_cyclone d x).0 (add_cyclone d y).0
  unfolding add_cyclone
  cyclone_NotBelow none x y h = h
  cyclone_NotBelow (some d) x y h = elim (Bool-cases (f.isnan d)) [
    | inl e ↦ rw e h
    | inr e ↦ rw e (band_NotBelow d x y cyclone_proximity_bands cyclone_bands_finite h)
  ]

  penalty_points-le : (s : Text) → penalty_points s ≤ 1_000_000_000
  penalty_points-le s = ground arith

  warning_raises :
      (x : W) (w : ActiveWarning) → NotBelow x (f.add x (severity_penalty (severity_of w)))
  unfolding severity_penalty
  warning_raises x w =
      let n = penalty_points (severity_of w) in
      raised x _ (law.isfinite-lit n 1 (omega arith) (penalty_points-le (severity_of w)))
        (law.lit_mono 0 1 n 1 (omega arith) (omega arith) (omega arith))

  add_warnings-append :
      (x : W) (ws : List ActiveWarning) (w : ActiveWarning)
      → add_warnings x (ws ++ w ∷ []) ≡ f.add (add_warnings x ws) (severity_penalty (severity_of w))
  unfolding add_warnings
  add_warnings-append x [] w = refl
  add_warnings-append x (v ∷ ws) w =
      add_warnings-append (f.add x (severity_penalty (severity_of v))) ws w

  -- One more active warning, the last of the list, never lowers the score, whatever its severity and the other
  -- inputs. The numbers meet the laws of IEEE 754.
  pub warning_monotone :
      (i : RiskInputs W) (t : RiskThresholds W) (w : ActiveWarning)
      → f.le
          (assess_marine_risk i t).risk_score
          (assess_marine_risk
            (record i { active_warnings = i.active_warnings ++ w ∷ [] })
            t).risk_score
        ≡ true
  unfolding assess_marine_risk total_score environmental_factors
  warning_monotone i t w =
      rw add_warnings-append
        (clamp_mono _ _ (cyclone_NotBelow i.cyclone_distance_km _ _ (warning_raises _ w)))
