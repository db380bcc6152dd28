-- ===== src/SafeWindow/Steps.antt =====
-- The steps of a forecast: their scores are numbers, and what a warning does to them.
use ocean_data_engine_fronte.Prelude.{
  ℕ, ◌≤◌, ◌<◌, ◌≡◌, refl, List, [], ◌∷◌, inl, inr, Bool, true, false, Option, arith, Bool-cases,
}
use ocean_data_engine_fronte.Prelude.Float.{Float, IsIeee, fmax}
use ocean_data_engine_fronte.Prelude.Ieee.{not_nan_right, le_of_not_lt}
use ocean_data_engine_fronte.Qc.Checks.{DateTime, as_utc}
use ocean_data_engine_fronte.Risk.Thresholds.{RiskThresholds}
use ocean_data_engine_fronte.Risk.Bounds.{risk_score_bounds}
use ocean_data_engine_fronte.SafeWindow.Windows.{
  high_risk, warning_overlaps, step_end, classify_score, step_inputs, step_score, step_window,
}

-- Each time is later than the one before it.
abbrev pub Increasing : List DateTime → Type 0
Increasing [] = Unit
Increasing (a ∷ []) = Unit
Increasing (a ∷ b ∷ times) = (as_utc a < as_utc b) × Increasing (b ∷ times)

pub step_end-ge :
    (interval start : ℕ) (later : List DateTime) → start ≤ step_end interval start later
unfolding step_end
step_end-ge interval start [] = omega arith
step_end-ge interval start (next ∷ later) = ground arith

pub step_end-le-next :
    (interval start : ℕ) (next : DateTime) (later : List DateTime)
    → start < as_utc next
    → step_end interval start (next ∷ later) ≤ as_utc next
unfolding step_end
step_end-le-next interval start next later h = ground arith

module _ {W : Type 0} ⦃f : Float W⦄ (law : IsIeee W) where
  pub fmax-not_nan : (a b : W) → f.isnan a ≡ false → f.isnan b ≡ false → f.isnan (fmax a b) ≡ false
  fmax-not_nan a b na nb = elim (Bool-cases (f.lt a b)) [ inl e ↦ rw e nb | inr e ↦ rw e na ]

  pub step_score-not_nan :
      (t : RiskThresholds W) (wave wind : Option W) (start end : ℕ) (overlapping : Bool)
      → f.isnan (step_score t wave wind start end overlapping) ≡ false
  unfolding step_score
  step_score-not_nan t wave wind start end false =
      not_nan_right law _ _ (risk_score_bounds law (step_inputs wave wind start end) t).0
  step_score-not_nan t wave wind start end true =
      fmax-not_nan _ _
        (not_nan_right law _ _ (risk_score_bounds law (step_inputs wave wind start end) t).0)
        (law.isnan-lit 75 1)

  pub fmax-ge-right : (a c : W) → f.isnan a ≡ false → f.isnan c ≡ false → f.le c (fmax a c) ≡ true
  fmax-ge-right a c na nc = elim (Bool-cases (f.lt a c)) [
    | inl e ↦ rw e (law.le_refl c nc)
    | inr e ↦ rw e (le_of_not_lt law a c na nc e)
  ]

  not_le_lit :
      (x : W) (n m : ℕ)
      → n < m
      → m ≤ 1_000_000_000
      → f.le (f.lit m 1) x ≡ true
      → f.le x (f.lit n 1) ≡ false
  not_le_lit x n m h small above = elim (Bool-cases (f.le x (f.lit n 1))) [
    | inl e ↦
        let low = law.le_trans _ _ _ above e in
        ground (
          arith,
          law.lt-eq-not-le (f.lit n 1) (f.lit m 1) (law.isnan-lit n 1) (law.isnan-lit m 1),
          law.lit_strict n m h small,
        )
    | inr e ↦ e
  ]

  pub classify_score-high : (x : W) → f.le (f.lit 75 1) x ≡ true → classify_score x ≡ high_risk
  unfolding classify_score
  classify_score-high x h =
      rw
        (
          not_le_lit x 25 75 (omega arith) (omega arith) h,
          not_le_lit x 50 75 (omega arith) (omega arith) h,
        )
        refl

  warned_score :
      (t : RiskThresholds W) (wave wind : Option W) (start end : ℕ)
      → f.le (f.lit 75 1) (step_score t wave wind start end true) ≡ true
  unfolding step_score
  warned_score t wave wind start end =
      fmax-ge-right _ _
        (not_nan_right law _ _ (risk_score_bounds law (step_inputs wave wind start end) t).0)
        (law.isnan-lit 75 1)

  -- A step is HIGH_RISK whenever a warning overlaps it, however calm the forecast is.
  pub warned-step :
      (t : RiskThresholds W) (warnings_active : List (DateTime × DateTime)) (wave wind : Option W)
      (start end : ℕ)
      → warning_overlaps start end warnings_active ≡ true
      → (step_window t warnings_active wave wind start end).classification ≡ high_risk
  unfolding step_window
  warned-step t warnings_active wave wind start end h =
      rw h (classify_score-high _ (warned_score t wave wind start end))
