-- ===== src/Freshness/Score.antt =====
-- What `compute_freshness` promises: the range of the score, what stale means, and the effect of time.
use ocean_data_engine_fronte.Prelude.{
  ℕ, ◌≤◌, ◌≡◌, refl, ap, ◌∙◌, subst, inl, inr, true, Option, none, some, arith, ltb, Bool-cases,
}
use ocean_data_engine_fronte.Prelude.Float.{Float, IsIeee}
use ocean_data_engine_fronte.Qc.Checks.{DateTime, as_utc}
use ocean_data_engine_fronte.Freshness.Compute.{age_of, compute_freshness}
use ocean_data_engine_fronte.Freshness.Decay.{
  age-ge-zero, zero-le-one, decay_range, decay_stale, decay_mono, age_mono,
}

-- `x` lies in [0, 1].
abbrev pub InUnit : {W : Type 0} ⦃f : Float W⦄ → W → Type 0
InUnit {W} ⦃f⦄ x = (f.le (f.lit 0 1) x ≡ true) × (f.le x (f.lit 1 1) ≡ true)

module _ {W : Type 0} ⦃f : Float W⦄ (law : IsIeee W) where
  zero-InUnit : InUnit (f.lit 0 1)
  zero-InUnit = (law.le_refl _ (law.isnan-lit 0 1), zero-le-one law)

  one-InUnit : InUnit (f.lit 1 1)
  one-InUnit = (zero-le-one law, law.le_refl _ (law.isnan-lit 1 1))

  round-InUnit : (x : W) → InUnit x → InUnit (f.round x 4)
  round-InUnit x h = (
    subst (λ z. f.le z (f.round x 4) ≡ true) (law.round-zero 4) (law.round_mono _ _ 4 h.0),
    subst (λ z. f.le (f.round x 4) z ≡ true) (law.round-one 4) (law.round_mono _ _ 4 h.1),
  )

  -- The score of every dataset lies between 0 and 1, when the threshold, the interval times the
  -- multiplier, is a finite number. The numbers meet the laws of IEEE 754.
  pub freshness_score_range :
      (at : Option DateTime) (now interval : ℕ) (multiplier : W)
      → f.isfinite (f.mul (f.lit interval 1) multiplier) ≡ true
      → InUnit (compute_freshness at now (some interval) multiplier).freshness_score
  unfolding compute_freshness
  freshness_score_range none now interval multiplier fin = zero-InUnit
  freshness_score_range (some at) now interval multiplier fin = elim (Bool-cases (ltb 0 interval)) [
    | inl e ↦ rw e (round-InUnit _ (decay_range law _ _ fin (age-ge-zero law now (as_utc at))))
    | inr e ↦ rw e (round-InUnit _ one-InUnit)
  ]

  -- A stale result has the score 0, with a reference time and without one. The numbers meet
  -- the laws of IEEE 754.
  pub stale-score :
      (at : Option DateTime) (now : ℕ) (interval : Option ℕ) (multiplier : W)
      → (compute_freshness at now interval multiplier).is_stale ≡ true
      → (compute_freshness at now interval multiplier).freshness_score ≡ f.lit 0 1
  unfolding compute_freshness
  stale-score none now interval multiplier stale = refl
  stale-score (some at) now none multiplier stale = ground arith
  stale-score (some at) now (some n) multiplier stale = elim (Bool-cases (ltb 0 n)) [
    | inl e ↦
        let k : f.lt (f.mul (f.lit n 1) multiplier) (age_of now (as_utc at)) ≡ true =
          ground arith in
        rw e (ap (λ x. f.round x 4) (decay_stale law _ _ k) ∙ law.round-zero 4)
    | inr e ↦ ground arith
  ]

  -- Of two references for one dataset the older one never scores higher, when the threshold is finite.
  -- The numbers meet the laws of IEEE 754.
  pub older-score :
      (older newer : DateTime) (now interval : ℕ) (multiplier : W)
      → f.isfinite (f.mul (f.lit interval 1) multiplier) ≡ true
      → as_utc older ≤ as_utc newer
      → f.le
          (compute_freshness (some older) now (some interval) multiplier).freshness_score
          (compute_freshness (some newer) now (some interval) multiplier).freshness_score
        ≡ true
  unfolding compute_freshness
  older-score older newer now interval multiplier fin h = elim (Bool-cases (ltb 0 interval)) [
    | inl e ↦ rw e (law.round_mono _ _ 4 (decay_mono law _ _ _ fin (age_mono law now _ _ h)))
    | inr e ↦ rw e (law.round_mono _ _ 4 (law.le_refl _ (law.isnan-lit 1 1)))
  ]
