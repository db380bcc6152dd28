-- ===== src/Freshness/Decay.antt =====
-- The freshness score: its range, staleness, and how it falls with age.
use ocean_data_engine_fronte.Prelude.{
  ℕ, ◌-◌, ◌≤◌, ◌≡◌, refl, inl, inr, true, arith, leb, Bool-cases,
}
use ocean_data_engine_fronte.Prelude.Float.{Float, IsIeee, zero_}
use ocean_data_engine_fronte.Prelude.Ieee.{fmax_mono, fmax-ge, fmax_below, fmax_le}
use ocean_data_engine_fronte.Freshness.Compute.{total_seconds, age_of, decay}

module _ {W : Type 0} ⦃f : Float W⦄ (law : IsIeee W) where
  pub age-ge-zero : (now r : ℕ) → f.le zero_ (age_of now r) ≡ true
  unfolding age_of
  age-ge-zero now r = fmax-ge law zero_ (total_seconds now r) (law.isnan-lit 0 1)

  pub zero-le-one : f.le zero_ (f.lit 1 1) ≡ true
  zero-le-one = law.lit_mono 0 1 1 1 (omega arith) (omega arith) (omega arith)

  pub decay_range :
      (age threshold : W)
      → f.isfinite threshold ≡ true
      → f.le zero_ age ≡ true
      → (f.le zero_ (decay age threshold) ≡ true) × (f.le (decay age threshold) (f.lit 1 1) ≡ true)
  unfolding decay
  decay_range age threshold fin h = elim (Bool-cases (f.lt zero_ threshold)) [
    | inl e ↦ rw e (
      fmax-ge law zero_ _ (law.isnan-lit 0 1),
      fmax_le law zero_ _ _ zero-le-one (law.one_sub_small _ (law.zero-le-div _ _ fin e h)),
    )
    | inr e ↦ rw e (law.le_refl _ (law.isnan-lit 0 1), zero-le-one)
  ]

  pub decay_stale : (age threshold : W) → f.lt threshold age ≡ true → decay age threshold ≡ zero_
  unfolding decay
  decay_stale age threshold stale = elim (Bool-cases (f.lt zero_ threshold)) [
    | inl e ↦ rw e (
        fmax_below law zero_ _ (law.isnan-lit 0 1)
          (law.one_sub_large _ (law.one-le-div _ _ e stale)))
    | inr e ↦ rw e refl
  ]

  pub decay_mono :
      (age older threshold : W)
      → f.isfinite threshold ≡ true
      → f.le age older ≡ true
      → f.le (decay older threshold) (decay age threshold) ≡ true
  unfolding decay
  decay_mono age older threshold fin h = elim (Bool-cases (f.lt zero_ threshold)) [
    | inl e ↦ rw e (
        fmax_mono law _ _ _ (law.isnan-lit 0 1) (law.one_sub_mono _ _ (law.div_mono _ _ _ fin e h)))
    | inr e ↦ rw e (law.le_refl _ (law.isnan-lit 0 1))
  ]

  total_seconds_mono :
      (now earlier later : ℕ)
      → earlier ≤ later
      → f.le (total_seconds now later) (total_seconds now earlier) ≡ true
  unfolding total_seconds
  total_seconds_mono now earlier later h = elim (Bool-cases (leb later now)) [
    | inl e ↦
        let k : leb earlier now ≡ true = ground arith in
        rw (e, k)
          (law.lit_mono (now - later) _ (now - earlier) _ (omega arith) (omega arith)
            (ground arith))
    | inr e ↦ elim (Bool-cases (leb earlier now)) [
      | inl k ↦
          rw (e, k)
            (law.le_trans _ _ _
              (law.neg_nonpos _ (law.lit_mono 0 1 _ _ (omega arith) (omega arith) (omega arith)))
              (law.lit_mono 0 1 _ _ (omega arith) (omega arith) (omega arith)))
      | inr k ↦
          rw (e, k)
            (law.neg_mono _ _ (
              law.lit_mono (earlier - now) _ (later - now) _ (omega arith) (omega arith)
                (omega arith)))
    ]
  ]

  pub age_mono :
      (now earlier later : ℕ)
      → earlier ≤ later
      → f.le (age_of now later) (age_of now earlier) ≡ true
  unfolding age_of
  age_mono now earlier later h =
      fmax_mono law _ _ _ (law.isnan-lit 0 1) (total_seconds_mono now earlier later h)
