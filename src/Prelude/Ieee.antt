-- ===== src/Prelude/Ieee.antt =====
-- Order laws of doubles that several components use.
use mathlib.Core.Path.{◌≡◌}
use mathlib.Core.Logic.{inl, inr}
use mathlib.Core.Bool.{true, false}
use native.Mathlib.Omega.{arith}
use ocean_data_engine_fronte.Prelude.Tests.{Bool-cases}
use ocean_data_engine_fronte.Prelude.Float.{Float, IsIeee, fmax, fmin}

module _ {W : Type 0} ⦃f : Float W⦄ (law : IsIeee W) where
  pub not_nan_left : (x y : W) → f.le x y ≡ true → f.isnan x ≡ false
  not_nan_left x y h = ground (arith, law.le_nan_left x y)

  pub not_nan_right : (x y : W) → f.le x y ≡ true → f.isnan y ≡ false
  not_nan_right x y h = ground (arith, law.le_nan_right x y)

  -- Of two numbers, one that is not smaller is at least the other.
  pub le_of_not_lt :
      (x y : W) → f.isnan x ≡ false → f.isnan y ≡ false → f.lt x y ≡ false → f.le y x ≡ true
  le_of_not_lt x y nx ny h = ground (arith, law.lt-eq-not-le x y)

  pub fmin_mono :
      (c x y : W) → f.isnan c ≡ false → f.le x y ≡ true → f.le (fmin c x) (fmin c y) ≡ true
  fmin_mono c x y nc h =
      ground (
        arith,
        law.lt_le x c,
        law.le_refl c,
        law.le_trans c x y,
        le_of_not_lt x c,
        not_nan_left x y,
      )

  pub fmax_mono :
      (c x y : W) → f.isnan c ≡ false → f.le x y ≡ true → f.le (fmax c x) (fmax c y) ≡ true
  fmax_mono c x y nc h =
      ground (
        arith,
        law.lt_le c y,
        law.le_refl c,
        law.le_trans x y c,
        le_of_not_lt c y,
        not_nan_right x y,
      )

  pub fmax-ge : (c x : W) → f.isnan c ≡ false → f.le c (fmax c x) ≡ true
  fmax-ge c x nc = elim (Bool-cases (f.lt c x)) [
    | inl e ↦ rw e (law.lt_le c x e)
    | inr e ↦ rw e (law.le_refl c nc)
  ]

  -- a value below `c` is lifted to `c`
  pub fmax_below : (c x : W) → f.isnan c ≡ false → f.le x c ≡ true → fmax c x ≡ c
  fmax_below c x nc h = ground (arith, law.lt-eq-not-le c x, not_nan_left x c)

  pub fmax_le : (c x u : W) → f.le c u ≡ true → f.le x u ≡ true → f.le (fmax c x) u ≡ true
  fmax_le c x u h k = elim (Bool-cases (f.lt c x)) [ inl e ↦ rw e k | inr e ↦ rw e h ]
