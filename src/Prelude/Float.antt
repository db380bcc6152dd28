-- ===== src/Prelude/Float.antt =====
-- What the source does with `float`: an interface of operations, with the laws of IEEE 754 doubles
-- that the theorems use. The doubles themselves are the interpreter's and are no code of the source.
use Prim.Native.Nat.{ℕ, ◌*◌, ◌≤◌, ◌<◌}
use mathlib.Core.Path.{◌≡◌}
use mathlib.Core.Bool.{Bool, true, false, not}
use ocean_data_engine_fronte.Prelude.Tests.{if◌then◌else◌}

pub record Float (W : Type 0) : Type 0 where
  -- the double nearest to n / d
  pub lit : ℕ → ℕ → W
  pub add : W → W → W
  pub sub : W → W → W
  pub mul : W → W → W
  -- by a divisor that is not zero: Python raises at zero
  pub div : W → W → W
  pub neg : W → W
  pub lt : W → W → Bool
  pub le : W → W → Bool
  pub isnan : W → Bool
  pub isfinite : W → Bool
  -- round(x, digits)
  pub round : W → ℕ → W

module _ {W : Type 0} ⦃f : Float W⦄ where
  abbrev pub zero_ : W
  zero_ = f.lit 0 1

  -- max(a, b) and min(a, b): the first argument, unless the second is strictly better
  abbrev pub fmax : W → W → W
  fmax a b = if f.lt a b then b else a

  abbrev pub fmin : W → W → W
  fmin a b = if f.lt b a then b else a

  abbrev pub fabs : W → W
  fabs a = if f.lt a zero_ then f.neg a else a

-- Laws that hold of all doubles, NaN and the infinities included.
pub record IsIeee (W : Type 0) ⦃f : Float W⦄ : Type 0 where
  pub le_refl : (x : W) → f.isnan x ≡ false → f.le x x ≡ true
  pub le_trans : (x y z : W) → f.le x y ≡ true → f.le y z ≡ true → f.le x z ≡ true
  pub lt-eq-not-le : (x y : W) → f.isnan x ≡ false → f.isnan y ≡ false → f.lt x y ≡ not (f.le y x)
  pub lt_le : (x y : W) → f.lt x y ≡ true → f.le x y ≡ true
  pub lt_nan_left : (x y : W) → f.isnan x ≡ true → f.lt x y ≡ false
  pub lt_nan_right : (x y : W) → f.isnan y ≡ true → f.lt x y ≡ false
  pub le_nan_left : (x y : W) → f.isnan x ≡ true → f.le x y ≡ false
  pub le_nan_right : (x y : W) → f.isnan y ≡ true → f.le x y ≡ false
  pub isnan-lit : (n d : ℕ) → f.isnan (f.lit n d) ≡ false
  pub lit_mono : (n d m e : ℕ) → 0 < d → 0 < e → n * e ≤ m * d → f.le (f.lit n d) (f.lit m e) ≡ true
  pub isfinite-lit : (n d : ℕ) → 0 < d → n ≤ 1_000_000_000 → f.isfinite (f.lit n d) ≡ true
  -- rounding to nearest is monotone
  pub isnan-add : (x p : W) → f.isnan x ≡ true → f.isnan (f.add x p) ≡ true
  pub isnan-add_finite :
      (x p : W) → f.isnan x ≡ false → f.isfinite p ≡ true → f.isnan (f.add x p) ≡ false
  pub le-add :
      (x p : W)
      → f.isnan x ≡ false
      → f.isfinite p ≡ true
      → f.le (f.lit 0 1) p ≡ true
      → f.le x (f.add x p) ≡ true
  pub add_mono :
      (x y p : W) → f.isfinite p ≡ true → f.le x y ≡ true → f.le (f.add x p) (f.add y p) ≡ true
  pub one-le-div :
      (x y : W) → f.lt (f.lit 0 1) y ≡ true → f.lt y x ≡ true → f.le (f.lit 1 1) (f.div x y) ≡ true
  pub zero-le-div :
      (x y : W)
      → f.isfinite y ≡ true
      → f.lt (f.lit 0 1) y ≡ true
      → f.le (f.lit 0 1) x ≡ true
      → f.le (f.lit 0 1) (f.div x y) ≡ true
  pub one_sub_large :
      (x : W) → f.le (f.lit 1 1) x ≡ true → f.le (f.sub (f.lit 1 1) x) (f.lit 0 1) ≡ true
  pub one_sub_small :
      (x : W) → f.le (f.lit 0 1) x ≡ true → f.le (f.sub (f.lit 1 1) x) (f.lit 1 1) ≡ true
  pub div_mono :
      (x z y : W)
      → f.isfinite y ≡ true
      → f.lt (f.lit 0 1) y ≡ true
      → f.le x z ≡ true
      → f.le (f.div x y) (f.div z y) ≡ true
  pub one_sub_mono :
      (x y : W) → f.le x y ≡ true → f.le (f.sub (f.lit 1 1) y) (f.sub (f.lit 1 1) x) ≡ true
  pub round_mono : (x y : W) (k : ℕ) → f.le x y ≡ true → f.le (f.round x k) (f.round y k) ≡ true
  pub round-zero : (k : ℕ) → f.round (f.lit 0 1) k ≡ f.lit 0 1
  pub round-one : (k : ℕ) → f.round (f.lit 1 1) k ≡ f.lit 1 1
  pub neg_mono : (x y : W) → f.le x y ≡ true → f.le (f.neg y) (f.neg x) ≡ true
  pub neg_nonpos : (x : W) → f.le (f.lit 0 1) x ≡ true → f.le (f.neg x) (f.lit 0 1) ≡ true
  pub sub_nonneg :
      (x y : W) → f.isfinite y ≡ true → f.le y x ≡ true → f.le (f.lit 0 1) (f.sub x y) ≡ true
  pub sub_mono :
      (x y z : W) → f.isfinite z ≡ true → f.le x y ≡ true → f.le (f.sub x z) (f.sub y z) ≡ true
  -- with gradual underflow a difference of distinct numbers is not zero
  pub sub_pos :
      (x y : W) → f.isfinite y ≡ true → f.lt y x ≡ true → f.lt (f.lit 0 1) (f.sub x y) ≡ true
  pub div-le-one :
      (x y : W)
      → f.isfinite y ≡ true
      → f.lt (f.lit 0 1) y ≡ true
      → f.le x y ≡ true
      → f.le (f.div x y) (f.lit 1 1) ≡ true
  -- whole numbers of this size are exact
  pub lit_strict : (n m : ℕ) → n < m → m ≤ 1_000_000_000 → f.lt (f.lit n 1) (f.lit m 1) ≡ true
  pub isnan-sub : (x p : W) → f.isnan x ≡ true → f.isnan (f.sub x p) ≡ true
  pub sub_le :
      (x p : W)
      → f.isnan x ≡ false
      → f.isfinite p ≡ true
      → f.le (f.lit 0 1) p ≡ true
      → f.le (f.sub x p) x ≡ true
