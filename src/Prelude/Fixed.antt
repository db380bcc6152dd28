-- ===== src/Prelude/Fixed.antt =====
-- Numbers that meet the laws of `IsIeee`: whole thousandths from 0 up, with `none` for NaN, and
-- subtraction that stops at 0. The concrete instances of theorems are stated over them.
use Prim.Native.Nat.{ℕ, ◌+◌, ◌-◌, ◌*◌, ◌/◌, ◌≤◌, ◌<◌}
use mathlib.Core.Path.{◌≡◌}
use mathlib.Core.Bool.{Bool, true, false}
use mathlib.Core.Option.{Option, none, some}
use native.Mathlib.Omega.{arith}
use native.Mathlib.Nat.{
  div-le_of_le-mul, le-div_iff_mul-le, div-mul-le_self, le_of_mul-le-mul_right, mul-le-mul_right,
}
use ocean_data_engine_fronte.Prelude.Tests.{ltb, leb}
use ocean_data_engine_fronte.Prelude.Float.{Float, IsIeee}

abbrev pub Fixed : Type 0
Fixed = Option ℕ

abbrev lift₁ : (ℕ → ℕ) → Fixed → Fixed
lift₁ g none = none
lift₁ g (some a) = some (g a)

abbrev lift₂ : (ℕ → ℕ → ℕ) → Fixed → Fixed → Fixed
lift₂ g (some a) (some b) = some (g a b)
lift₂ g _ _ = none

abbrev test₂ : (ℕ → ℕ → Bool) → Fixed → Fixed → Bool
test₂ g (some a) (some b) = g a b
test₂ g _ _ = false

abbrev is_none : Fixed → Bool
is_none none = true
is_none (some a) = false

abbrev is_some : Fixed → Bool
is_some none = false
is_some (some a) = true

instance abbrev pub fixed_float : Float Fixed
fixed_float = record {
  lit = λ n d. some (n * 1000 / d);
  add = lift₂ (λ a b. a + b);
  sub = lift₂ (λ a b. a - b);
  mul = lift₂ (λ a b. a * b / 1000);
  div = lift₂ (λ a b. a * 1000 / b);
  neg = lift₁ (λ a. 0);
  lt = test₂ ltb;
  le = test₂ leb;
  isnan = is_none;
  isfinite = is_some;
  round = λ x k. x;
}

le→leb : (a b : ℕ) → a ≤ b → leb a b ≡ true
le→leb a b h = ground arith

div_mono_ℕ : (a b k : ℕ) → 0 < k → a ≤ b → a * 1000 / k ≤ b * 1000 / k
div_mono_ℕ a b k pos h = (le-div_iff_mul-le pos).1 (omega (arith, div-mul-le_self (a * 1000) k))

one-le-div_ℕ : (a b : ℕ) → 0 < b → b < a → 1000 ≤ a * 1000 / b
one-le-div_ℕ a b pos h = (le-div_iff_mul-le pos).1 (omega arith)

lit_mono_ℕ : (n d m e : ℕ) → 0 < d → 0 < e → n * e ≤ m * d → n * 1000 / d ≤ m * 1000 / e
lit_mono_ℕ n d m e dp ep h = (le-div_iff_mul-le ep).1 (
    le_of_mul-le-mul_right (omega (arith, mul-le-mul_right e (div-mul-le_self (n * 1000) d), h)) dp)

div_mono_lem :
    (x z y : Fixed)
    → is_some y ≡ true
    → fixed_float.lt (some 0) y ≡ true
    → fixed_float.le x z ≡ true
    → fixed_float.le (fixed_float.div x y) (fixed_float.div z y) ≡ true
div_mono_lem (some a) (some b) (some k) _ pos h =
    le→leb _ _ (div_mono_ℕ a b k (ground arith) (ground arith))
div_mono_lem _ _ _ _ pos h = ground arith

one-le-div_lem :
    (x y : Fixed)
    → fixed_float.lt (some 0) y ≡ true
    → fixed_float.lt y x ≡ true
    → fixed_float.le (some 1000) (fixed_float.div x y) ≡ true
one-le-div_lem (some a) (some b) pos h = le→leb _ _ (one-le-div_ℕ a b (ground arith) (ground arith))
one-le-div_lem _ _ pos h = ground arith

div-le-one_ℕ : (a b : ℕ) → 0 < b → a ≤ b → a * 1000 / b ≤ 1000
div-le-one_ℕ a b pos h = div-le_of_le-mul b (omega arith)

div-le-one_lem :
    (x y : Fixed)
    → is_some y ≡ true
    → fixed_float.lt (some 0) y ≡ true
    → fixed_float.le x y ≡ true
    → fixed_float.le (fixed_float.div x y) (some 1000) ≡ true
div-le-one_lem (some a) (some b) _ pos h =
    le→leb _ _ (div-le-one_ℕ a b (ground arith) (ground arith))
div-le-one_lem _ _ _ pos h = ground arith

ltb_of_lt : (a b : ℕ) → a < b → ltb a b ≡ true
ltb_of_lt a b h = ground arith

lit_strict_ℕ : (n m : ℕ) → n < m → n * 1000 / 1 < m * 1000 / 1
lit_strict_ℕ n m h = omega arith

pub fixed-IsIeee : IsIeee Fixed
fixed-IsIeee = record {
  le_refl = ground arith;
  le_trans = ground arith;
  lt-eq-not-le = ground arith;
  lt_le = ground arith;
  lt_nan_left = ground arith;
  lt_nan_right = ground arith;
  le_nan_left = ground arith;
  le_nan_right = ground arith;
  isnan-lit = ground arith;
  lit_mono = λ n d m e dp ep h. le→leb _ _ (lit_mono_ℕ n d m e dp ep h);
  isfinite-lit = ground arith;
  isnan-add = ground arith;
  isnan-add_finite = ground arith;
  le-add = ground arith;
  add_mono = ground arith;
  one-le-div = one-le-div_lem;
  zero-le-div = ground arith;
  one_sub_large = ground arith;
  one_sub_small = ground arith;
  div_mono = div_mono_lem;
  one_sub_mono = ground arith;
  round_mono = ground arith;
  round-zero = ground arith;
  round-one = ground arith;
  neg_mono = ground arith;
  neg_nonpos = ground arith;
  sub_nonneg = ground arith;
  sub_mono = ground arith;
  sub_pos = ground arith;
  div-le-one = div-le-one_lem;
  lit_strict = λ n m h small. ltb_of_lt _ _ (lit_strict_ℕ n m h);
  isnan-sub = ground arith;
  sub_le = ground arith;
}
