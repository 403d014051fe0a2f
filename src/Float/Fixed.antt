-- ===== src/Float/Fixed.antt =====
-- A value that meets the laws: fixed-point numbers in thousandths, with `none` for NaN and no
-- infinities. The examples run on it.
use oci_cpu_shaper.Base.{
  ℕ, ◌≤◌, zero, suc, ◌+◌, ◌*◌, ◌/◌, ◌^◌, ◌↔◌, Bool, false, Option, none, some, arith,
}
use oci_cpu_shaper.Base.Int.{ℤ, ◌≤ℤ◌, pos, negsuc, ◌+ℤ◌, ◌-ℤ◌, ◌*ℤ◌, div_floor, ltb_ℤ, leb_ℤ, eqb_ℤ}
use oci_cpu_shaper.Float.{nought, unity, ◌≼◌, ◌≺◌, Float, IsFloat}

abbrev pub Fixed : Type 0
Fixed = Option ℤ

abbrev compare_by : (ℤ → ℤ → Bool) → Fixed → Fixed → Bool
compare_by f (some a) (some b) = f a b
compare_by f _ _ = false

abbrev lift : (ℤ → ℤ → ℤ) → Fixed → Fixed → Fixed
lift f (some a) (some b) = some (f a b)
lift f _ _ = none

-- The quotient in thousandths, toward 0; the sign of the divisor is moved to the dividend.
abbrev quotient : ℤ → ℤ → Fixed
quotient a (pos zero) = none
quotient (pos m) (pos (suc n)) = some (pos (m * 1000 / suc n))
quotient (negsuc m) (pos (suc n)) = some (pos 0 -ℤ pos (suc m * 1000 / suc n))
quotient (pos m) (negsuc n) = some (pos 0 -ℤ pos (m * 1000 / suc n))
quotient (negsuc m) (negsuc n) = some (pos (suc m * 1000 / suc n))

abbrev divide : Fixed → Fixed → Fixed
divide (some a) (some b) = quotient a b
divide _ _ = none

abbrev truncate : Fixed → ℤ
truncate none = pos 0
truncate (some (pos n)) = pos (n / 1000)
truncate (some (negsuc n)) = pos 0 -ℤ pos (suc n / 1000)

abbrev ceiling : Fixed → ℤ
ceiling none = pos 0
ceiling (some (pos n)) = pos ((n + 999) / 1000)
ceiling (some (negsuc n)) = pos 0 -ℤ pos (suc n / 1000)

instance abbrev pub fixed_float : Float Fixed
fixed_float = record {
  lt = compare_by ltb_ℤ;
  le = compare_by leb_ℤ;
  eq = compare_by eqb_ℤ;
  add = lift ◌+ℤ◌;
  sub = lift ◌-ℤ◌;
  mul = lift (λ a b. div_floor (a *ℤ b) 1000);
  div = divide;
  is_inf = λ _. false;
  milli = λ n. some (pos n);
  of_int = λ a. some (a *ℤ pos 1000);
  trunc = truncate;
  ceil = ceiling;
}

scaled_le : (m n : ℕ) → m ≤ 1000 → m * n / 1000 ≤ n
scaled_le m n h = grind arith

product_le :
    (x y : Fixed)
    → nought ≼ x
    → x ≼ unity
    → nought ≼ y
    → lift (λ a b. div_floor (a *ℤ b) 1000) x y ≼ y
product_le (some (pos m)) (some (pos n)) a b c = ground (arith, scaled_le m n (ground arith))
product_le (some (pos m)) (some (negsuc n)) a b c = ground arith
product_le (some (negsuc m)) (some y) a b c = ground arith
product_le (some x) none a b c = c
product_le none y a b c = cc

ceiling_bounds :
    (x : Fixed)
    → some (pos 1000) ≼ x
    → x ≼ some (pos (2 ^ 53) *ℤ pos 1000)
    → (pos 1 ≤ℤ ceiling x) × (x ≼ some (ceiling x *ℤ pos 1000))
ceiling_bounds none a b = cc
ceiling_bounds (some (pos n)) a b = ground arith
ceiling_bounds (some (negsuc n)) a b = absurd (ground arith)

ceiling-le_iff :
    (x : Fixed) (n : ℤ)
    → nought ≼ x
    → x ≼ some (pos (2 ^ 53) *ℤ pos 1000)
    → (ceiling x ≤ℤ n) ↔ (x ≼ some (n *ℤ pos 1000))
ceiling-le_iff none n a b = absurd (ground arith)
ceiling-le_iff (some (pos m)) (pos n) a b = ground arith
ceiling-le_iff (some (pos m)) (negsuc n) a b = ground arith
ceiling-le_iff (some (negsuc m)) n a b = absurd (ground arith)

scaled_positive : (m n : ℕ) → 1 ≤ m → 1000 ≤ n → 1 ≤ m * n / 1000
scaled_positive m n h k = grind arith

product_positive :
    (x y : Fixed)
    → some (pos 1) ≼ x
    → unity ≼ y
    → nought ≺ lift (λ a b. div_floor (a *ℤ b) 1000) x y
product_positive (some (pos m)) (some (pos n)) a b =
    ground (arith, scaled_positive m n (ground arith) (ground arith))
product_positive (some (pos m)) (some (negsuc n)) a b = absurd (ground arith)
product_positive (some (negsuc m)) (some y) a b = absurd (ground arith)
product_positive (some x) none a b = absurd (ground arith)
product_positive none y a b = absurd (ground arith)

pub Fixed-IsFloat : IsFloat Fixed
Fixed-IsFloat = record {
  refl_of_le = ground arith;
  le_trans = ground arith;
  le_total = ground arith;
  lt-eq-not-le = ground arith;
  le_of_lt = ground arith;
  eq-eq-le = ground arith;
  milli_le = ground arith;
  milli_lt = ground arith;
  milli_not_inf = ground arith;
  not_inf_between = ground arith;
  le-add = ground arith;
  sub-le = ground arith;
  of_int_le = ground arith;
  of_int_zero = ground arith;
  of_int_not_inf = ground arith;
  of_int_positive = ground arith;
  div_nonneg = ground arith;
  mul_nonneg = ground arith;
  mul_down = ground arith;
  mul-le = λ x y f. product_le x y;
  trunc_bounds = ground arith;
  ceil_bounds = ceiling_bounds;
  ceil-le_iff = ceiling-le_iff;
  mul_positive = λ x y f g. product_positive x y;
  unity-le-of_int = ground arith;
}
