-- ===== src/Float.antt =====
-- Go's `float64`: the operations that the code uses, as an interface, and the laws of IEEE 754 that
-- the proofs rest on. A literal is given in thousandths, since no literal of the code is finer.
pub mod Fixed
use oci_cpu_shaper.Base.{ℕ, ◌+◌, ◌^◌, ◌≤◌, ◌<◌, ◌≡◌, ◌⊎◌, ◌↔◌, Bool, true, false, not, ◌&&◌, ◌||◌}
use oci_cpu_shaper.Base.Int.{ℤ, pos, ◌≤ℤ◌, ◌<ℤ◌}

pub record Float (F : Type 0) : Type 0 where
  pub lt : F → F → Bool
  pub le : F → F → Bool
  pub eq : F → F → Bool
  pub add : F → F → F
  pub sub : F → F → F
  pub mul : F → F → F
  pub div : F → F → F
  pub is_inf : F → Bool  -- `math.IsInf(x, 0)`
  pub milli : ℕ → F  -- the literal n / 1000
  pub of_int : ℤ → F  -- `float64(n)`
  pub trunc : F → ℤ  -- `int64(x)`
  pub ceil : F → ℤ  -- `int(math.Ceil(x))`

module _ {F : Type 0} ⦃d : Float F⦄ where
  abbrev pub nought : F
  nought = d.milli 0

  abbrev pub unity : F
  unity = d.milli 1000

  -- `math.IsNaN(x)` is `x != x`.
  abbrev pub is_nan : F → Bool
  is_nan x = not (d.eq x x)

  infix 4 ◌≼◌ ◌≺◌
  abbrev pub ◌≼◌ : F → F → Type 0
  x ≼ y = d.le x y ≡ true

  abbrev pub ◌≺◌ : F → F → Type 0
  x ≺ y = d.lt x y ≡ true

  -- Not a NaN.
  abbrev pub IsNumber : F → Type 0
  IsNumber x = x ≼ x

  abbrev pub IsFinite : F → Type 0
  IsFinite x = (x ≼ x) × (d.is_inf x ≡ false)

-- Comparison is a total order away from NaN, and false at NaN; literals and integers are ordered as they
-- read; finite sums, differences, products and quotients respect order and sign, and may overflow to an
-- infinity; rounding up gives the least integer that is not below.
pub record IsFloat (F : Type 0) ⦃d : Float F⦄ : Type 0 where
  pub refl_of_le : (x y : F) → x ≼ y → IsNumber x × IsNumber y
  pub le_trans : (x y z : F) → x ≼ y → y ≼ z → x ≼ z
  pub le_total : (x y : F) → IsNumber x → IsNumber y → (x ≼ y) ⊎ (y ≼ x)
  pub lt-eq-not-le : (x y : F) → IsNumber x → IsNumber y → d.lt x y ≡ not (d.le y x)
  pub le_of_lt : (x y : F) → x ≺ y → x ≼ y
  pub eq-eq-le : (x y : F) → d.eq x y ≡ (d.le x y && d.le y x)
  pub milli_le : (m n : ℕ) → m ≤ n → d.milli m ≼ d.milli n
  pub milli_lt : (m n : ℕ) → m < n → n ≤ 10 ^ 6 → d.milli m ≺ d.milli n
  pub milli_not_inf : (n : ℕ) → n ≤ 10 ^ 6 → d.is_inf (d.milli n) ≡ false
  pub not_inf_between :
      (lo x hi : F)
      → d.is_inf lo ≡ false
      → d.is_inf hi ≡ false
      → lo ≼ x
      → x ≼ hi
      → d.is_inf x ≡ false
  pub le-add : (x y : F) → IsFinite x → IsFinite y → nought ≼ y → x ≼ d.add x y
  pub sub-le : (x y : F) → IsFinite x → IsFinite y → nought ≼ y → d.sub x y ≼ x
  pub of_int_le : (a b : ℤ) → a ≤ℤ b → d.of_int a ≼ d.of_int b
  pub of_int_zero : d.of_int (pos 0) ≡ nought
  pub of_int_not_inf : (a : ℤ) → d.is_inf (d.of_int a) ≡ false
  pub of_int_positive : (a : ℤ) → pos 0 <ℤ a → nought ≺ d.of_int a
  pub div_nonneg : (x y : F) → IsFinite x → nought ≼ x → nought ≺ y → nought ≼ d.div x y
  pub mul_nonneg :
      (x y : F) → IsFinite x → IsFinite y → nought ≼ x → nought ≼ y → nought ≼ d.mul x y
  pub mul_down :
      (x : F)
      → IsFinite x
      → d.milli 1 ≼ x
      → (nought ≼ d.mul x (d.milli 800)) × (d.mul x (d.milli 800) ≺ x)
  pub mul-le : (x y : F) → IsFinite y → nought ≼ x → x ≼ unity → nought ≼ y → d.mul x y ≼ y
  pub trunc_bounds :
      (x : F) (n : ℤ)
      → nought ≼ x
      → x ≼ d.of_int n
      → n ≤ℤ pos (2 ^ 53)
      → (pos 0 ≤ℤ d.trunc x) × (d.trunc x ≤ℤ n)
  pub ceil_bounds :
      (x : F)
      → d.of_int (pos 1) ≼ x
      → x ≼ d.of_int (pos (2 ^ 53))
      → (pos 1 ≤ℤ d.ceil x) × (x ≼ d.of_int (d.ceil x))
  pub ceil-le_iff :
      (x : F) (n : ℤ)
      → nought ≼ x
      → x ≼ d.of_int (pos (2 ^ 53))
      → (d.ceil x ≤ℤ n) ↔ (x ≼ d.of_int n)
  pub mul_positive :
      (x y : F) → IsFinite x → IsFinite y → d.milli 1 ≼ x → unity ≼ y → nought ≺ d.mul x y
  pub unity-le-of_int : (a : ℤ) → pos 1 ≤ℤ a → unity ≼ d.of_int a

pub nought-le-of_int :
    {F : Type 0} ⦃d : Float F⦄ (laws : IsFloat F) (a : ℤ) → pos 0 ≤ℤ a → nought ≼ d.of_int a
nought-le-of_int laws a h = rw laws.of_int_zero at (laws.of_int_le (pos 0) a h)
