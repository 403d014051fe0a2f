-- ===== src/Base/Text/Decimal.antt =====
-- Numbers in decimal, as the kernel prints them, and that `strconv.ParseUint` reads them back.
use oci_cpu_shaper.Base.{
  ℕ, zero, suc, ◌+◌, ◌-◌, ◌*◌, ◌/◌, ◌%◌, ◌<◌, ◌^◌, ◌≡◌, ◌∙◌, ap, refl, arith, true, false,
  if◌then◌else◌, Bool-cases, inl, inr, ltb, some, [], ◌∷◌,
}
use oci_cpu_shaper.Base.Text.{Text, is_digit, digits_value, is_empty}
use oci_cpu_shaper.Base.Text.Words.{IsCounter}

-- The digits of `n` in front of `acc`, at most `fuel` of them.
digits_onto : ℕ → ℕ → Text → Text
digits_onto zero n acc = acc
digits_onto (suc fuel) n acc =
    let acc' = (b'0' + n % 10) ∷ acc in
    let rest = digits_onto fuel (n / 10) acc' in if ltb n 10 then acc' else rest

-- A number has no more digits than it counts, and one more.
unfoldable pub decimal : ℕ → Text
unfolding digits_onto
decimal n = digits_onto (suc n) n []

digit_value :
    (v n : ℕ) (acc : Text)
    → n < 10
    → digits_value v ((b'0' + n) ∷ acc) ≡ digits_value (10 * v + n) acc
unfolding digits_value
digit_value v n acc h =
    let e : 10 * v + (b'0' + n - b'0') ≡ 10 * v + n = omega arith in
    let t : is_digit (b'0' + n) ≡ true = ground arith in rw (t, e) refl

value-digits_onto :
    (fuel n : ℕ) (acc : Text)
    → n < fuel
    → digits_value 0 (digits_onto fuel n acc) ≡ digits_value n acc
unfolding digits_onto
value-digits_onto zero n acc h = absurd (omega arith)
value-digits_onto (suc fuel) n acc h = elim (Bool-cases (ltb n 10)) [
  | inl small ↦
      let whole : 10 * 0 + n % 10 ≡ n = ground arith in
      rw small (digit_value 0 (n % 10) acc (omega arith) ∙ ap (λ v. digits_value v acc) whole)
  | inr large ↦
      let whole : 10 * (n / 10) + n % 10 ≡ n = omega arith in
      rw large (
        value-digits_onto fuel (n / 10) ((b'0' + n % 10) ∷ acc) (ground arith)
        ∙ digit_value (n / 10) (n % 10) acc (omega arith)
        ∙ ap (λ v. digits_value v acc) whole)
]

a_digit : (c : ℕ) (s : Text) → is_empty (c ∷ s) ≡ false
unfolding is_empty
a_digit c s = refl

no_digits : (v : ℕ) → digits_value v [] ≡ some v
unfolding digits_value
no_digits v = refl

digits_onto-nonempty :
    (fuel n : ℕ) (acc : Text) → is_empty acc ≡ false → is_empty (digits_onto fuel n acc) ≡ false
unfolding digits_onto
digits_onto-nonempty zero n acc h = h
digits_onto-nonempty (suc fuel) n acc h =
    let one = a_digit (b'0' + n % 10) acc in
    let rest = digits_onto-nonempty fuel (n / 10) ((b'0' + n % 10) ∷ acc) one in
    ground (arith, one, rest)

decimal-nonempty : (n : ℕ) → is_empty (decimal n) ≡ false
unfolding decimal digits_onto
decimal-nonempty n =
    let one = a_digit (b'0' + n % 10) [] in
    let rest = digits_onto-nonempty n (n / 10) ((b'0' + n % 10) ∷ []) one in
    ground (arith, one, rest)

-- What is printed in decimal stands for its number.
pub decimal-IsCounter : (n : ℕ) → n < 2 ^ 64 → IsCounter (decimal n) n
unfolding decimal
decimal-IsCounter n h = record {
  digits = value-digits_onto (suc n) n [] (omega arith) ∙ no_digits n;
  nonempty = decimal-nonempty n;
  small = h;
}
