-- ===== src/Adapt/Clamp.antt =====
-- What `clamp` of pkg/adapt/controller_state.go gives at numbers.
use oci_cpu_shaper.Base.{◌≡◌, arith}
use oci_cpu_shaper.Float.{Float, IsFloat, IsNumber, ◌≼◌}
use oci_cpu_shaper.Adapt.Normalize.{clamp}

module _ {F : Type 0} ⦃d : Float F⦄ (laws : IsFloat F) where
  open laws use {refl_of_le, le_trans, le_total, lt-eq-not-le, le_of_lt, not_inf_between}

  pub clamp_bounds :
      (x lower upper : F)
      → IsNumber x
      → lower ≼ upper
      → (lower ≼ clamp x lower upper) × (clamp x lower upper ≼ upper)
  unfolding clamp
  clamp_bounds x lower upper number order =
      let (l, u) = refl_of_le lower upper order in
      ground (
        arith,
        lt-eq-not-le x lower number l,
        lt-eq-not-le upper x u number,
        le_total x lower number l,
        le_total upper x u number,
      )

  -- A value within the bounds is left alone.
  pub clamp_within : (x lower upper : F) → lower ≼ x → x ≼ upper → clamp x lower upper ≡ x
  unfolding clamp
  clamp_within x lower upper low high =
      let (l, number) = refl_of_le lower x low in
      let (_, u) = refl_of_le x upper high in
      ground (arith, lt-eq-not-le x lower number l, lt-eq-not-le upper x u number)

  pub clamp_mono :
      (x y lower upper : F) → x ≼ y → lower ≼ upper → clamp x lower upper ≼ clamp y lower upper
  unfolding clamp
  clamp_mono x y lower upper le order =
      let (l, u) = refl_of_le lower upper order in
      let (a, b) = refl_of_le x y le in
      ground (
        arith,
        lt-eq-not-le x lower a l,
        lt-eq-not-le upper x u a,
        lt-eq-not-le y lower b l,
        lt-eq-not-le upper y u b,
        le_total x lower a l,
        le_total upper x u a,
        le_total y lower b l,
        le_total upper y u b,
        le_trans x y lower le,
        le_trans lower x y,
        le_trans upper x y,
        le_trans x y upper,
      )
