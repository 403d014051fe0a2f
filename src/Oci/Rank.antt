-- ===== src/Oci/Rank.antt =====
-- What the rank of pkg/oci/query.go says of the percentile: at least the share of the values are at
-- most it.
use oci_cpu_shaper.Base.{ℕ, suc, ◌^◌, ◌≤◌, ◌<◌, ◌≡◌, ap, arith, ◌&&◌, some, List, length}
use oci_cpu_shaper.Base.Int.{ℤ, pos, pos_part, ◌≤ℤ◌}
use oci_cpu_shaper.Float.{
  Float, IsFloat, IsNumber, IsFinite, ◌≼◌, ◌≺◌, nought, unity, nought-le-of_int,
}
use oci_cpu_shaper.Oci.Query.{percentile_index, percentile}
use oci_cpu_shaper.Oci.Percentile.{All, count_by, percentile_lem}

module _ {F : Type 0} ⦃d : Float F⦄ where
  -- `v` is one of the values, at least the share of them are at most it, and less than the share of
  -- them are less than it.
  abbrev pub IsPercentile : F → List F → F → Type 0
  IsPercentile share values v =
      let part = d.mul share (d.of_int (pos (length values))) in
      (0 < count_by (λ y. d.le v y && d.le y v) values)
      × (part ≼ d.of_int (pos (count_by (λ y. d.le y v) values)))
      × (d.of_int (pos (count_by (λ y. d.lt y v) values)) ≺ part)

  -- The index is one less than the rank, the part rounded up.
  index_of_rank :
      (share : F) (n : ℕ)
      → let rank = d.ceil (d.mul share (d.of_int (pos n))) in
        pos 1 ≤ℤ rank → rank ≤ℤ pos n → pos (suc (percentile_index share n)) ≡ rank
  unfolding percentile_index
  index_of_rank share n low high = ground arith

  module _ (laws : IsFloat F) where
    open laws use {
      refl_of_le, le_trans, lt-eq-not-le, of_int_le, of_int_zero, of_int_not_inf, mul-le,
      mul_positive, le_of_lt, milli_le, milli_not_inf, ceil-le_iff, not_inf_between,
    }

    -- What the part of a share is, of at least one and at most 2^53 values.
    part_bounds :
        (share : F) (n : ℕ)
        → d.milli 1 ≼ share
        → share ≼ unity
        → 0 < n
        → let part = d.mul share (d.of_int (pos n)) in (nought ≺ part) × (part ≼ d.of_int (pos n))
    part_bounds share n least most positive =
        let whole = d.of_int (pos n) in
        let one = laws.unity-le-of_int (pos n) (omega arith) in
        let low = nought-le-of_int laws (pos n) (omega arith) in
        let finite : IsFinite whole = ((refl_of_le _ _ low).1, of_int_not_inf (pos n)) in
        let small : IsFinite share = (
          (refl_of_le _ _ least).1,
          not_inf_between (d.milli 1) share unity (milli_not_inf 1 (omega arith))
              (milli_not_inf 1000 (omega arith)) least most,
        ) in
        (
          mul_positive share whole small finite least one,
          mul-le share whole finite
              (le_trans nought (d.milli 1) share (milli_le 0 1 (omega arith)) least) most low,
        )

    index-IsPercentile :
        (share : F) (n a b : ℕ)
        → d.milli 1 ≼ share
        → share ≼ unity
        → 0 < n
        → n ≤ 2 ^ 53
        → percentile_index share n < a
        → b ≤ percentile_index share n
        → let part = d.mul share (d.of_int (pos n)) in
          (part ≼ d.of_int (pos a)) × (d.of_int (pos b) ≺ part)
    index-IsPercentile share n a b least most positive small above below =
        let part = d.mul share (d.of_int (pos n)) in
        let (more, less) = part_bounds share n least most positive in
        let within =
          le_trans part (d.of_int (pos n)) (d.of_int (pos (2 ^ 53))) less
            (of_int_le (pos n) (pos (2 ^ 53)) (omega arith)) in
        let rounds = λ (m : ℤ). ceil-le_iff part m (le_of_lt nought part more) within in
        let (z, _) = refl_of_le nought part (le_of_lt nought part more) in
        let (number, _) = refl_of_le part (d.of_int (pos n)) less in
        let (other, _) = refl_of_le _ _ (of_int_le (pos b) (pos b) (omega arith)) in
        let low : pos 1 ≤ℤ d.ceil part =
          ground (arith, rounds (pos 0), of_int_zero, lt-eq-not-le nought part z number) in
        let rank = index_of_rank share n low ((rounds (pos n)).1 less) in
        (
          (rounds (pos a)).0 (omega (arith, ap pos_part rank)),
          ground (
            arith,
            ap pos_part rank,
            rounds (pos b),
            lt-eq-not-le (d.of_int (pos b)) part other number,
          ),
        )

    -- For values that are numbers, at least one and at most 2^53, and a share from 0.001 to 1: `percentile`
    -- returns one of them, at least that share of the values are at most it, and less than that share
    -- are less than it.
    pub percentile-IsPercentile :
        (values : List F) (share : F)
        → All IsNumber values
        → 0 < length values
        → length values ≤ 2 ^ 53
        → d.milli 1 ≼ share
        → share ≼ unity
        → (v : F) × (percentile values share ≡ some v) × IsPercentile share values v
    percentile-IsPercentile values share numbers positive small least most =
        let (v, e, (here, above, below)) = percentile_lem laws values share numbers positive in
        let (high, low) =
          index-IsPercentile share (length values) _ _ least most positive small above below in
        (v, e, (here, high, low))
