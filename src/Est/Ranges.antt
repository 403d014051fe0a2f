-- ===== src/Est/Ranges.antt =====
-- The ranges of an observation of pkg/est/sampler.go.
use oci_cpu_shaper.Base.{ℕ, ◌+◌, ◌-◌, ◌≤◌, ◌<◌, ◌≡◌, arith, none}
use oci_cpu_shaper.Base.Int.{ℤ, pos, ◌<ℤ◌}
use oci_cpu_shaper.Float.{nought-le-of_int, Float, IsFloat, IsNumber, ◌≼◌, nought, unity}
use oci_cpu_shaper.Est.Sampler.{
  Snapshot, Observation, clamp_utilisation, diff_counter, build_observation,
}

module _ {F : Type 0} ⦃d : Float F⦄ where
  -- What the controller may rely on in an observation of no error.
  pub record IsSane (o : Observation F) : Type 0 where
    pub utilisation_range : (nought ≼ o.utilisation) × (o.utilisation ≼ unity)
    pub runnable_sign : nought ≼ o.runnable
    pub busy-le-total : o.busy_jiffies ≤ o.total_jiffies
    pub no_failure : o.failure ≡ none

  module _ (laws : IsFloat F) where
    open laws use {
      refl_of_le, le_trans, le_total, lt-eq-not-le, milli_le, of_int_le, of_int_not_inf,
      of_int_positive, div_nonneg,
    }

    clamp_utilisation_range :
        (x : F) → IsNumber x → (nought ≼ clamp_utilisation x) × (clamp_utilisation x ≼ unity)
    unfolding clamp_utilisation
    clamp_utilisation_range x n =
        let zero = milli_le 0 0 (omega arith) in
        let unit = milli_le 0 1000 (omega arith) in
        let one = milli_le 1000 1000 (omega arith) in
        ground (
          arith,
          zero,
          unit,
          one,
          lt-eq-not-le x nought n zero,
          lt-eq-not-le unity x one n,
          le_total x nought n zero,
          le_total unity x one n,
        )

    ratio_nonneg : (n : ℕ) (m : ℤ) → pos 0 <ℤ m → nought ≼ d.div (d.of_int (pos n)) (d.of_int m)
    ratio_nonneg n m positive =
        let low = nought-le-of_int laws (pos n) (omega arith) in
        div_nonneg (d.of_int (pos n)) (d.of_int m) ((refl_of_le _ _ low).1, of_int_not_inf (pos n))
          low (of_int_positive m positive)

    -- Whatever the counters of two snapshots, going back or wrapped included, and whatever the CPU
    -- count: the utilisation is a number in [0, 1], the runnable tasks per CPU are a number and not
    -- negative, and the busy time does not exceed the total.
    pub build_observation-IsSane :
        (now : ℕ) (previous current : Snapshot) (cpus : ℤ)
        → IsSane (build_observation now previous current cpus)
    unfolding build_observation
    build_observation-IsSane now previous current cpus =
        let total = diff_counter previous.total current.total in
        let busy = total - diff_counter previous.idle current.idle in
        let zero = milli_le 0 0 (omega arith) in
        let unit = milli_le 0 1000 (omega arith) in
        ground (
          arith,
          zero,
          unit,
          ratio_nonneg current.runnable cpus,
          ratio_nonneg busy (pos total),
          refl_of_le nought (d.div (d.of_int (pos busy)) (d.of_int (pos total))),
          clamp_utilisation_range (d.div (d.of_int (pos busy)) (d.of_int (pos total))),
        )

module _ (F : Type 0) ⦃d : Float F⦄ where
  -- Where the counters rise and no more idle than total time passed, the busy and the idle time add
  -- up to the total.
  pub busy_and_idle :
      (now : ℕ) (previous current : Snapshot) (cpus : ℤ)
      → previous.total < current.total
      → previous.idle ≤ current.idle
      → current.idle + previous.total ≤ current.total + previous.idle
      → let o : Observation F = build_observation now previous current cpus in
        (o.total_jiffies + previous.total ≡ current.total)
        × (o.busy_jiffies + (current.idle - previous.idle) ≡ o.total_jiffies)
  unfolding build_observation
  busy_and_idle now previous current cpus h k l = ground arith
