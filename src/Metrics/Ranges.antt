-- ===== src/Metrics/Ranges.antt =====
-- The ranges of the gauges of pkg/http/metrics/exporter.go, whatever is reported to it.
use oci_cpu_shaper.Base.{◌≡◌, ◌⊎◌, arith, Bool, false, ◌||◌, List, [], ◌∷◌}
use oci_cpu_shaper.Base.Int.{ℤ}
use oci_cpu_shaper.Float.{Float, IsFloat, IsNumber, IsFinite, ◌≼◌, nought, unity, is_nan}
use oci_cpu_shaper.Adapt.Normalize.{float_max}
use oci_cpu_shaper.Adapt.Controller.{
  Call, set_mode, set_state, set_target, observe_oci_p95, observe_host_cpu, set_interval,
  set_last_error, set_relaxed_successes,
}
use oci_cpu_shaper.Metrics.Exporter.{
  Exporter, hundred_percent, milliseconds_per_second, seconds, float_min, gauge, finite_or_zero,
  target_gauge, ratio_gauge, percent_gauge, new_exporter, export_mode, export_state, export_target,
  export_oci_p95, export_interval, export_last_error, export_duty_cycle, export_worker_count,
  export_cgroup_cpu_weight, export_cgroup_cpu_max, export_host_cpu, export_relaxed_successes,
  record_call,
}

-- What is reported to an exporter: by the controller, and by the start of the program.
pub data Report (F : Type 0) : Type 0 where
  call : Call F → Report F
  workers : ℤ → Report F
  duty_cycle : ℤ → Report F
  weight : F → Report F
  cpu_max : F → F → Bool → Report F

module _ {F : Type 0} ⦃d : Float F⦄ where
  unfoldable pub report : Report F → Exporter F → Exporter F
  unfolding record_call
  report (call c) = record_call c
  report (workers count) = export_worker_count count
  report (duty_cycle duration) = export_duty_cycle duration
  report (weight w) = export_cgroup_cpu_weight w
  report (cpu_max quota period unlimited) = export_cgroup_cpu_max quota period unlimited

  unfoldable pub report_all : List (Report F) → Exporter F → Exporter F
  report_all [] e = e
  report_all (r ∷ rs) e = report_all rs (report r e)

  -- Finite and not negative.
  abbrev pub IsGauge : F → Type 0
  IsGauge x = IsFinite x × (nought ≼ x)

  abbrev pub IsFlag : F → Type 0
  IsFlag x = (x ≡ nought) ⊎ (x ≡ unity)

  pub record IsSane (e : Exporter F) : Type 0 where
    pub target_range : (nought ≼ e.shaper_target) × (e.shaper_target ≼ unity)
    pub enforcing_flag : IsFlag e.shaper_enforcing
    pub p95_gauge : IsGauge e.oci_p95
    pub duty_gauge : IsGauge e.duty_cycle_millis
    pub workers_gauge : IsGauge e.worker_count
    pub host_range : (nought ≼ e.host_cpu_percent) × (e.host_cpu_percent ≼ hundred_percent)
    pub interval_gauge : IsGauge e.interval_seconds
    pub relaxed_gauge : IsGauge e.relaxed_successes
    pub weight_gauge : IsGauge e.cgroup_weight
    pub quota_gauge : IsGauge e.cgroup_max_quota
    pub period_gauge : IsGauge e.cgroup_max_period
    pub limit_flag : IsFlag e.cgroup_max_limit

  module _ (laws : IsFloat F) where
    open laws use {
      refl_of_le, le_total, lt-eq-not-le, eq-eq-le, milli_le, milli_not_inf, mul_nonneg,
    }

    zero-IsGauge : IsGauge nought
    zero-IsGauge =
        let zero = milli_le 0 0 (omega arith) in ((zero, milli_not_inf 0 (omega arith)), zero)

    -- Where the checks let a value through, it is a finite number.
    IsFinite-checked : (x : F) → (is_nan x || d.is_inf x) ≡ false → IsFinite x
    IsFinite-checked x h = ground (arith, eq-eq-le x x)

    gauge-IsGauge : (x : F) → IsGauge (gauge x)
    unfolding gauge
    gauge-IsGauge x =
        let zero = zero-IsGauge in
        ground (arith, zero, eq-eq-le x x, lt-eq-not-le x nought, le_total x nought)

    ratio_gauge-IsGauge : (x : F) → IsGauge (ratio_gauge x)
    unfolding ratio_gauge
    ratio_gauge-IsGauge x =
        let zero = zero-IsGauge in
        ground (arith, zero, eq-eq-le x x, lt-eq-not-le x nought, le_total x nought)

    finite_or_zero-IsFinite : (x : F) → IsFinite (finite_or_zero x)
    unfolding finite_or_zero
    finite_or_zero-IsFinite x = let zero = zero-IsGauge in ground (arith, zero, eq-eq-le x x)

    cut_to_unit :
        (x : F)
        → IsNumber x
        → (nought ≼ float_max nought (float_min unity x))
          × (float_max nought (float_min unity x) ≼ unity)
    unfolding float_max float_min
    cut_to_unit x n =
        let zero = milli_le 0 0 (omega arith) in
        let unit = milli_le 0 1000 (omega arith) in
        let one = milli_le 1000 1000 (omega arith) in
        ground (
          arith,
          zero,
          unit,
          one,
          eq-eq-le x x,
          eq-eq-le nought nought,
          eq-eq-le unity unity,
          lt-eq-not-le x unity n one,
          lt-eq-not-le nought x zero n,
          lt-eq-not-le nought unity zero one,
          le_total x nought n zero,
          le_total x unity n one,
        )

    target_gauge_range : (x : F) → (nought ≼ target_gauge x) × (target_gauge x ≼ unity)
    unfolding target_gauge
    target_gauge_range x = cut_to_unit (finite_or_zero x) (finite_or_zero-IsFinite x).0

    percent_gauge_range : (x : F) → (nought ≼ percent_gauge x) × (percent_gauge x ≼ hundred_percent)
    unfolding percent_gauge
    percent_gauge_range x =
        let r = ratio_gauge x in
        let (finite, positive) = ratio_gauge-IsGauge x in
        let low = milli_le 0 100_000 (omega arith) in
        let hundred = milli_le 100_000 100_000 (omega arith) in
        let product =
          mul_nonneg r hundred_percent finite (hundred, milli_not_inf 100_000 (omega arith))
            positive low in
        let number = (refl_of_le _ _ product).1 in
        ground (
          arith,
          low,
          hundred,
          lt-eq-not-le hundred_percent (d.mul r hundred_percent) hundred number,
        )

    record_call-IsSane : (c : Call F) (e : Exporter F) → IsSane e → IsSane (record_call c e)
    unfolding record_call export_mode export_state export_target export_oci_p95 export_interval
        export_last_error export_host_cpu export_relaxed_successes
    record_call-IsSane (set_mode mode) e s = ground arith
    record_call-IsSane (set_state state) e s = ground arith
    record_call-IsSane (set_target target) e s = ground (arith, target_gauge_range target)
    record_call-IsSane (observe_oci_p95 v t) e s = ground (arith, ratio_gauge-IsGauge v)
    record_call-IsSane (observe_host_cpu u) e s = ground (arith, percent_gauge_range u)
    record_call-IsSane (set_interval i) e s = ground (arith, gauge-IsGauge (seconds i))
    record_call-IsSane (set_last_error failure) e s = ground arith
    record_call-IsSane (set_relaxed_successes n) e s = ground (arith, gauge-IsGauge (d.of_int n))

    report-IsSane : (r : Report F) (e : Exporter F) → IsSane e → IsSane (report r e)
    unfolding report export_worker_count export_duty_cycle export_cgroup_cpu_weight
        export_cgroup_cpu_max
    report-IsSane (call c) e s = record_call-IsSane c e s
    report-IsSane (workers n) e s = ground (arith, gauge-IsGauge (d.of_int n))
    report-IsSane (duty_cycle t) e s =
        ground (arith, gauge-IsGauge (d.mul (seconds t) milliseconds_per_second))
    report-IsSane (weight w) e s = ground (arith, gauge-IsGauge w)
    report-IsSane (cpu_max quota period unlimited) e s =
        let zero = zero-IsGauge in ground (arith, zero, gauge-IsGauge quota, gauge-IsGauge period)

    report_all-IsSane :
        (rs : List (Report F)) (e : Exporter F) → IsSane e → IsSane (report_all rs e)
    unfolding report_all
    report_all-IsSane [] e s = s
    report_all-IsSane (r ∷ rs) e s = report_all-IsSane rs (report r e) (report-IsSane r e s)

    new_exporter-IsSane : IsSane new_exporter
    unfolding new_exporter
    new_exporter-IsSane =
        let zero = zero-IsGauge in
        let unit = milli_le 0 1000 (omega arith) in
        let hundred = milli_le 0 100_000 (omega arith) in ground (arith, zero, unit, hundred)

    -- Whatever is reported to a new exporter, NaN, infinities and negative values included: the target
    -- lies in [0, 1] and the host's load in [0, 100], the two flags are 0 or 1, and every other gauge
    -- is finite and not negative.
    pub reports-IsSane : (rs : List (Report F)) → IsSane (report_all rs new_exporter)
    reports-IsSane rs = report_all-IsSane rs new_exporter new_exporter-IsSane
