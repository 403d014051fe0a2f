-- ===== src/Runtime/Checks.antt =====
-- What the checks of pkg/runtimeconfig/validate.go accept, stated without their order or their loops.
use oci_cpu_shaper.Base.{◌≡◌, ◌↔◌, arith, Option, none}
use oci_cpu_shaper.Base.Int.{pos, ◌<ℤ◌}
use oci_cpu_shaper.Float.{Float, IsFloat, IsNumber, ◌≼◌, ◌≺◌, nought}
use oci_cpu_shaper.Runtime.Settings.{RuntimeConfig, ControllerConfig, EstimatorConfig, PoolConfig}
use oci_cpu_shaper.Runtime.Load.{
  InvalidRuntime, ◌or_failure◌, validate_pool_settings, validate_loop_intervals,
  validate_controller_thresholds, validate_runtime_config,
}

pub or_failure_iff :
    (a b : Option InvalidRuntime) → (a or_failure b ≡ none) ↔ ((a ≡ none) × (b ≡ none))
or_failure_iff a b = ground arith

module _ {F : Type 0} ⦃d : Float F⦄ where
  -- No field that is compared is a NaN.
  pub record IsNumericController (c : ControllerConfig F) : Type 0 where
    pub start_number : IsNumber c.target_start
    pub min_number : IsNumber c.target_min
    pub max_number : IsNumber c.target_max
    pub up_number : IsNumber c.step_up
    pub down_number : IsNumber c.step_down
    pub fallback_number : IsNumber c.fallback_target
    pub low_number : IsNumber c.goal_low
    pub high_number : IsNumber c.goal_high

  abbrev pub Between : ControllerConfig F → F → Type 0
  Between c x = (c.target_min ≼ x) × (x ≼ c.target_max)

  -- Workers, quantum, intervals, steps and confirmations are positive, the range of targets holds the
  -- start, the fallback and the goals, and the goals are in order.
  pub record IsConsistent (cfg : RuntimeConfig F) : Type 0 where
    pub pool_positive : (pos 0 <ℤ cfg.pool.workers) × (pos 0 <ℤ cfg.pool.quantum)
    pub intervals_positive :
        (pos 0 <ℤ cfg.controller.interval)
        × (pos 0 <ℤ cfg.controller.relaxed_interval)
        × (pos 0 <ℤ cfg.estimator.interval)
    pub steps_positive : (nought ≺ cfg.controller.step_up) × (nought ≺ cfg.controller.step_down)
    pub confirmations_positive : pos 0 <ℤ cfg.controller.relaxed_confirmations
    pub target_order : cfg.controller.target_min ≺ cfg.controller.target_max
    pub start_between : Between cfg.controller cfg.controller.target_start
    pub fallback_between : Between cfg.controller cfg.controller.fallback_target
    pub goal_low_between : Between cfg.controller cfg.controller.goal_low
    pub goal_high_between : Between cfg.controller cfg.controller.goal_high
    pub goal_order : cfg.controller.goal_low ≺ cfg.controller.goal_high

  pool_iff :
      (p : PoolConfig F)
      → (validate_pool_settings p ≡ none) ↔ ((pos 0 <ℤ p.workers) × (pos 0 <ℤ p.quantum))
  unfolding validate_pool_settings
  pool_iff p = ground arith

  module _ (laws : IsFloat F) where
    open laws use {lt-eq-not-le, milli_le}

    intervals_iff :
        (c : ControllerConfig F) (e : EstimatorConfig)
        → IsNumericController c
        → (validate_loop_intervals c e ≡ none) ↔ (
            (pos 0 <ℤ c.interval)
            × (pos 0 <ℤ c.relaxed_interval)
            × (pos 0 <ℤ e.interval)
            × (nought ≺ c.step_up)
            × (nought ≺ c.step_down)
            × (pos 0 <ℤ c.relaxed_confirmations))
    unfolding validate_loop_intervals
    intervals_iff c e n =
        let zero = milli_le 0 0 (omega arith) in
        ground (
          arith,
          lt-eq-not-le nought c.step_up zero n.up_number,
          lt-eq-not-le nought c.step_down zero n.down_number,
        )

    thresholds_iff :
        (c : ControllerConfig F)
        → IsNumericController c
        → (validate_controller_thresholds c ≡ none) ↔ (
            (c.target_min ≺ c.target_max)
            × Between c c.target_start
            × Between c c.fallback_target
            × Between c c.goal_low
            × Between c c.goal_high
            × (c.goal_low ≺ c.goal_high))
    unfolding validate_controller_thresholds
    thresholds_iff c n = ground (
      arith,
      lt-eq-not-le c.target_min c.target_max n.min_number n.max_number,
      lt-eq-not-le c.target_start c.target_min n.start_number n.min_number,
      lt-eq-not-le c.target_max c.target_start n.max_number n.start_number,
      lt-eq-not-le c.fallback_target c.target_min n.fallback_number n.min_number,
      lt-eq-not-le c.target_max c.fallback_target n.max_number n.fallback_number,
      lt-eq-not-le c.goal_low c.target_min n.low_number n.min_number,
      lt-eq-not-le c.target_max c.goal_low n.max_number n.low_number,
      lt-eq-not-le c.goal_high c.target_min n.high_number n.min_number,
      lt-eq-not-le c.target_max c.goal_high n.max_number n.high_number,
      lt-eq-not-le c.goal_low c.goal_high n.low_number n.high_number,
    )

    -- The checks of the runtime configuration accept a configuration without NaN exactly when its
    -- counts, intervals and steps are positive, the range of targets is not empty and holds the start,
    -- the fallback and both goals, and the lower goal is less than the upper.
    pub validate_runtime_config_iff :
        (cfg : RuntimeConfig F)
        → IsNumericController cfg.controller
        → (validate_runtime_config cfg ≡ none) ↔ IsConsistent cfg
    unfolding validate_runtime_config
    validate_runtime_config_iff cfg n =
        let pool = pool_iff cfg.pool in
        let intervals = intervals_iff cfg.controller cfg.estimator n in
        let thresholds = thresholds_iff cfg.controller n in
        let checks = or_failure_iff (validate_pool_settings cfg.pool) _ in
        let rest =
          or_failure_iff (validate_loop_intervals cfg.controller cfg.estimator)
            (validate_controller_thresholds cfg.controller) in
        (
          λ e.
              let (a, b) = checks.0 e in
              let (c, t) = rest.0 b in
              let (interval, relaxed, estimator, up, down, confirmations) = intervals.0 c in
              let (order, start, fallback, low, high, goals) = thresholds.0 t in
              record {
                pool_positive = pool.0 a;
                intervals_positive = (interval, relaxed, estimator);
                steps_positive = (up, down);
                confirmations_positive = confirmations;
                target_order = order;
                start_between = start;
                fallback_between = fallback;
                goal_low_between = low;
                goal_high_between = high;
                goal_order = goals;
              },
          λ c.
              let (interval, relaxed, estimator) = c.intervals_positive in
              let (up, down) = c.steps_positive in
              checks.1 (
                pool.1 c.pool_positive,
                rest.1 (
                  intervals.1 (interval, relaxed, estimator, up, down, c.confirmations_positive),
                  thresholds.1 (
                    c.target_order, c.start_between, c.fallback_between, c.goal_low_between,
                    c.goal_high_between, c.goal_order,
                  ),
                ),
              ),
        )
