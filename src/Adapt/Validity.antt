-- ===== src/Adapt/Validity.antt =====
-- What the checks of pkg/adapt/config_validate.go accept, stated without their order or their loops.
use oci_cpu_shaper.Base.{◌≡◌, ◌↔◌, arith, Option, none}
use oci_cpu_shaper.Base.Int.{pos, ◌≤ℤ◌}
use oci_cpu_shaper.Float.{Float, IsFloat, IsNumber, ◌≼◌, ◌≺◌, nought}
use oci_cpu_shaper.Adapt.Config.{Config}
use oci_cpu_shaper.Adapt.Validate.{
  InvalidConfig, ◌then_check◌, validate_target_bounds, validate_step_sizes,
  validate_relaxed_confirmations, validate_suppress_smoothing, validate_goal_bounds,
  validate_runnable_thresholds, suppression_check, validate_suppression_thresholds,
  validate_controller_config, Setting, target_start, target_min, target_max, fallback_target,
  goal_low, goal_high,
}

pub then_check_iff :
    (a b : Option InvalidConfig) → (a then_check b ≡ none) ↔ ((a ≡ none) × (b ≡ none))
then_check_iff a b = ground arith

module _ {F : Type 0} ⦃d : Float F⦄ where
  -- No field that is compared is a NaN.
  pub record IsNumeric (cfg : Config F) : Type 0 where
    pub target_start_number : IsNumber cfg.target_start
    pub target_min_number : IsNumber cfg.target_min
    pub target_max_number : IsNumber cfg.target_max
    pub step_up_number : IsNumber cfg.step_up
    pub step_down_number : IsNumber cfg.step_down
    pub fallback_number : IsNumber cfg.fallback_target
    pub goal_low_number : IsNumber cfg.goal_low
    pub goal_high_number : IsNumber cfg.goal_high
    pub threshold_number : IsNumber cfg.suppress_threshold
    pub resume_number : IsNumber cfg.suppress_resume
    pub runnable_threshold_number : IsNumber cfg.suppress_runnable_threshold
    pub runnable_resume_number : IsNumber cfg.suppress_runnable_resume

  abbrev pub Inside : Config F → F → Type 0
  Inside cfg x = (cfg.target_min ≼ x) × (x ≼ cfg.target_max)

  -- The order that the thresholds must stand in. A threshold of the host suppression that is on lies
  -- above the whole range of targets.
  pub record IsOrdered (cfg : Config F) : Type 0 where
    pub target_order : cfg.target_min ≺ cfg.target_max
    pub start_inside : Inside cfg cfg.target_start
    pub fallback_inside : Inside cfg cfg.fallback_target
    pub goal_low_inside : Inside cfg cfg.goal_low
    pub goal_high_inside : Inside cfg cfg.goal_high
    pub steps_positive : (nought ≺ cfg.step_up) × (nought ≺ cfg.step_down)
    pub confirmations_range :
        (pos 1 ≤ℤ cfg.relaxed_confirmations) × (cfg.relaxed_confirmations ≤ℤ pos 100)
    pub smoothing_range :
        (pos 0 ≤ℤ cfg.suppress_smoothing_samples) × (cfg.suppress_smoothing_samples ≤ℤ pos 100)
    pub goal_order : cfg.goal_low ≺ cfg.goal_high
    pub threshold_above : nought ≺ cfg.suppress_threshold → cfg.target_max ≺ cfg.suppress_threshold
    pub resume_above : nought ≺ cfg.suppress_resume → cfg.target_max ≺ cfg.suppress_resume
    pub runnable_signs :
        (nought ≼ cfg.suppress_runnable_threshold) × (nought ≼ cfg.suppress_runnable_resume)
    pub runnable_band :
        nought ≺ cfg.suppress_runnable_threshold
        → cfg.suppress_runnable_resume ≺ cfg.suppress_runnable_threshold

  module _ (laws : IsFloat F) where
    open laws use {refl_of_le, le_trans, le_total, lt-eq-not-le, le_of_lt, milli_le}

    zero-IsNumber : IsNumber (d.milli 0)
    zero-IsNumber = milli_le 0 0 (omega arith)

    target_bounds_iff :
        (cfg : Config F)
        → IsNumeric cfg
        → (validate_target_bounds cfg ≡ none) ↔ (
            (cfg.target_min ≺ cfg.target_max)
            × Inside cfg cfg.target_start
            × Inside cfg cfg.fallback_target
            × Inside cfg cfg.goal_low
            × Inside cfg cfg.goal_high)
    unfolding validate_target_bounds
    target_bounds_iff cfg n = ground (
      arith,
      lt-eq-not-le cfg.target_min cfg.target_max n.target_min_number n.target_max_number,
      lt-eq-not-le cfg.target_start cfg.target_min n.target_start_number n.target_min_number,
      lt-eq-not-le cfg.target_max cfg.target_start n.target_max_number n.target_start_number,
      lt-eq-not-le cfg.fallback_target cfg.target_min n.fallback_number n.target_min_number,
      lt-eq-not-le cfg.target_max cfg.fallback_target n.target_max_number n.fallback_number,
      lt-eq-not-le cfg.goal_low cfg.target_min n.goal_low_number n.target_min_number,
      lt-eq-not-le cfg.target_max cfg.goal_low n.target_max_number n.goal_low_number,
      lt-eq-not-le cfg.goal_high cfg.target_min n.goal_high_number n.target_min_number,
      lt-eq-not-le cfg.target_max cfg.goal_high n.target_max_number n.goal_high_number,
    )

    step_sizes_iff :
        (cfg : Config F)
        → IsNumeric cfg
        → (validate_step_sizes cfg ≡ none) ↔ ((nought ≺ cfg.step_up) × (nought ≺ cfg.step_down))
    unfolding validate_step_sizes
    step_sizes_iff cfg n = ground (
      arith,
      lt-eq-not-le nought cfg.step_up zero-IsNumber n.step_up_number,
      lt-eq-not-le nought cfg.step_down zero-IsNumber n.step_down_number,
    )

    counts_iff :
        (cfg : Config F)
        → (validate_relaxed_confirmations cfg then_check validate_suppress_smoothing cfg ≡ none) ↔ (
            (pos 1 ≤ℤ cfg.relaxed_confirmations)
            × (cfg.relaxed_confirmations ≤ℤ pos 100)
            × (pos 0 ≤ℤ cfg.suppress_smoothing_samples)
            × (cfg.suppress_smoothing_samples ≤ℤ pos 100))
    unfolding validate_relaxed_confirmations validate_suppress_smoothing
    counts_iff cfg = ground arith

    goal_bounds_iff :
        (cfg : Config F)
        → IsNumeric cfg
        → (validate_goal_bounds cfg ≡ none) ↔ (cfg.goal_low ≺ cfg.goal_high)
    unfolding validate_goal_bounds
    goal_bounds_iff cfg n =
        ground (arith, lt-eq-not-le cfg.goal_low cfg.goal_high n.goal_low_number n.goal_high_number)

    runnable_iff :
        (cfg : Config F)
        → IsNumeric cfg
        → (validate_runnable_thresholds cfg ≡ none) ↔ (
            (nought ≼ cfg.suppress_runnable_threshold)
            × (nought ≼ cfg.suppress_runnable_resume)
            × (nought ≺ cfg.suppress_runnable_threshold
                → cfg.suppress_runnable_resume ≺ cfg.suppress_runnable_threshold))
    unfolding validate_runnable_thresholds
    runnable_iff cfg n =
        let t = n.runnable_threshold_number in
        let r = n.runnable_resume_number in
        ground (
          arith,
          lt-eq-not-le cfg.suppress_runnable_threshold nought t zero-IsNumber,
          lt-eq-not-le cfg.suppress_runnable_resume nought r zero-IsNumber,
          lt-eq-not-le cfg.suppress_runnable_resume cfg.suppress_runnable_threshold r t,
        )

    -- A threshold that is on is above one value.
    abbrev Above : F → F → Type 0
    Above threshold x = nought ≺ threshold → x ≺ threshold

    suppression_check_iff :
        (t r : F) (name : Setting) (x : F)
        → IsNumber t
        → IsNumber r
        → IsNumber x
        → (suppression_check t r name x ≡ none) ↔ (Above t x × Above r x)
    unfolding suppression_check
    suppression_check_iff t r name x nt nr nx =
        ground (arith, lt-eq-not-le x t nx nt, lt-eq-not-le x r nx nr)

    lt_of_le_of_lt : (x y z : F) → IsNumber z → x ≼ y → y ≺ z → x ≺ z
    lt_of_le_of_lt x y z nz p q =
        let (nx, ny) = refl_of_le x y p in
        ground (arith, lt-eq-not-le x z nx nz, lt-eq-not-le y z ny nz, le_trans z x y)

    -- The loop over six values comes down to the largest of them.
    suppression_iff :
        (cfg : Config F)
        → IsNumeric cfg
        → cfg.target_min ≼ cfg.target_max
        → Inside cfg cfg.target_start
        → Inside cfg cfg.fallback_target
        → Inside cfg cfg.goal_low
        → Inside cfg cfg.goal_high
        → (validate_suppression_thresholds cfg ≡ none) ↔ (
            Above cfg.suppress_threshold cfg.target_max
            × Above cfg.suppress_resume cfg.target_max
            × (validate_runnable_thresholds cfg ≡ none))
    unfolding validate_suppression_thresholds
    suppression_iff cfg n order start fall low high = ground (
      arith,
      check target_start cfg.target_start n.target_start_number,
      check target_min cfg.target_min n.target_min_number,
      check target_max cfg.target_max n.target_max_number,
      check fallback_target cfg.fallback_target n.fallback_number,
      check goal_low cfg.goal_low n.goal_low_number,
      check goal_high cfg.goal_high n.goal_high_number,
      below cfg.target_start start.1,
      below cfg.target_min order,
      below cfg.fallback_target fall.1,
      below cfg.goal_low low.1,
      below cfg.goal_high high.1,
    )
      where
        t : F
        t = cfg.suppress_threshold

        r : F
        r = cfg.suppress_resume

        check :
            (name : Setting) (x : F)
            → IsNumber x
            → (suppression_check t r name x ≡ none) ↔ (Above t x × Above r x)
        check name x nx = suppression_check_iff t r name x n.threshold_number n.resume_number nx

        below :
            (x : F)
            → x ≼ cfg.target_max
            → (cfg.target_max ≺ t → x ≺ t) × (cfg.target_max ≺ r → x ≺ r)
        below x le = (
          lt_of_le_of_lt x cfg.target_max t n.threshold_number le,
          lt_of_le_of_lt x cfg.target_max r n.resume_number le,
        )

    -- The checks of the controller accept a configuration without NaN exactly when its thresholds are
    -- in order.
    pub validate_controller_config_iff :
        (cfg : Config F) → IsNumeric cfg → (validate_controller_config cfg ≡ none) ↔ IsOrdered cfg
    unfolding validate_controller_config
    validate_controller_config_iff cfg n = ground (
      arith,
      target_bounds_iff cfg n,
      step_sizes_iff cfg n,
      counts_iff cfg,
      goal_bounds_iff cfg n,
      runnable_iff cfg n,
      suppression_iff cfg n,
      le_of_lt cfg.target_min cfg.target_max,
    )
