-- ===== src/Adapt/Coercion.antt =====
-- What `coerceConfig` of pkg/adapt/config_normalize.go makes of finite fields.
use oci_cpu_shaper.Base.{ℕ, arith, ◌≤◌}
use oci_cpu_shaper.Float.{Float, IsFloat, IsNumber, IsFinite, nought, unity}
use oci_cpu_shaper.Adapt.Config.{Config}
use oci_cpu_shaper.Adapt.Normalize.{
  ensure_float, ensure_float_allow_zero, fill_defaults, clamp, floor_zero, coerce_resume,
  coerce_runnable_resume, coerce_config,
}
use oci_cpu_shaper.Adapt.Clamp.{clamp_bounds}
use oci_cpu_shaper.Adapt.Validity.{IsNumeric}

module _ {F : Type 0} ⦃d : Float F⦄ where
  -- Neither NaN nor infinite, in every field that the checks compare.
  pub record IsFiniteConfig (cfg : Config F) : Type 0 where
    pub target_start_finite : IsFinite cfg.target_start
    pub target_min_finite : IsFinite cfg.target_min
    pub target_max_finite : IsFinite cfg.target_max
    pub step_up_finite : IsFinite cfg.step_up
    pub step_down_finite : IsFinite cfg.step_down
    pub fallback_finite : IsFinite cfg.fallback_target
    pub goal_low_finite : IsFinite cfg.goal_low
    pub goal_high_finite : IsFinite cfg.goal_high
    pub threshold_finite : IsFinite cfg.suppress_threshold
    pub resume_finite : IsFinite cfg.suppress_resume
    pub runnable_threshold_finite : IsFinite cfg.suppress_runnable_threshold
    pub runnable_resume_finite : IsFinite cfg.suppress_runnable_resume

  module _ (laws : IsFloat F) where
    open laws use {
      refl_of_le, le_trans, le_total, lt-eq-not-le, le_of_lt, not_inf_between, milli_le, milli_lt,
      milli_not_inf, mul_nonneg, mul_down,
    }

    milli-IsFinite : (n : ℕ) → n ≤ 1_000_000 → IsFinite (d.milli n)
    milli-IsFinite n h = (milli_le n n (omega arith), milli_not_inf n h)

    ensure_float-IsFinite :
        (x : F) (n : ℕ) → n ≤ 1_000_000 → IsFinite x → IsFinite (ensure_float x (d.milli n))
    unfolding ensure_float
    ensure_float-IsFinite x n h f = ground (arith, milli-IsFinite n h)

    ensure_float_allow_zero-IsFinite :
        (x y : F) → IsFinite x → IsFinite (ensure_float_allow_zero x y)
    unfolding ensure_float_allow_zero ensure_float
    ensure_float_allow_zero-IsFinite x y f = ground (arith, milli-IsFinite 0 (omega arith))

    pub fill_defaults-IsFiniteConfig :
        (cfg : Config F) → IsFiniteConfig cfg → IsFiniteConfig (fill_defaults cfg)
    unfolding fill_defaults
    fill_defaults-IsFiniteConfig cfg f = record {
      target_start_finite = ensure_float-IsFinite _ 220 (omega arith) f.target_start_finite;
      target_min_finite = ensure_float-IsFinite _ 200 (omega arith) f.target_min_finite;
      target_max_finite = ensure_float-IsFinite _ 320 (omega arith) f.target_max_finite;
      step_up_finite = ensure_float-IsFinite _ 10 (omega arith) f.step_up_finite;
      step_down_finite = ensure_float-IsFinite _ 5 (omega arith) f.step_down_finite;
      fallback_finite = ensure_float-IsFinite _ 220 (omega arith) f.fallback_finite;
      goal_low_finite = ensure_float-IsFinite _ 210 (omega arith) f.goal_low_finite;
      goal_high_finite = ensure_float-IsFinite _ 270 (omega arith) f.goal_high_finite;
      threshold_finite = ensure_float_allow_zero-IsFinite _ _ f.threshold_finite;
      resume_finite = ensure_float_allow_zero-IsFinite _ _ f.resume_finite;
      runnable_threshold_finite = ensure_float_allow_zero-IsFinite _ _ f.runnable_threshold_finite;
      runnable_resume_finite = ensure_float_allow_zero-IsFinite _ _ f.runnable_resume_finite;
    }

    coerce_runnable_resume-IsNumber :
        (t r : F) → IsFinite t → IsFinite r → IsNumber (coerce_runnable_resume t r)
    unfolding coerce_runnable_resume
    coerce_runnable_resume-IsNumber t r ft fr =
        let tenths = milli-IsFinite 800 (omega arith) in
        let zero_number = milli_le 0 0 (omega arith) in
        ground (
          arith,
          zero_number,
          le_total t nought ft.0 zero_number,
          mul_nonneg t (d.milli 800) ft tenths,
          milli_le 0 800 (omega arith),
          refl_of_le nought (d.mul t (d.milli 800)),
        )

    coerce_resume-IsNumber : (t r : F) → IsFinite t → IsFinite r → IsNumber (coerce_resume t r)
    unfolding coerce_resume coerce_runnable_resume
    coerce_resume-IsNumber t r ft fr =
        let zero_number = milli_le 0 0 (omega arith) in
        ground (arith, zero_number, coerce_runnable_resume-IsNumber t r ft fr)

    clamp-IsFinite : (x : F) → IsFinite x → IsFinite (clamp x nought unity)
    clamp-IsFinite x f =
        let (low, high) = clamp_bounds laws x nought unity f.0 (milli_le 0 1000 (omega arith)) in
        (
          (refl_of_le _ _ high).0,
          not_inf_between nought _ unity (milli_not_inf 0 (omega arith))
              (milli_not_inf 1000 (omega arith)) low high,
        )

    floor_zero-IsFinite : (x : F) → IsFinite x → IsFinite (floor_zero x)
    unfolding floor_zero
    floor_zero-IsFinite x f = ground (arith, milli-IsFinite 0 (omega arith))

    pub coerce_config-IsNumeric :
        (raw : Config F) → IsFiniteConfig raw → IsNumeric (coerce_config raw).0
    unfolding coerce_config
    coerce_config-IsNumeric raw f =
        let cfg = fill_defaults raw in
        let g = fill_defaults-IsFiniteConfig raw f in
        let threshold = clamp-IsFinite cfg.suppress_threshold g.threshold_finite in
        let runnable =
          floor_zero-IsFinite cfg.suppress_runnable_threshold g.runnable_threshold_finite in
        record {
          target_start_number = g.target_start_finite.0;
          target_min_number = g.target_min_finite.0;
          target_max_number = g.target_max_finite.0;
          step_up_number = g.step_up_finite.0;
          step_down_number = g.step_down_finite.0;
          fallback_number = g.fallback_finite.0;
          goal_low_number = g.goal_low_finite.0;
          goal_high_number = g.goal_high_finite.0;
          threshold_number = threshold.0;
          resume_number =
              coerce_resume-IsNumber _ _ threshold
                (clamp-IsFinite cfg.suppress_resume g.resume_finite);
          runnable_threshold_number = runnable.0;
          runnable_resume_number =
              coerce_runnable_resume-IsNumber _ _ runnable
                (floor_zero-IsFinite cfg.suppress_runnable_resume g.runnable_resume_finite);
        }
