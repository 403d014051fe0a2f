-- ===== src/Adapt/Normalize.antt =====
-- pkg/adapt/config_normalize.go: zero fields take their defaults, and the suppression band is put in
-- order.
use oci_cpu_shaper.Base.{if◌then◌else◌}
use oci_cpu_shaper.Base.Int.{ℤ, pos, leb_ℤ, eqb_ℤ}
use oci_cpu_shaper.Base.Text.{Text}
use oci_cpu_shaper.Float.{Float, nought, unity, is_nan}
use oci_cpu_shaper.Adapt.Config.{Config, default_config, normalize_mode_label}

unfoldable pub ensure_duration : ℤ → ℤ → ℤ
ensure_duration value fallback = if leb_ℤ value (pos 0) then fallback else value

unfoldable pub ensure_int : ℤ → ℤ → ℤ
ensure_int value fallback = if eqb_ℤ value (pos 0) then fallback else value

unfoldable pub ensure_int_allow_zero : ℤ → ℤ → ℤ
unfolding ensure_int
ensure_int_allow_zero value fallback =
    if eqb_ℤ value (pos 0) then pos 0 else ensure_int value fallback

module _ {F : Type 0} ⦃d : Float F⦄ where
  open d use {lt, le, eq, mul, milli}

  unfoldable pub ensure_float : F → F → F
  ensure_float value fallback = if eq value nought then fallback else value

  unfoldable pub ensure_float_allow_zero : F → F → F
  unfolding ensure_float
  ensure_float_allow_zero value fallback =
      if eq value nought then nought else ensure_float value fallback

  -- `clamp` of controller_state.go.
  unfoldable pub clamp : F → F → F → F
  clamp value lower upper =
      if lt value lower then lower else if lt upper value then upper else value

  -- `math.Max`: NaN if either is.
  unfoldable pub float_max : F → F → F
  float_max x y = if is_nan x then x else if is_nan y then y else if lt x y then y else x

  -- The first block of `coerceConfig`: defaults for the fields that are zero.
  unfoldable pub fill_defaults : Config F → Config F
  unfolding default_config ensure_duration ensure_float ensure_float_allow_zero ensure_int
      ensure_int_allow_zero
  fill_defaults cfg =
      let defaults : Config F = default_config in
      record {
        resource_id = cfg.resource_id;
        mode = cfg.mode;
        target_start = ensure_float cfg.target_start defaults.target_start;
        target_min = ensure_float cfg.target_min defaults.target_min;
        target_max = ensure_float cfg.target_max defaults.target_max;
        step_up = ensure_float cfg.step_up defaults.step_up;
        step_down = ensure_float cfg.step_down defaults.step_down;
        fallback_target = ensure_float cfg.fallback_target defaults.fallback_target;
        goal_low = ensure_float cfg.goal_low defaults.goal_low;
        goal_high = ensure_float cfg.goal_high defaults.goal_high;
        interval = ensure_duration cfg.interval defaults.interval;
        relaxed_interval = ensure_duration cfg.relaxed_interval defaults.relaxed_interval;
        relaxed_threshold = ensure_float cfg.relaxed_threshold defaults.relaxed_threshold;
        relaxed_confirmations = ensure_int cfg.relaxed_confirmations defaults.relaxed_confirmations;
        suppress_threshold =
            ensure_float_allow_zero cfg.suppress_threshold defaults.suppress_threshold;
        suppress_resume = ensure_float_allow_zero cfg.suppress_resume defaults.suppress_resume;
        suppress_runnable_threshold =
            ensure_float_allow_zero cfg.suppress_runnable_threshold
              defaults.suppress_runnable_threshold;
        suppress_runnable_resume =
            ensure_float_allow_zero cfg.suppress_runnable_resume defaults.suppress_runnable_resume;
        suppress_smoothing_samples =
            ensure_int_allow_zero cfg.suppress_smoothing_samples
              defaults.suppress_smoothing_samples;
      }

  -- The second block of `coerceConfig`, for the host utilisation: the resume threshold that stands
  -- beside `threshold` once both are clamped to [0, 1].
  unfoldable pub coerce_resume : F → F → F
  unfolding float_max
  coerce_resume threshold resume =
      if le threshold nought
      then nought
      else if le threshold resume
      then float_max (mul threshold (milli 800)) nought
      else resume

  -- The same for the runnable tasks of a CPU.
  unfoldable pub coerce_runnable_resume : F → F → F
  coerce_runnable_resume threshold resume =
      if le threshold nought
      then nought
      else if le threshold resume
      then mul threshold (milli 800)
      else resume

  unfoldable pub floor_zero : F → F
  floor_zero x = if lt x nought then nought else x

  unfoldable pub coerce_config : Config F → Config F × Text
  unfolding fill_defaults
  coerce_config raw =
      let cfg = fill_defaults raw in
      let threshold = clamp cfg.suppress_threshold nought unity in
      let resume = clamp cfg.suppress_resume nought unity in
      let runnable = floor_zero cfg.suppress_runnable_threshold in
      let runnable_resume = floor_zero cfg.suppress_runnable_resume in
      let mode = normalize_mode_label cfg.mode in
      (
        record cfg {
          mode = mode;
          suppress_threshold = threshold;
          suppress_resume = coerce_resume threshold resume;
          suppress_runnable_threshold = runnable;
          suppress_runnable_resume = coerce_runnable_resume runnable runnable_resume;
        },
        mode,
      )
