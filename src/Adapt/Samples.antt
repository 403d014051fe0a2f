-- ===== src/Adapt/Samples.antt =====
-- Test data: the default configuration with an idle pool, and a hot sample.
use oci_cpu_shaper.Base.{◌≡◌, refl, false, none, some, ok, []}
use oci_cpu_shaper.Base.Int.{pos}
use oci_cpu_shaper.Float.Fixed.{Fixed, fixed_float}
use oci_cpu_shaper.Shape.Pool.{Pool}
use oci_cpu_shaper.Adapt.Config.{Config, default_config, normalize_mode_label, enforce_mode_label}
use oci_cpu_shaper.Adapt.Normalize.{
  coerce_config, clamp, coerce_resume, floor_zero, coerce_runnable_resume,
}
use oci_cpu_shaper.Adapt.Validate.{
  validate_controller_config, validate_target_bounds, validate_step_sizes,
  validate_relaxed_confirmations, validate_suppress_smoothing, validate_goal_bounds,
  validate_suppression_thresholds, validate_runnable_thresholds, normalize_config,
}
use oci_cpu_shaper.Adapt.Controller.{Controller, start_controller, new_adaptive_controller}
use oci_cpu_shaper.Adapt.Controller.Observation.{Sample}

abbrev pub idle_pool : Pool Fixed
idle_pool = record {
  workers = pos 2;
  quantum = pos 1_000_000;
  target = some (pos 0);
  pause_threshold = some (pos 800);
  resume_threshold = some (pos 680);
  runnable_guard = some (pos 1200);
  paused = false;
}

abbrev pub defaults : Config Fixed
defaults = default_config

-- What the program does with its defaults: they are accepted as they stand.
abbrev pub started : Controller Fixed
started = start_controller defaults enforce_mode_label idle_pool (some [])

pub defaults_start : new_adaptive_controller defaults idle_pool (some []) ≡ ok started
unfolding new_adaptive_controller normalize_config coerce_config validate_controller_config
    validate_target_bounds validate_step_sizes validate_relaxed_confirmations
    validate_suppress_smoothing validate_goal_bounds validate_suppression_thresholds
    validate_runnable_thresholds default_config normalize_mode_label clamp coerce_resume floor_zero
    coerce_runnable_resume
defaults_start = refl

abbrev pub hot : Sample Fixed
hot = record { utilisation = some (pos 910); runnable = some (pos 300); failure = none }
