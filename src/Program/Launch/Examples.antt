-- ===== src/Program/Launch/Examples.antt =====
-- A start from the defaults with OCI_OFFLINE set, where no service answers.
use oci_cpu_shaper.Base.{◌≡◌, refl, true, if◌then◌else◌, none, some, Result, ok, err, []}
use oci_cpu_shaper.Base.Text.{Text, codes, text_eq, trim_space, is_empty, to_lower}
use oci_cpu_shaper.Float.Fixed.{Fixed, fixed_float, Fixed-IsFloat}
use oci_cpu_shaper.Shape.Pool.{Pool}
use oci_cpu_shaper.Shape.Bounds.{IsValid}
use oci_cpu_shaper.Adapt.Config.{default_config, normalize_mode_label}
use oci_cpu_shaper.Adapt.Normalize.{
  coerce_config, fill_defaults, clamp, coerce_resume, coerce_runnable_resume, floor_zero,
  ensure_float, ensure_float_allow_zero, ensure_duration, ensure_int, ensure_int_allow_zero,
}
use oci_cpu_shaper.Adapt.Validate.{
  validate_config, validate_controller_config, validate_target_bounds, validate_step_sizes,
  validate_relaxed_confirmations, validate_suppress_smoothing, validate_goal_bounds,
  validate_suppression_thresholds, validate_runnable_thresholds,
}
use oci_cpu_shaper.Adapt.Controller.{Controller}
use oci_cpu_shaper.Imds.Client.{Client}
use oci_cpu_shaper.Runtime.Settings.{RuntimeConfig, default_runtime, to_adapt_config}
use oci_cpu_shaper.Runtime.Sources.{
  Parsers, Environment, trimmed, env_string, env_string_allow_empty, bool_word, env_bool, env_float,
  env_duration, env_int, env_int_allow_zero, apply_env_overrides,
}
use oci_cpu_shaper.Runtime.Load.{
  FileRead, missing, load, validate_runtime_config, merged_file, validated, validate_pool_settings,
  validate_loop_intervals, validate_controller_thresholds, ensure_positive, ensure_positive_float,
  ensure_within_target_bounds,
}
use oci_cpu_shaper.Program.Metadata.{OciMetadata, with_metadata}
use oci_cpu_shaper.Program.Startup.{adaptive, static, prepare_controller}
use oci_cpu_shaper.Program.Launch.{load_then_start}

abbrev parsers : Parsers Fixed
parsers = record { parse_float = λ t. none; atoi = λ t. none; parse_duration = λ t. none }

abbrev env : Environment
unfolding text_eq
env key = if text_eq key (codes "OCI_OFFLINE") then some (codes "true") else none

abbrev read : Text → FileRead Fixed
read path = missing

abbrev silent : Client Fixed Text
silent = record {
  region = ([], some (codes "timeout"));
  canonical_region = ([], some (codes "timeout"));
  instance_id = ([], some (codes "timeout"));
  compartment_id = ([], some (codes "timeout"));
  shape_config = err (codes "timeout");
}

abbrev failing : Text → Text → Result Text Text
failing compartment region = err (codes "no principal")

abbrev loaded : RuntimeConfig Fixed
unfolding default_runtime
loaded = record default_runtime {
  oci = record { compartment_id = []; region = []; instance_id = []; offline = true };
}

load-loaded : load parsers env read [] ≡ ok loaded
unfolding load merged_file default_runtime default_config trim_space is_empty apply_env_overrides
    env_float env_duration env_int env_int_allow_zero env_string env_string_allow_empty env_bool
    trimmed bool_word to_lower text_eq validated validate_runtime_config validate_pool_settings
    validate_loop_intervals validate_controller_thresholds ensure_positive ensure_positive_float
    ensure_within_target_bounds to_adapt_config validate_config coerce_config fill_defaults clamp
    coerce_resume coerce_runnable_resume floor_zero validate_controller_config
    validate_target_bounds validate_step_sizes validate_relaxed_confirmations
    validate_suppress_smoothing validate_goal_bounds validate_suppression_thresholds
    validate_runnable_thresholds ensure_float ensure_float_allow_zero ensure_duration ensure_int
    ensure_int_allow_zero normalize_mode_label
load-loaded = refl

load_then_start_example :
    (m : OciMetadata) × (c : Controller Fixed) × (pool : Pool Fixed) × (prepare_controller failing
        loaded
        (some silent)
        (codes " dry-run")
        none
      ≡ ok (with_metadata m loaded, adaptive (static loaded.controller.target_start) c pool, none))
    × IsValid pool
unfolding loaded text_eq trim_space
load_then_start_example =
    load_then_start silent failing Fixed-IsFloat parsers env read [] (codes " dry-run") none
      load-loaded refl refl
