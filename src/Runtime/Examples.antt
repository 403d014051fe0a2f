-- ===== src/Runtime/Examples.antt =====
-- A configuration from a file and the environment, on fixed-point numbers.
use oci_cpu_shaper.Base.{◌≡◌, ◌↔◌, refl, arith, false, if◌then◌else◌, none, some, ok}
use oci_cpu_shaper.Base.Int.{pos}
use oci_cpu_shaper.Base.Text.{Text, codes, text_eq, digits_value, trim_space, is_empty, to_lower}
use oci_cpu_shaper.Float.Fixed.{Fixed, fixed_float, Fixed-IsFloat}
use oci_cpu_shaper.Shape.Pool.{Pool}
use oci_cpu_shaper.Shape.Bounds.{IsValid}
use oci_cpu_shaper.Adapt.Config.{default_config, normalize_mode_label}
use oci_cpu_shaper.Adapt.Normalize.{
  coerce_config, fill_defaults, clamp, coerce_resume, coerce_runnable_resume, floor_zero,
  ensure_float, ensure_float_allow_zero, ensure_duration, ensure_int, ensure_int_allow_zero,
}
use oci_cpu_shaper.Adapt.Validate.{
  validate_config, validate_controller_config, validate_target_bounds, validate_step_sizes,
  validate_relaxed_confirmations, validate_suppress_smoothing, validate_goal_bounds,
  validate_suppression_thresholds, validate_runnable_thresholds,
}
use oci_cpu_shaper.Adapt.Controller.{Controller}
use oci_cpu_shaper.Runtime.Settings.{RuntimeConfig, FileConfig, default_runtime, to_adapt_config}
use oci_cpu_shaper.Runtime.Sources.{
  Parsers, Environment, assign, assign_string, trimmed, env_string, env_string_allow_empty,
  bool_word, env_bool, env_float, env_duration, env_int, env_int_allow_zero, merge_file,
  merge_controller_config, merge_estimator_config, merge_pool_config, merge_http_config,
  merge_oci_config, apply_env_overrides,
}
use oci_cpu_shaper.Runtime.Load.{
  FileRead, decoded, load, validate_runtime_config, merged_file, merge_runtime_config_file,
  validated, validate_pool_settings, validate_loop_intervals, validate_controller_thresholds,
  ensure_positive, ensure_positive_float, ensure_within_target_bounds,
}
use oci_cpu_shaper.Runtime.Checks.{IsConsistent, IsNumericController, validate_runtime_config_iff}
use oci_cpu_shaper.Runtime.Build.{build_adaptive_controller}
use oci_cpu_shaper.Runtime.Precedence.{IsLayered}
use oci_cpu_shaper.Runtime.Layers.{load-IsLayered}
use oci_cpu_shaper.Runtime.Accepted.{load_then_build}

-- Thousandths for floats, and no durations.
abbrev parsers : Parsers Fixed
unfolding digits_value
parsers = record {
  parse_float = λ t. elim (digits_value 0 t) [ none ↦ none | some n ↦ some (some (pos n)) ];
  atoi = λ t. elim (digits_value 0 t) [ none ↦ none | some n ↦ some (pos n) ];
  parse_duration = λ t. none;
}

abbrev env : Environment
unfolding text_eq
env key = if text_eq key (codes "SHAPER_TARGET_START") then some (codes " 250 ") else none

abbrev file : FileConfig Fixed
file = record {
  controller = record {
    target_start = some (some (pos 300));
    target_min = none;
    target_max = some (some (pos 350));
    step_up = none;
    step_down = none;
    fallback_target = none;
    goal_low = none;
    goal_high = none;
    interval = none;
    relaxed_interval = none;
    relaxed_threshold = none;
    relaxed_confirmations = none;
    suppress_threshold = none;
    suppress_resume = none;
    suppress_runnable_threshold = none;
    suppress_runnable_resume = none;
    suppress_smoothing_samples = none;
  };
  estimator = record { interval = none };
  pool = record {
    workers = some (pos 4);
    auto_size_from_shape = none;
    quantum = none;
    pause_threshold = none;
    resume_threshold = none;
    runnable_guard = none;
  };
  http = record { bind = some (codes " :9200") };
  oci = record { compartment_id = none; region = none; instance_id = none; offline = none };
}

abbrev read : Text → FileRead Fixed
read path = decoded file

abbrev path : Text
path = codes "/etc/shaper.yaml"

abbrev loaded : RuntimeConfig Fixed
unfolding default_runtime
loaded =
    let defaults : RuntimeConfig Fixed = default_runtime in
    record defaults {
      controller = record defaults.controller {
        target_start = some (pos 250);
        target_max = some (pos 350);
      };
      pool = record defaults.pool { workers = pos 4 };
      http = record { bind = codes ":9200" };
    }

load-loaded : load parsers env read path ≡ ok loaded
unfolding load merged_file merge_runtime_config_file merge_file merge_controller_config
    merge_estimator_config merge_pool_config merge_http_config merge_oci_config default_runtime
    default_config assign assign_string trim_space is_empty apply_env_overrides env_float
    env_duration env_int env_int_allow_zero env_string env_string_allow_empty env_bool trimmed
    bool_word to_lower digits_value text_eq validated validate_runtime_config validate_pool_settings
    validate_loop_intervals validate_controller_thresholds ensure_positive ensure_positive_float
    ensure_within_target_bounds to_adapt_config validate_config coerce_config fill_defaults clamp
    coerce_resume coerce_runnable_resume floor_zero validate_controller_config
    validate_target_bounds validate_step_sizes validate_relaxed_confirmations
    validate_suppress_smoothing validate_goal_bounds validate_suppression_thresholds
    validate_runnable_thresholds ensure_float ensure_float_allow_zero ensure_duration ensure_int
    ensure_int_allow_zero normalize_mode_label
load-loaded = refl

loaded-IsNumericController : IsNumericController loaded.controller
unfolding default_runtime default_config loaded
loaded-IsNumericController = ground arith

path_named : is_empty (trim_space path) ≡ false
unfolding is_empty trim_space
path_named = refl

load-IsLayered_example : IsLayered parsers env file loaded
load-IsLayered_example = load-IsLayered parsers env read path file path_named refl load-loaded

load_then_build_example :
    (c : Controller Fixed) × (pool : Pool Fixed) × (build_adaptive_controller loaded
        (codes "ocid1")
        (codes "dry-run")
        none
      ≡ ok (c, pool))
    × IsValid pool
load_then_build_example =
    load_then_build Fixed-IsFloat parsers env read path (codes "ocid1") (codes "dry-run") none
      load-loaded

validate_runtime_config_iff_example : (validate_runtime_config loaded ≡ none) ↔ IsConsistent loaded
validate_runtime_config_iff_example =
    validate_runtime_config_iff Fixed-IsFloat loaded loaded-IsNumericController
