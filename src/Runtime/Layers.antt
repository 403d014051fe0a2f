-- ===== src/Runtime/Layers.antt =====
-- Where the value of a setting comes from: pkg/runtimeconfig's environment, then its file, then its
-- defaults.
use mathlib.Core.Path.{subst, sym}
use oci_cpu_shaper.Base.{◌≡◌, refl, false, ok, [], ◌∙◌}
use oci_cpu_shaper.Base.Int.{pos}
use oci_cpu_shaper.Base.Text.{Text, codes, trim_space, is_empty}
use oci_cpu_shaper.Float.{Float}
use oci_cpu_shaper.Adapt.Config.{default_config}
use oci_cpu_shaper.Runtime.Settings.{RuntimeConfig, FileConfig, default_runtime}
use oci_cpu_shaper.Runtime.Sources.{
  Parsers, Environment, merge_file, merge_controller_config, merge_estimator_config,
  merge_pool_config, merge_http_config, merge_oci_config, apply_env_overrides,
}
use oci_cpu_shaper.Runtime.Accepted.{validated_same}
use oci_cpu_shaper.Runtime.Load.{
  FileRead, decoded, merge_runtime_config_file, merged_file, validated, load,
}
use oci_cpu_shaper.Runtime.Precedence.{IsLayered}
use oci_cpu_shaper.Runtime.Layered.{
  assign_lem, env_string_lem, env_string_allow_empty_lem, env_bool_lem, env_float_lem,
  env_duration_lem, env_int_lem, env_int_allow_zero_lem,
}

module _ {F : Type 0} ⦃d : Float F⦄ where
  open d use {milli}

  overrides-IsLayered :
      (parsers : Parsers F) (env : Environment) (file : FileConfig F)
      → IsLayered parsers env file
          (apply_env_overrides parsers env (merge_file default_runtime file))
  unfolding apply_env_overrides merge_file default_runtime merge_controller_config
      merge_estimator_config merge_pool_config merge_http_config merge_oci_config default_config
  overrides-IsLayered parsers env file = record {
    controller_target_start =
        env_float_lem parsers env (codes "SHAPER_TARGET_START") file.controller.target_start
          (milli 220);
    controller_target_min =
        env_float_lem parsers env (codes "SHAPER_TARGET_MIN") file.controller.target_min
          (milli 200);
    controller_target_max =
        env_float_lem parsers env (codes "SHAPER_TARGET_MAX") file.controller.target_max
          (milli 320);
    controller_step_up =
        env_float_lem parsers env (codes "SHAPER_STEP_UP") file.controller.step_up (milli 10);
    controller_step_down =
        env_float_lem parsers env (codes "SHAPER_STEP_DOWN") file.controller.step_down (milli 5);
    controller_fallback_target =
        env_float_lem parsers env (codes "SHAPER_FALLBACK_TARGET") file.controller.fallback_target
          (milli 220);
    controller_goal_low =
        env_float_lem parsers env (codes "SHAPER_GOAL_LOW") file.controller.goal_low (milli 210);
    controller_goal_high =
        env_float_lem parsers env (codes "SHAPER_GOAL_HIGH") file.controller.goal_high (milli 270);
    controller_interval =
        env_duration_lem parsers env (codes "SHAPER_SLOW_INTERVAL") file.controller.interval
          (pos 3_600_000_000_000);
    controller_relaxed_interval =
        env_duration_lem parsers env (codes "SHAPER_SLOW_INTERVAL_RELAXED")
          file.controller.relaxed_interval (pos 14_400_000_000_000);
    controller_relaxed_threshold =
        env_float_lem parsers env (codes "SHAPER_RELAXED_THRESHOLD")
          file.controller.relaxed_threshold (milli 260);
    controller_relaxed_confirmations =
        env_int_lem parsers env (codes "SHAPER_RELAXED_CONFIRMATIONS")
          file.controller.relaxed_confirmations (pos 2);
    controller_suppress_threshold =
        env_float_lem parsers env (codes "SHAPER_SUPPRESS_THRESHOLD")
          file.controller.suppress_threshold (milli 800);
    controller_suppress_resume =
        env_float_lem parsers env (codes "SHAPER_SUPPRESS_RESUME") file.controller.suppress_resume
          (milli 680);
    controller_suppress_runnable_threshold =
        env_float_lem parsers env (codes "SHAPER_SUPPRESS_RUNNABLE_THRESHOLD")
          file.controller.suppress_runnable_threshold (milli 1200);
    controller_suppress_runnable_resume =
        env_float_lem parsers env (codes "SHAPER_SUPPRESS_RUNNABLE_RESUME")
          file.controller.suppress_runnable_resume (milli 960);
    controller_suppress_smoothing_samples =
        env_int_allow_zero_lem parsers env (codes "SHAPER_SUPPRESS_SMOOTHING_SAMPLES")
          file.controller.suppress_smoothing_samples (pos 5);
    estimator_interval =
        env_duration_lem parsers env (codes "SHAPER_FAST_INTERVAL") file.estimator.interval
          (pos 1_000_000_000);
    pool_workers = env_int_lem parsers env (codes "SHAPER_WORKER_COUNT") file.pool.workers (pos 2);
    pool_auto_size_from_shape =
        env_bool_lem env (codes "SHAPER_WORKER_AUTOSIZE") file.pool.auto_size_from_shape false;
    pool_quantum = assign_lem file.pool.quantum (pos 1_000_000);
    pool_pause_threshold =
        env_float_lem parsers env (codes "SHAPER_POOL_PAUSE_THRESHOLD") file.pool.pause_threshold
          (milli 800);
    pool_resume_threshold =
        env_float_lem parsers env (codes "SHAPER_POOL_RESUME_THRESHOLD") file.pool.resume_threshold
          (milli 680);
    pool_runnable_guard =
        env_float_lem parsers env (codes "SHAPER_POOL_RUNNABLE_GUARD") file.pool.runnable_guard
          (milli 1200);
    http_bind = env_string_allow_empty_lem env (codes "HTTP_ADDR") file.http.bind (codes ":9108");
    oci_compartment_id = env_string_lem env (codes "OCI_COMPARTMENT_ID") file.oci.compartment_id [];
    oci_region = env_string_lem env (codes "OCI_REGION") file.oci.region [];
    oci_instance_id = env_string_lem env (codes "OCI_INSTANCE_ID") file.oci.instance_id [];
    oci_offline = env_bool_lem env (codes "OCI_OFFLINE") file.oci.offline false;
  }

  -- Where `Load` is given a path whose file is decoded and returns a configuration, each of the 29
  -- settings is the value that its environment variable is read as, or else the value in the file, or
  -- else its default. White space around texts is cut off. A variable counts if it is set and read as a
  -- value, a count of workers or confirmations also only if it is positive, one of samples if it is not
  -- negative. The quantum has no variable.
  pub load-IsLayered :
      (parsers : Parsers F) (env : Environment) (read : Text → FileRead F) (path : Text)
      (file : FileConfig F) {cfg : RuntimeConfig F}
      → is_empty (trim_space path) ≡ false
      → read (trim_space path) ≡ decoded file
      → load parsers env read path ≡ ok cfg
      → IsLayered parsers env file cfg
  unfolding merged_file merge_file load validated
  load-IsLayered parsers env read path file {cfg} named there e =
      let merged : merged_file read path ≡ ok (merge_file default_runtime file) =
        rw (merged_file, named, there, merge_runtime_config_file) refl in
      let opened : load parsers env read path
          ≡ validated (apply_env_overrides parsers env (merge_file default_runtime file)) =
        rw (load, merged) refl in
      subst (IsLayered parsers env file)
        (validated_same (apply_env_overrides parsers env (merge_file default_runtime file))
          (sym opened ∙ e))
        (overrides-IsLayered parsers env file)
