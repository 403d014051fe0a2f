-- ===== src/Runtime/Sources.antt =====
-- pkg/runtimeconfig/merge.go and env.go: the file and the environment over the defaults. The YAML
-- decoder and the number parsers of the standard library are parameters.
use oci_cpu_shaper.Base.{Bool, true, false, ◌||◌, if◌then◌else◌, Option, none, some}
use oci_cpu_shaper.Base.Int.{ℤ, pos, leb_ℤ, ltb_ℤ}
use oci_cpu_shaper.Base.Text.{Text, codes, text_eq, trim_space, to_lower, is_empty}
use oci_cpu_shaper.Runtime.Settings.{
  RuntimeConfig, ControllerConfig, EstimatorConfig, PoolConfig, HttpConfig, OciConfig, FileConfig,
  ControllerFileConfig, EstimatorFileConfig, PoolFileConfig, HttpFileConfig, OciFileConfig,
}

-- `strconv.ParseFloat`, `strconv.Atoi` and `time.ParseDuration`, `none` for an error.
pub record Parsers (F : Type 0) : Type 0 where
  pub parse_float : Text → Option F
  pub atoi : Text → Option ℤ
  pub parse_duration : Text → Option ℤ

-- `os.LookupEnv`.
abbrev pub Environment : Type 0
Environment = Text → Option Text

-- `assignFloat`, `assignDuration`, `assignInt` and `assignBool`.
unfoldable pub assign : {A : Type 0} → A → Option A → A
assign target none = target
assign target (some value) = value

unfoldable pub assign_string : Text → Option Text → Text
unfolding trim_space
assign_string target none = target
assign_string target (some value) = trim_space value

unfoldable pub merge_estimator_config : EstimatorConfig → EstimatorFileConfig → EstimatorConfig
unfolding assign
merge_estimator_config dst src = record { interval = assign dst.interval src.interval }

unfoldable pub merge_http_config : HttpConfig → HttpFileConfig → HttpConfig
unfolding assign assign_string
merge_http_config dst src = record { bind = assign_string dst.bind src.bind }

unfoldable pub merge_oci_config : OciConfig → OciFileConfig → OciConfig
unfolding assign assign_string
merge_oci_config dst src = record {
  compartment_id = assign_string dst.compartment_id src.compartment_id;
  region = assign_string dst.region src.region;
  instance_id = assign_string dst.instance_id src.instance_id;
  offline = assign dst.offline src.offline;
}

-- A variable that is set, and not to white space only, without the white space around it.
unfoldable pub trimmed : Environment → Text → Option Text
unfolding trim_space is_empty
trimmed env key = elim (env key) [
  | none ↦ none
  | some value ↦ let t = trim_space value in if is_empty t then none else some t
]

unfoldable pub env_string : Environment → Text → Text → Text
unfolding trimmed
env_string env key fallback = elim (trimmed env key) [ none ↦ fallback | some t ↦ t ]

unfoldable pub env_string_allow_empty : Environment → Text → Text → Text
unfolding trim_space
env_string_allow_empty env key fallback = elim (env key) [
  | none ↦ fallback
  | some value ↦ trim_space value
]

-- The two cases of the switch, and `none` where neither fits.
unfoldable pub bool_word : Text → Option Bool
unfolding text_eq
bool_word t =
    if text_eq t (codes "1")
      || (text_eq t (codes "t")
          || (text_eq t (codes "true") || (text_eq t (codes "yes") || text_eq t (codes "y"))))
    then some true
    else if text_eq t (codes "0")
        || (text_eq t (codes "f")
            || (text_eq t (codes "false") || (text_eq t (codes "no") || text_eq t (codes "n"))))
    then some false
    else none

unfoldable pub env_bool : Environment → Text → Bool → Bool
unfolding bool_word trim_space to_lower assign
env_bool env key fallback = elim (env key) [
  | none ↦ fallback
  | some value ↦ assign fallback (bool_word (trim_space (to_lower value)))
]

module _ {F : Type 0} where
  unfoldable pub merge_controller_config :
      ControllerConfig F → ControllerFileConfig F → ControllerConfig F
  unfolding assign
  merge_controller_config dst src = record {
    target_start = assign dst.target_start src.target_start;
    target_min = assign dst.target_min src.target_min;
    target_max = assign dst.target_max src.target_max;
    step_up = assign dst.step_up src.step_up;
    step_down = assign dst.step_down src.step_down;
    fallback_target = assign dst.fallback_target src.fallback_target;
    goal_low = assign dst.goal_low src.goal_low;
    goal_high = assign dst.goal_high src.goal_high;
    interval = assign dst.interval src.interval;
    relaxed_interval = assign dst.relaxed_interval src.relaxed_interval;
    relaxed_threshold = assign dst.relaxed_threshold src.relaxed_threshold;
    relaxed_confirmations = assign dst.relaxed_confirmations src.relaxed_confirmations;
    suppress_threshold = assign dst.suppress_threshold src.suppress_threshold;
    suppress_resume = assign dst.suppress_resume src.suppress_resume;
    suppress_runnable_threshold =
        assign dst.suppress_runnable_threshold src.suppress_runnable_threshold;
    suppress_runnable_resume = assign dst.suppress_runnable_resume src.suppress_runnable_resume;
    suppress_smoothing_samples =
        assign dst.suppress_smoothing_samples src.suppress_smoothing_samples;
  }

  unfoldable pub merge_pool_config : PoolConfig F → PoolFileConfig F → PoolConfig F
  unfolding assign
  merge_pool_config dst src = record {
    workers = assign dst.workers src.workers;
    auto_size_from_shape = assign dst.auto_size_from_shape src.auto_size_from_shape;
    quantum = assign dst.quantum src.quantum;
    pause_threshold = assign dst.pause_threshold src.pause_threshold;
    resume_threshold = assign dst.resume_threshold src.resume_threshold;
    runnable_guard = assign dst.runnable_guard src.runnable_guard;
  }

  -- The end of `mergeRuntimeConfigFile`, once the file is decoded.
  unfoldable pub merge_file : RuntimeConfig F → FileConfig F → RuntimeConfig F
  unfolding merge_controller_config merge_estimator_config merge_pool_config merge_http_config
      merge_oci_config
  merge_file cfg src = record {
    controller = merge_controller_config cfg.controller src.controller;
    estimator = merge_estimator_config cfg.estimator src.estimator;
    pool = merge_pool_config cfg.pool src.pool;
    http = merge_http_config cfg.http src.http;
    oci = merge_oci_config cfg.oci src.oci;
  }

  unfoldable pub env_float : Parsers F → Environment → Text → F → F
  unfolding trimmed
  env_float parsers env key fallback = elim (trimmed env key) [
    | none ↦ fallback
    | some t ↦ elim (parsers.parse_float t) [ none ↦ fallback | some x ↦ x ]
  ]

  unfoldable pub env_duration : Parsers F → Environment → Text → ℤ → ℤ
  unfolding trimmed
  env_duration parsers env key fallback = elim (trimmed env key) [
    | none ↦ fallback
    | some t ↦ elim (parsers.parse_duration t) [ none ↦ fallback | some x ↦ x ]
  ]

  unfoldable pub env_int : Parsers F → Environment → Text → ℤ → ℤ
  unfolding trimmed
  env_int parsers env key fallback = elim (trimmed env key) [
    | none ↦ fallback
    | some t ↦ elim (parsers.atoi t) [
      | none ↦ fallback
      | some x ↦ if leb_ℤ x (pos 0) then fallback else x
    ]
  ]

  unfoldable pub env_int_allow_zero : Parsers F → Environment → Text → ℤ → ℤ
  unfolding trimmed
  env_int_allow_zero parsers env key fallback = elim (trimmed env key) [
    | none ↦ fallback
    | some t ↦ elim (parsers.atoi t) [
      | none ↦ fallback
      | some x ↦ if ltb_ℤ x (pos 0) then fallback else x
    ]
  ]

  unfoldable pub apply_env_overrides : Parsers F → Environment → RuntimeConfig F → RuntimeConfig F
  unfolding env_float env_duration env_int env_int_allow_zero env_string env_string_allow_empty
      env_bool
  apply_env_overrides parsers env cfg = record {
    controller = record cfg.controller {
      target_start =
          env_float parsers env (codes "SHAPER_TARGET_START") cfg.controller.target_start;
      target_min = env_float parsers env (codes "SHAPER_TARGET_MIN") cfg.controller.target_min;
      target_max = env_float parsers env (codes "SHAPER_TARGET_MAX") cfg.controller.target_max;
      step_up = env_float parsers env (codes "SHAPER_STEP_UP") cfg.controller.step_up;
      step_down = env_float parsers env (codes "SHAPER_STEP_DOWN") cfg.controller.step_down;
      fallback_target =
          env_float parsers env (codes "SHAPER_FALLBACK_TARGET") cfg.controller.fallback_target;
      goal_low = env_float parsers env (codes "SHAPER_GOAL_LOW") cfg.controller.goal_low;
      goal_high = env_float parsers env (codes "SHAPER_GOAL_HIGH") cfg.controller.goal_high;
      interval = env_duration parsers env (codes "SHAPER_SLOW_INTERVAL") cfg.controller.interval;
      relaxed_interval =
          env_duration parsers env (codes "SHAPER_SLOW_INTERVAL_RELAXED")
            cfg.controller.relaxed_interval;
      relaxed_threshold =
          env_float parsers env (codes "SHAPER_RELAXED_THRESHOLD") cfg.controller.relaxed_threshold;
      relaxed_confirmations =
          env_int parsers env (codes "SHAPER_RELAXED_CONFIRMATIONS")
            cfg.controller.relaxed_confirmations;
      suppress_threshold =
          env_float parsers env (codes "SHAPER_SUPPRESS_THRESHOLD")
            cfg.controller.suppress_threshold;
      suppress_resume =
          env_float parsers env (codes "SHAPER_SUPPRESS_RESUME") cfg.controller.suppress_resume;
      suppress_runnable_threshold =
          env_float parsers env (codes "SHAPER_SUPPRESS_RUNNABLE_THRESHOLD")
            cfg.controller.suppress_runnable_threshold;
      suppress_runnable_resume =
          env_float parsers env (codes "SHAPER_SUPPRESS_RUNNABLE_RESUME")
            cfg.controller.suppress_runnable_resume;
      suppress_smoothing_samples =
          env_int_allow_zero parsers env (codes "SHAPER_SUPPRESS_SMOOTHING_SAMPLES")
            cfg.controller.suppress_smoothing_samples;
    };
    estimator = record cfg.estimator {
      interval = env_duration parsers env (codes "SHAPER_FAST_INTERVAL") cfg.estimator.interval;
    };
    pool = record cfg.pool {
      workers = env_int parsers env (codes "SHAPER_WORKER_COUNT") cfg.pool.workers;
      auto_size_from_shape =
          env_bool env (codes "SHAPER_WORKER_AUTOSIZE") cfg.pool.auto_size_from_shape;
      pause_threshold =
          env_float parsers env (codes "SHAPER_POOL_PAUSE_THRESHOLD") cfg.pool.pause_threshold;
      resume_threshold =
          env_float parsers env (codes "SHAPER_POOL_RESUME_THRESHOLD") cfg.pool.resume_threshold;
      runnable_guard =
          env_float parsers env (codes "SHAPER_POOL_RUNNABLE_GUARD") cfg.pool.runnable_guard;
    };
    http = record cfg.http { bind = env_string_allow_empty env (codes "HTTP_ADDR") cfg.http.bind };
    oci = record cfg.oci {
      compartment_id = env_string env (codes "OCI_COMPARTMENT_ID") cfg.oci.compartment_id;
      region = env_string env (codes "OCI_REGION") cfg.oci.region;
      instance_id = env_string env (codes "OCI_INSTANCE_ID") cfg.oci.instance_id;
      offline = env_bool env (codes "OCI_OFFLINE") cfg.oci.offline;
    };
  }
