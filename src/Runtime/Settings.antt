-- ===== src/Runtime/Settings.antt =====
-- pkg/runtimeconfig/config.go and defaults.go: the configuration, what a file may set of it, and the
-- defaults. A duration is a number of nanoseconds.
use oci_cpu_shaper.Base.{Bool, false, Option, []}
use oci_cpu_shaper.Base.Int.{ℤ, pos}
use oci_cpu_shaper.Base.Text.{Text, codes}
use oci_cpu_shaper.Float.{Float}
use oci_cpu_shaper.Adapt.Config.{Config, default_config}
use oci_cpu_shaper.Shape.Pool.{default_quantum}

pub record ControllerConfig (F : Type 0) : Type 0 where
  pub target_start : F
  pub target_min : F
  pub target_max : F
  pub step_up : F
  pub step_down : F
  pub fallback_target : F
  pub goal_low : F
  pub goal_high : F
  pub interval : ℤ
  pub relaxed_interval : ℤ
  pub relaxed_threshold : F
  pub relaxed_confirmations : ℤ
  pub suppress_threshold : F
  pub suppress_resume : F
  pub suppress_runnable_threshold : F
  pub suppress_runnable_resume : F
  pub suppress_smoothing_samples : ℤ

pub record EstimatorConfig : Type 0 where
  pub interval : ℤ

pub record PoolConfig (F : Type 0) : Type 0 where
  pub workers : ℤ
  pub auto_size_from_shape : Bool
  pub quantum : ℤ
  pub pause_threshold : F
  pub resume_threshold : F
  pub runnable_guard : F

pub record HttpConfig : Type 0 where
  pub bind : Text

pub record OciConfig : Type 0 where
  pub compartment_id : Text
  pub region : Text
  pub instance_id : Text
  pub offline : Bool

pub record RuntimeConfig (F : Type 0) : Type 0 where
  pub controller : ControllerConfig F
  pub estimator : EstimatorConfig
  pub pool : PoolConfig F
  pub http : HttpConfig
  pub oci : OciConfig

pub record ControllerFileConfig (F : Type 0) : Type 0 where
  pub target_start : Option F
  pub target_min : Option F
  pub target_max : Option F
  pub step_up : Option F
  pub step_down : Option F
  pub fallback_target : Option F
  pub goal_low : Option F
  pub goal_high : Option F
  pub interval : Option ℤ
  pub relaxed_interval : Option ℤ
  pub relaxed_threshold : Option F
  pub relaxed_confirmations : Option ℤ
  pub suppress_threshold : Option F
  pub suppress_resume : Option F
  pub suppress_runnable_threshold : Option F
  pub suppress_runnable_resume : Option F
  pub suppress_smoothing_samples : Option ℤ

pub record EstimatorFileConfig : Type 0 where
  pub interval : Option ℤ

pub record PoolFileConfig (F : Type 0) : Type 0 where
  pub workers : Option ℤ
  pub auto_size_from_shape : Option Bool
  pub quantum : Option ℤ
  pub pause_threshold : Option F
  pub resume_threshold : Option F
  pub runnable_guard : Option F

pub record HttpFileConfig : Type 0 where
  pub bind : Option Text

pub record OciFileConfig : Type 0 where
  pub compartment_id : Option Text
  pub region : Option Text
  pub instance_id : Option Text
  pub offline : Option Bool

pub record FileConfig (F : Type 0) : Type 0 where
  pub controller : ControllerFileConfig F
  pub estimator : EstimatorFileConfig
  pub pool : PoolFileConfig F
  pub http : HttpFileConfig
  pub oci : OciFileConfig

module _ {F : Type 0} ⦃d : Float F⦄ where
  -- `Default`.
  unfoldable pub default_runtime : RuntimeConfig F
  unfolding default_config
  default_runtime =
      let defaults : Config F = default_config in
      record {
        controller = record {
          target_start = defaults.target_start;
          target_min = defaults.target_min;
          target_max = defaults.target_max;
          step_up = defaults.step_up;
          step_down = defaults.step_down;
          fallback_target = defaults.fallback_target;
          goal_low = defaults.goal_low;
          goal_high = defaults.goal_high;
          interval = defaults.interval;
          relaxed_interval = defaults.relaxed_interval;
          relaxed_threshold = defaults.relaxed_threshold;
          relaxed_confirmations = defaults.relaxed_confirmations;
          suppress_threshold = defaults.suppress_threshold;
          suppress_resume = defaults.suppress_resume;
          suppress_runnable_threshold = defaults.suppress_runnable_threshold;
          suppress_runnable_resume = defaults.suppress_runnable_resume;
          suppress_smoothing_samples = defaults.suppress_smoothing_samples;
        };
        estimator = record { interval = pos 1_000_000_000 };
        pool = record {
          workers = pos 2;
          auto_size_from_shape = false;
          quantum = pos default_quantum;
          pause_threshold = defaults.suppress_threshold;
          resume_threshold = defaults.suppress_resume;
          runnable_guard = defaults.suppress_runnable_threshold;
        };
        http = record { bind = codes ":9108" };
        oci = record { compartment_id = []; region = []; instance_id = []; offline = false };
      }

-- `ToAdaptConfig`.
unfoldable pub to_adapt_config : {F : Type 0} → RuntimeConfig F → Config F
to_adapt_config cfg =
    let c = cfg.controller in
    record {
      resource_id = [];
      mode = [];
      target_start = c.target_start;
      target_min = c.target_min;
      target_max = c.target_max;
      step_up = c.step_up;
      step_down = c.step_down;
      fallback_target = c.fallback_target;
      goal_low = c.goal_low;
      goal_high = c.goal_high;
      interval = c.interval;
      relaxed_interval = c.relaxed_interval;
      relaxed_threshold = c.relaxed_threshold;
      relaxed_confirmations = c.relaxed_confirmations;
      suppress_threshold = c.suppress_threshold;
      suppress_resume = c.suppress_resume;
      suppress_runnable_threshold = c.suppress_runnable_threshold;
      suppress_runnable_resume = c.suppress_runnable_resume;
      suppress_smoothing_samples = c.suppress_smoothing_samples;
    }
