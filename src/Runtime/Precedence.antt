-- ===== src/Runtime/Precedence.antt =====
-- The order in which the sources of a setting count: pkg/runtimeconfig's environment, then its file,
-- then its defaults, for each setting of the configuration.
use oci_cpu_shaper.Base.{◌≡◌, false, none, []}
use oci_cpu_shaper.Base.Int.{pos}
use oci_cpu_shaper.Base.Text.{codes, trim_space}
use oci_cpu_shaper.Float.{Float}
use oci_cpu_shaper.Runtime.Settings.{RuntimeConfig, FileConfig}
use oci_cpu_shaper.Runtime.Sources.{Parsers, Environment, trimmed}
use oci_cpu_shaper.Runtime.Layered.{
  layered, map_text, bool_in, text_in, float_in, duration_in, int_in,
}

module _ {F : Type 0} ⦃d : Float F⦄ where
  open d use {milli}

  -- Every setting is what its variable says, or else what the file says, or else its default.
  pub record IsLayered (parsers : Parsers F) (env : Environment) (file : FileConfig F)
      (cfg : RuntimeConfig F) : Type 0 where
    pub controller_target_start :
        cfg.controller.target_start
        ≡ layered
            (float_in parsers env (codes "SHAPER_TARGET_START"))
            file.controller.target_start
            (milli 220)
    pub controller_target_min :
        cfg.controller.target_min
        ≡ layered
            (float_in parsers env (codes "SHAPER_TARGET_MIN"))
            file.controller.target_min
            (milli 200)
    pub controller_target_max :
        cfg.controller.target_max
        ≡ layered
            (float_in parsers env (codes "SHAPER_TARGET_MAX"))
            file.controller.target_max
            (milli 320)
    pub controller_step_up :
        cfg.controller.step_up
        ≡ layered (float_in parsers env (codes "SHAPER_STEP_UP")) file.controller.step_up (milli 10)
    pub controller_step_down :
        cfg.controller.step_down
        ≡ layered
            (float_in parsers env (codes "SHAPER_STEP_DOWN"))
            file.controller.step_down
            (milli 5)
    pub controller_fallback_target :
        cfg.controller.fallback_target
        ≡ layered
            (float_in parsers env (codes "SHAPER_FALLBACK_TARGET"))
            file.controller.fallback_target
            (milli 220)
    pub controller_goal_low :
        cfg.controller.goal_low
        ≡ layered
            (float_in parsers env (codes "SHAPER_GOAL_LOW"))
            file.controller.goal_low
            (milli 210)
    pub controller_goal_high :
        cfg.controller.goal_high
        ≡ layered
            (float_in parsers env (codes "SHAPER_GOAL_HIGH"))
            file.controller.goal_high
            (milli 270)
    pub controller_interval :
        cfg.controller.interval
        ≡ layered
            (duration_in parsers env (codes "SHAPER_SLOW_INTERVAL"))
            file.controller.interval
            (pos 3_600_000_000_000)
    pub controller_relaxed_interval :
        cfg.controller.relaxed_interval
        ≡ layered
            (duration_in parsers env (codes "SHAPER_SLOW_INTERVAL_RELAXED"))
            file.controller.relaxed_interval
            (pos 14_400_000_000_000)
    pub controller_relaxed_threshold :
        cfg.controller.relaxed_threshold
        ≡ layered
            (float_in parsers env (codes "SHAPER_RELAXED_THRESHOLD"))
            file.controller.relaxed_threshold
            (milli 260)
    pub controller_relaxed_confirmations :
        cfg.controller.relaxed_confirmations
        ≡ layered
            (int_in parsers env 1 (codes "SHAPER_RELAXED_CONFIRMATIONS"))
            file.controller.relaxed_confirmations
            (pos 2)
    pub controller_suppress_threshold :
        cfg.controller.suppress_threshold
        ≡ layered
            (float_in parsers env (codes "SHAPER_SUPPRESS_THRESHOLD"))
            file.controller.suppress_threshold
            (milli 800)
    pub controller_suppress_resume :
        cfg.controller.suppress_resume
        ≡ layered
            (float_in parsers env (codes "SHAPER_SUPPRESS_RESUME"))
            file.controller.suppress_resume
            (milli 680)
    pub controller_suppress_runnable_threshold :
        cfg.controller.suppress_runnable_threshold
        ≡ layered
            (float_in parsers env (codes "SHAPER_SUPPRESS_RUNNABLE_THRESHOLD"))
            file.controller.suppress_runnable_threshold
            (milli 1200)
    pub controller_suppress_runnable_resume :
        cfg.controller.suppress_runnable_resume
        ≡ layered
            (float_in parsers env (codes "SHAPER_SUPPRESS_RUNNABLE_RESUME"))
            file.controller.suppress_runnable_resume
            (milli 960)
    pub controller_suppress_smoothing_samples :
        cfg.controller.suppress_smoothing_samples
        ≡ layered
            (int_in parsers env 0 (codes "SHAPER_SUPPRESS_SMOOTHING_SAMPLES"))
            file.controller.suppress_smoothing_samples
            (pos 5)
    pub estimator_interval :
        cfg.estimator.interval
        ≡ layered
            (duration_in parsers env (codes "SHAPER_FAST_INTERVAL"))
            file.estimator.interval
            (pos 1_000_000_000)
    pub pool_workers :
        cfg.pool.workers
        ≡ layered (int_in parsers env 1 (codes "SHAPER_WORKER_COUNT")) file.pool.workers (pos 2)
    pub pool_auto_size_from_shape :
        cfg.pool.auto_size_from_shape
        ≡ layered
            (bool_in env (codes "SHAPER_WORKER_AUTOSIZE"))
            file.pool.auto_size_from_shape
            false
    pub pool_quantum : cfg.pool.quantum ≡ layered none file.pool.quantum (pos 1_000_000)
    pub pool_pause_threshold :
        cfg.pool.pause_threshold
        ≡ layered
            (float_in parsers env (codes "SHAPER_POOL_PAUSE_THRESHOLD"))
            file.pool.pause_threshold
            (milli 800)
    pub pool_resume_threshold :
        cfg.pool.resume_threshold
        ≡ layered
            (float_in parsers env (codes "SHAPER_POOL_RESUME_THRESHOLD"))
            file.pool.resume_threshold
            (milli 680)
    pub pool_runnable_guard :
        cfg.pool.runnable_guard
        ≡ layered
            (float_in parsers env (codes "SHAPER_POOL_RUNNABLE_GUARD"))
            file.pool.runnable_guard
            (milli 1200)
    pub http_bind :
        cfg.http.bind
        ≡ layered
            (text_in env (codes "HTTP_ADDR"))
            (map_text trim_space file.http.bind)
            (codes ":9108")
    pub oci_compartment_id :
        cfg.oci.compartment_id
        ≡ layered
            (trimmed env (codes "OCI_COMPARTMENT_ID"))
            (map_text trim_space file.oci.compartment_id)
            []
    pub oci_region :
        cfg.oci.region
        ≡ layered (trimmed env (codes "OCI_REGION")) (map_text trim_space file.oci.region) []
    pub oci_instance_id :
        cfg.oci.instance_id
        ≡ layered
            (trimmed env (codes "OCI_INSTANCE_ID"))
            (map_text trim_space file.oci.instance_id)
            []
    pub oci_offline :
        cfg.oci.offline ≡ layered (bool_in env (codes "OCI_OFFLINE")) file.oci.offline false
