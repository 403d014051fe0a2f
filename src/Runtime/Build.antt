-- ===== src/Runtime/Build.antt =====
-- cmd/shaper/controller_helpers.go: what `buildAdaptiveController` makes of a loaded configuration, once
-- it has its metrics client.
use oci_cpu_shaper.Base.{Option, Result, ok, err, List}
use oci_cpu_shaper.Base.Text.{Text}
use oci_cpu_shaper.Float.{Float}
use oci_cpu_shaper.Shape.Pool.{Pool, PoolError, new_pool, set_pause_thresholds, set_runnable_guard}
use oci_cpu_shaper.Adapt.Config.{Config}
use oci_cpu_shaper.Adapt.Validate.{InvalidConfig}
use oci_cpu_shaper.Adapt.Controller.{Controller, Call, new_adaptive_controller}
use oci_cpu_shaper.Runtime.Settings.{RuntimeConfig, to_adapt_config}

pub data BuildError : Type 0 where
  build_worker_pool : PoolError → BuildError
  build_controller : InvalidConfig → BuildError

module _ {F : Type 0} where
  -- The configuration of the controller, with its instance and mode.
  unfoldable pub labelled : RuntimeConfig F → Text → Text → Config F
  unfolding to_adapt_config
  labelled cfg instance_id mode = record (to_adapt_config cfg) {
    resource_id = instance_id;
    mode = mode;
  }

module _ {F : Type 0} ⦃d : Float F⦄ where
  unfoldable pub configured_pool : RuntimeConfig F → Pool F → Pool F
  configured_pool cfg pool =
      set_runnable_guard cfg.pool.runnable_guard
        (set_pause_thresholds cfg.pool.pause_threshold cfg.pool.resume_threshold pool)

  unfoldable pub build_adaptive_controller :
      RuntimeConfig F
      → Text
      → Text
      → Option (List (Call F))
      → Result BuildError (Controller F × Pool F)
  build_adaptive_controller cfg instance_id mode recorder =
      elim (new_pool cfg.pool.workers cfg.pool.quantum) [
        | err e ↦ err (build_worker_pool e)
        | ok blank ↦
            let pool = configured_pool cfg blank in
            elim (new_adaptive_controller (labelled cfg instance_id mode) pool recorder) [
              | err e ↦ err (build_controller e)
              | ok controller ↦ ok (controller, pool)
            ]
      ]
