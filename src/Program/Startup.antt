-- ===== src/Program/Startup.antt =====
-- cmd/shaper/bootstrap_metadata.go, run_deps.go, controller_helpers.go and metrics_client_wiring.go: how
-- the controller is built from the configuration and the metadata service, and the exit codes. The
-- builder of the monitoring client and its errors are parameters.
use oci_cpu_shaper.Base.{ℕ, if◌then◌else◌, Option, none, some, Result, ok, err, List}
use oci_cpu_shaper.Base.Text.{Text, text_eq, trim_space, is_empty}
use oci_cpu_shaper.Float.{Float, nought}
use oci_cpu_shaper.Shape.Pool.{Pool}
use oci_cpu_shaper.Adapt.Controller.{
  Controller, Call, set_mode, set_state, set_target, state_string, normal, push,
}
use oci_cpu_shaper.Imds.Client.{Client}
use oci_cpu_shaper.Runtime.Settings.{RuntimeConfig}
use oci_cpu_shaper.Runtime.Build.{
  BuildError, build_worker_pool, build_controller, build_adaptive_controller,
}
use oci_cpu_shaper.Program.Options.{mode_noop, mode_enforce}
use oci_cpu_shaper.Program.Metadata.{
  MetadataError, imds_required, OciMetadata, resolve_instance_id, resolve_compartment_and_region,
  with_metadata, prepare_run_metadata,
}
use oci_cpu_shaper.Program.Sizing.{PoolSizingResult, apply_pool_sizing_from_shape}

abbrev pub exit_code_success : ℕ
exit_code_success = 0

abbrev pub exit_code_runtime_error : ℕ
exit_code_runtime_error = 1

abbrev pub exit_code_parse_error : ℕ
exit_code_parse_error = 2

-- Where the controller's P95 comes from: always the same value, or what the builder made.
pub data MetricsSource (F M : Type 0) : Type 0 where
  static : F → MetricsSource F M
  monitoring : M → MetricsSource F M

pub data StartError (E : Type 0) : Type 0 where
  metadata_failed : MetadataError E → StartError E
  monitoring_failed : Text → StartError E
  build_failed : BuildError → StartError E

-- What the factory returns: a controller that does nothing, or an adaptive one with its source and its
-- pool.
pub data Built (F M : Type 0) : Type 0 where
  noop : Text → Built F M
  adaptive : MetricsSource F M → Controller F → Pool F → Built F M

module _ {F M : Type 0} where
  -- `createMetricsClient`, of the configuration with its compartment and region.
  unfoldable pub create_metrics_client :
      (Text → Text → Result Text M)
      → RuntimeConfig F
      → Text
      → Text
      → Result Text (MetricsSource F M)
  create_metrics_client builder cfg compartment_id region =
      if cfg.oci.offline
      then ok (static cfg.controller.target_start)
      else elim (builder compartment_id region) [
        | err e ↦ err e
        | ok client ↦ ok (monitoring client)
      ]

module _ {F E M : Type 0} ⦃d : Float F⦄ (builder : Text → Text → Result Text M) where
  -- `buildAdaptiveController` from the metrics client on.
  unfoldable pub connect_and_build :
      Text
      → Text
      → OciMetadata
      → RuntimeConfig F
      → Option (List (Call F))
      → Result (StartError E) (Built F M)
  unfolding create_metrics_client build_adaptive_controller
  connect_and_build mode instance_id metadata cfg recorder =
      elim (create_metrics_client builder cfg metadata.compartment_id metadata.region) [
        | err e ↦ err (monitoring_failed e)
        | ok source ↦ elim (build_adaptive_controller cfg instance_id mode recorder) [
          | err e ↦ err (build_failed e)
          | ok (controller, pool) ↦ ok (adaptive source controller pool)
        ]
      ]

  -- `buildAdaptiveController` from the compartment and the region on.
  unfoldable pub resolve_and_connect :
      Text
      → RuntimeConfig F
      → Client F E
      → Option (List (Call F))
      → Text
      → Result (StartError E) (Built F M)
  unfolding resolve_compartment_and_region with_metadata connect_and_build
  resolve_and_connect mode cfg client recorder instance_id =
      elim (resolve_compartment_and_region cfg (some client)) [
        | err e ↦ err (metadata_failed e)
        | ok metadata ↦
            connect_and_build mode instance_id metadata (with_metadata metadata cfg) recorder
      ]

  -- `buildAdaptiveController`.
  unfoldable pub resolve_and_build :
      Text
      → RuntimeConfig F
      → Client F E
      → Option (List (Call F))
      → Result (StartError E) (Built F M)
  unfolding resolve_instance_id resolve_and_connect
  resolve_and_build mode cfg client recorder =
      elim (resolve_instance_id cfg cfg.oci.offline client) [
        | err e ↦ err (metadata_failed e)
        | ok instance_id ↦ resolve_and_connect mode cfg client recorder instance_id
      ]

  -- `defaultControllerFactory`: what it returns, and the calls made on the recorder of a controller that
  -- does nothing.
  unfoldable pub default_controller_factory :
      Text
      → RuntimeConfig F
      → Option (Client F E)
      → Option (List (Call F))
      → Result (StartError E) (Built F M × Option (List (Call F)))
  unfolding trim_space is_empty text_eq resolve_and_build
  default_controller_factory mode cfg client recorder =
      let blank = trim_space mode in
      let trimmed = if is_empty blank then mode_enforce else blank in
      if text_eq trimmed mode_noop
      then ok (
        noop trimmed,
        push (set_target nought)
            (push (set_state (state_string normal)) (push (set_mode trimmed) recorder)),
      )
      else elim client [
        | none ↦ err (metadata_failed imds_required)
        | some c ↦ elim (resolve_and_build trimmed cfg c recorder) [
          | err e ↦ err e
          | ok built ↦ ok (built, recorder)
        ]
      ]

module _ {F E : Type 0} ⦃d : Float F⦄ where
  -- `stageMetadata` from the size of the pool on.
  unfoldable pub stage_sizing :
      RuntimeConfig F
      → Option (Client F E)
      → Text
      → OciMetadata
      → Result ℕ (RuntimeConfig F × OciMetadata × PoolSizingResult F)
  unfolding apply_pool_sizing_from_shape
  stage_sizing cfg client mode metadata = elim (apply_pool_sizing_from_shape cfg mode client) [
    | err e ↦ err exit_code_runtime_error
    | ok (sized, result) ↦ ok (sized, metadata, result)
  ]

  -- `stageMetadata`: the configuration that the controller is built with, or an exit code.
  unfoldable pub stage_metadata :
      RuntimeConfig F
      → Option (Client F E)
      → Text
      → Result ℕ (RuntimeConfig F × OciMetadata × PoolSizingResult F)
  unfolding prepare_run_metadata stage_sizing
  stage_metadata cfg client mode = elim (prepare_run_metadata cfg client mode) [
    | err e ↦ err exit_code_runtime_error
    | ok (prepared, metadata) ↦ stage_sizing prepared client mode metadata
  ]

-- `exitCodeForConfigError`: only a configuration that the controller refuses is an error of the options.
unfoldable pub exit_code_for_start_error : {E : Type 0} → StartError E → ℕ
exit_code_for_start_error (build_failed (build_controller e)) = exit_code_parse_error
exit_code_for_start_error (build_failed (build_worker_pool e)) = exit_code_runtime_error
exit_code_for_start_error (metadata_failed e) = exit_code_runtime_error
exit_code_for_start_error (monitoring_failed e) = exit_code_runtime_error

-- How a run of the controller ends.
pub data RunResult : Type 0 where
  completed canceled deadline_exceeded : RunResult
  failed : Text → RunResult

unfoldable pub exit_code_of_run : RunResult → ℕ
exit_code_of_run completed = exit_code_success
exit_code_of_run canceled = exit_code_success
exit_code_of_run deadline_exceeded = exit_code_success
exit_code_of_run (failed e) = exit_code_runtime_error

-- `prepareController` up to the metrics stage: the controller with the configuration it was built with,
-- or an exit code.
module _ {F E M : Type 0} ⦃d : Float F⦄ (builder : Text → Text → Result Text M) where
  unfoldable pub prepare_controller :
      RuntimeConfig F
      → Option (Client F E)
      → Text
      → Option (List (Call F))
      → Result ℕ (RuntimeConfig F × Built F M × Option (List (Call F)))
  unfolding stage_metadata default_controller_factory exit_code_for_start_error
  prepare_controller cfg client mode recorder = elim (stage_metadata cfg client mode) [
    | err code ↦ err code
    | ok (staged, metadata, sizing) ↦
        elim (default_controller_factory builder mode staged client recorder) [
          | err e ↦ err (exit_code_for_start_error e)
          | ok (built, calls) ↦ ok (staged, built, calls)
        ]
  ]
