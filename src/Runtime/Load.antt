-- ===== src/Runtime/Load.antt =====
-- pkg/runtimeconfig/validate.go and loader.go: the checks in their order, and `Load`.
use oci_cpu_shaper.Base.{◌||◌, if◌then◌else◌, Option, none, some, Result, ok, err}
use oci_cpu_shaper.Base.Int.{ℤ, pos, leb_ℤ}
use oci_cpu_shaper.Base.Text.{Text, trim_space, is_empty}
use oci_cpu_shaper.Float.{Float, nought}
use oci_cpu_shaper.Adapt.Validate.{InvalidConfig, validate_config}
use oci_cpu_shaper.Runtime.Settings.{
  RuntimeConfig, ControllerConfig, EstimatorConfig, PoolConfig, FileConfig, default_runtime,
  to_adapt_config,
}
use oci_cpu_shaper.Runtime.Sources.{Parsers, Environment, merge_file, apply_env_overrides}

-- The name that a message gives.
pub data Name : Type 0 where
  pool_workers pool_quantum controller_interval controller_relaxed_interval estimator_interval :
      Name
  controller_step_up controller_step_down controller_relaxed_confirmations : Name
  controller_target_start controller_fallback_target controller_goal_low controller_goal_high : Name

pub data InvalidRuntime : Type 0 where
  not_greater_than_zero : Name → InvalidRuntime
  target_min_not_less : InvalidRuntime
  not_between_targets : Name → InvalidRuntime
  goal_low_not_less : InvalidRuntime

-- `if err != nil { return err }`.
infixr 36 ◌or_failure◌
abbrev pub ◌or_failure◌ : Option InvalidRuntime → Option InvalidRuntime → Option InvalidRuntime
some e or_failure next = some e
none or_failure next = next

-- `ensurePositiveDuration` and `ensurePositiveInt`.
unfoldable pub ensure_positive : Name → ℤ → Option InvalidRuntime
ensure_positive name value = if leb_ℤ value (pos 0) then some (not_greater_than_zero name) else none

module _ {F : Type 0} ⦃d : Float F⦄ where
  open d use {lt, le}

  unfoldable pub ensure_positive_float : Name → F → Option InvalidRuntime
  ensure_positive_float name value =
      if le value nought then some (not_greater_than_zero name) else none

  unfoldable pub ensure_within_target_bounds : Name → F → F → F → Option InvalidRuntime
  ensure_within_target_bounds name value lower_bound upper_bound =
      if lt value lower_bound || lt upper_bound value then some (not_between_targets name) else none

  unfoldable pub validate_pool_settings : PoolConfig F → Option InvalidRuntime
  unfolding ensure_positive
  validate_pool_settings pool =
      if leb_ℤ pool.workers (pos 0)
      then some (not_greater_than_zero pool_workers)
      else ensure_positive pool_quantum pool.quantum

  unfoldable pub validate_loop_intervals :
      ControllerConfig F → EstimatorConfig → Option InvalidRuntime
  unfolding ensure_positive ensure_positive_float
  validate_loop_intervals controller estimator =
      ensure_positive controller_interval controller.interval
      or_failure ensure_positive controller_relaxed_interval controller.relaxed_interval
      or_failure ensure_positive estimator_interval estimator.interval
      or_failure ensure_positive_float controller_step_up controller.step_up
      or_failure ensure_positive_float controller_step_down controller.step_down
      or_failure ensure_positive controller_relaxed_confirmations controller.relaxed_confirmations

  unfoldable pub validate_controller_thresholds : ControllerConfig F → Option InvalidRuntime
  unfolding ensure_within_target_bounds
  validate_controller_thresholds c =
      if le c.target_max c.target_min
      then some target_min_not_less
      else within controller_target_start c.target_start
        or_failure within controller_fallback_target c.fallback_target
        or_failure within controller_goal_low c.goal_low
        or_failure within controller_goal_high c.goal_high
        or_failure (if le c.goal_high c.goal_low then some goal_low_not_less else none)
    where
      within : Name → F → Option InvalidRuntime
      within name value = ensure_within_target_bounds name value c.target_min c.target_max

  unfoldable pub validate_runtime_config : RuntimeConfig F → Option InvalidRuntime
  unfolding validate_pool_settings validate_loop_intervals validate_controller_thresholds
  validate_runtime_config cfg =
      validate_pool_settings cfg.pool
      or_failure validate_loop_intervals cfg.controller cfg.estimator
      or_failure validate_controller_thresholds cfg.controller

-- What reading and decoding the file at a path comes to: the file system and the YAML decoder.
pub data FileRead (F : Type 0) : Type 0 where
  missing : FileRead F
  unreadable : Text → FileRead F
  undecodable : Text → FileRead F
  decoded : FileConfig F → FileRead F

pub data LoadError : Type 0 where
  read_config_file : Text → LoadError
  decode_config_file : Text → LoadError
  validate_runtime : InvalidRuntime → LoadError
  validate_controller : InvalidConfig → LoadError

module _ {F : Type 0} where
  unfoldable pub merge_runtime_config_file :
      RuntimeConfig F → FileRead F → Result LoadError (RuntimeConfig F)
  unfolding merge_file
  merge_runtime_config_file cfg missing = ok cfg
  merge_runtime_config_file cfg (unreadable e) = err (read_config_file e)
  merge_runtime_config_file cfg (undecodable e) = err (decode_config_file e)
  merge_runtime_config_file cfg (decoded file) = ok (merge_file cfg file)

module _ {F : Type 0} ⦃d : Float F⦄ where
  -- The first part of `Load`: the defaults, with the file merged where a path is given.
  unfoldable pub merged_file : (Text → FileRead F) → Text → Result LoadError (RuntimeConfig F)
  unfolding merge_runtime_config_file default_runtime trim_space is_empty
  merged_file read path =
      let t = trim_space path in
      if is_empty t then ok default_runtime else merge_runtime_config_file default_runtime (read t)

  -- The rest of it: both validations.
  unfoldable pub validated : RuntimeConfig F → Result LoadError (RuntimeConfig F)
  unfolding validate_runtime_config to_adapt_config
  validated cfg = elim (validate_runtime_config cfg) [
    | some e ↦ err (validate_runtime e)
    | none ↦ elim (validate_config (to_adapt_config cfg)) [
      | some e ↦ err (validate_controller e)
      | none ↦ ok cfg
    ]
  ]

  unfoldable pub load :
      Parsers F → Environment → (Text → FileRead F) → Text → Result LoadError (RuntimeConfig F)
  unfolding merged_file validated apply_env_overrides
  load parsers env read path = elim (merged_file read path) [
    | err e ↦ err e
    | ok cfg ↦ validated (apply_env_overrides parsers env cfg)
  ]
