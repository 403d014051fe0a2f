-- ===== src/Adapt/Validate.antt =====
-- pkg/adapt/config_validate.go: the checks on a configuration, in their order. An error keeps which
-- check failed; its message is left out.
use oci_cpu_shaper.Base.{
  Bool, ◌||◌, ◌&&◌, if◌then◌else◌, Option, none, some, Result, ok, err, List, [], ◌∷◌,
}
use oci_cpu_shaper.Base.Int.{pos, leb_ℤ, ltb_ℤ}
use oci_cpu_shaper.Base.Text.{Text}
use oci_cpu_shaper.Float.{Float, nought}
use oci_cpu_shaper.Adapt.Config.{Config}
use oci_cpu_shaper.Adapt.Normalize.{coerce_config}

pub data Setting : Type 0 where
  target_start target_min target_max fallback_target goal_low goal_high step_up step_down : Setting

-- What follows `ErrInvalidConfig` in a message.
pub data InvalidConfig : Type 0 where
  empty_target_range : InvalidConfig
  outside_target_range : Setting → InvalidConfig
  not_positive : Setting → InvalidConfig
  confirmations_not_positive : InvalidConfig
  too_many_confirmations : InvalidConfig
  negative_smoothing : InvalidConfig
  too_much_smoothing : InvalidConfig
  empty_goal_range : InvalidConfig
  threshold_not_above : Setting → InvalidConfig
  resume_not_above : Setting → InvalidConfig
  negative_runnable_threshold : InvalidConfig
  negative_runnable_resume : InvalidConfig
  empty_runnable_band : InvalidConfig

-- `err != nil { return err }`: the first error of two checks.
infixr 36 ◌then_check◌
abbrev pub ◌then_check◌ : Option InvalidConfig → Option InvalidConfig → Option InvalidConfig
some e then_check next = some e
none then_check next = next

-- A loop over named values that returns the first failure.
pub first_failure {ℓ} :
    {F : Type ℓ}
    → (F → Bool)
    → (Setting → InvalidConfig)
    → List (Setting × F)
    → Option InvalidConfig
first_failure fails e [] = none
first_failure fails e ((name, value) ∷ rest) =
    if fails value then some (e name) else first_failure fails e rest

module _ {F : Type 0} ⦃d : Float F⦄ where
  open d use {lt, le}

  unfoldable pub validate_target_bounds : Config F → Option InvalidConfig
  unfolding first_failure
  validate_target_bounds cfg =
      if le cfg.target_max cfg.target_min
      then some empty_target_range
      else first_failure (λ v. lt v cfg.target_min || lt cfg.target_max v) outside_target_range
          ((target_start, cfg.target_start)
            ∷ (fallback_target, cfg.fallback_target)
            ∷ (goal_low, cfg.goal_low)
            ∷ (goal_high, cfg.goal_high)
            ∷ [])

  unfoldable pub validate_step_sizes : Config F → Option InvalidConfig
  unfolding first_failure
  validate_step_sizes cfg =
      first_failure (λ v. le v nought) not_positive
        ((step_up, cfg.step_up) ∷ (step_down, cfg.step_down) ∷ [])

  unfoldable pub validate_relaxed_confirmations : Config F → Option InvalidConfig
  validate_relaxed_confirmations cfg =
      if leb_ℤ cfg.relaxed_confirmations (pos 0)
      then some confirmations_not_positive
      else if ltb_ℤ (pos 100) cfg.relaxed_confirmations
      then some too_many_confirmations
      else none

  unfoldable pub validate_suppress_smoothing : Config F → Option InvalidConfig
  validate_suppress_smoothing cfg =
      if ltb_ℤ cfg.suppress_smoothing_samples (pos 0)
      then some negative_smoothing
      else if ltb_ℤ (pos 100) cfg.suppress_smoothing_samples
      then some too_much_smoothing
      else none

  unfoldable pub validate_goal_bounds : Config F → Option InvalidConfig
  validate_goal_bounds cfg = if le cfg.goal_high cfg.goal_low then some empty_goal_range else none

  unfoldable pub validate_runnable_thresholds : Config F → Option InvalidConfig
  validate_runnable_thresholds cfg =
      if lt cfg.suppress_runnable_threshold nought
      then some negative_runnable_threshold
      else if lt cfg.suppress_runnable_resume nought
      then some negative_runnable_resume
      else if lt nought cfg.suppress_runnable_threshold
          && le cfg.suppress_runnable_threshold cfg.suppress_runnable_resume
      then some empty_runnable_band
      else none

  -- One round of the loop of `validateSuppressionThresholds`.
  unfoldable pub suppression_check : F → F → Setting → F → Option InvalidConfig
  suppression_check threshold resume name value =
      if lt nought threshold && le threshold value
      then some (threshold_not_above name)
      else if lt nought resume && le resume value
      then some (resume_not_above name)
      else none

  unfoldable pub validate_suppression_thresholds : Config F → Option InvalidConfig
  unfolding suppression_check
  validate_suppression_thresholds cfg =
      check target_start cfg.target_start
      then_check check target_min cfg.target_min
      then_check check target_max cfg.target_max
      then_check check fallback_target cfg.fallback_target
      then_check check goal_low cfg.goal_low
      then_check check goal_high cfg.goal_high
      then_check validate_runnable_thresholds cfg
    where
      check : Setting → F → Option InvalidConfig
      check = suppression_check cfg.suppress_threshold cfg.suppress_resume

  unfoldable pub validate_controller_config : Config F → Option InvalidConfig
  validate_controller_config cfg =
      validate_target_bounds cfg
      then_check validate_step_sizes cfg
      then_check validate_relaxed_confirmations cfg
      then_check validate_suppress_smoothing cfg
      then_check validate_goal_bounds cfg
      then_check validate_suppression_thresholds cfg

  unfoldable pub validate_config : Config F → Option InvalidConfig
  validate_config cfg =
      validate_runnable_thresholds cfg then_check validate_controller_config (coerce_config cfg).0

  -- In config_normalize.go.
  unfoldable pub normalize_config : Config F → Result InvalidConfig (Config F × Text)
  normalize_config cfg =
      let (normalized, mode) = coerce_config cfg in
      elim (validate_controller_config normalized) [ some e ↦ err e | none ↦ ok (normalized, mode) ]
