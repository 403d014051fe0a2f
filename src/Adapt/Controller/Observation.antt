-- ===== src/Adapt/Controller/Observation.antt =====
-- pkg/adapt/controller_observation.go: what one sample of the estimator does to the controller.
use oci_cpu_shaper.Base.{Bool, true, false, ◌||◌, ◌&&◌, not, if◌then◌else◌, Option, none, some}
use oci_cpu_shaper.Base.Text.{Text}
use oci_cpu_shaper.Float.{Float, nought, unity, is_nan}
use oci_cpu_shaper.Adapt.DutyCycler
use oci_cpu_shaper.Adapt.Normalize.{clamp}
use oci_cpu_shaper.Adapt.Controller.{
  Controller, observe_host_cpu, notify, update_effective_state, reset_relaxed_successes,
}
use oci_cpu_shaper.Adapt.Controller.Suppression.{
  update_host_load, transition_suppression, apply_suppression_targets,
}

-- The fields of `est.Observation` that the controller reads.
pub record Sample (F : Type 0) : Type 0 where
  pub utilisation : F
  pub runnable : F
  pub failure : Option Text

-- `previouslySuppressed != c.suppressed`.
abbrev pub differs : Bool → Bool → Bool
differs true b = not b
differs false b = b

module _ {F : Type 0} ⦃d : Float F⦄ where
  open d use {lt, le, is_inf}

  unfoldable pub normalize_runnable : F → F
  normalize_runnable runnable =
      if is_nan runnable || is_inf runnable
      then nought
      else if lt runnable nought
      then nought
      else runnable

  unfoldable pub guard_exceeded : Controller F → F → F → Bool
  guard_exceeded c utilisation runnable =
      lt nought c.cfg.suppress_threshold && le c.cfg.suppress_threshold utilisation
      || lt nought c.cfg.suppress_runnable_threshold
        && le c.cfg.suppress_runnable_threshold runnable

  unfoldable pub suppression_disabled : Controller F → Bool
  suppression_disabled c =
      le c.cfg.suppress_threshold nought && le c.cfg.suppress_runnable_threshold nought

  unfoldable pub handle_guarded_suppression : Bool → Controller F → Controller F
  handle_guarded_suppression guarded c =
      if guarded
      then update_effective_state
          (apply_suppression_targets false (record c { is_suppressed = true }))
      else c

  unfoldable pub handle_suppression_transition : Bool → Controller F → Controller F
  unfolding transition_suppression
  handle_suppression_transition guarded c =
      let (c', previously) = transition_suppression guarded c in
      let c'' = if differs previously c'.is_suppressed then reset_relaxed_successes c' else c' in
      update_effective_state (apply_suppression_targets previously c'')

  -- The calls on the recorder and on the shaper that come before the suppression logic.
  unfoldable pub publish_load : F → F → Controller F → Controller F
  publish_load utilisation runnable c =
      let seen = notify (observe_host_cpu utilisation) (record c { last_est_err = none }) in
      record seen { shaper = DutyCycler.observe_host_load utilisation runnable seen.shaper }

  -- The assignments to `hostLoad` and `hostRunnable`.
  unfoldable pub track_load : F → F → Bool → Controller F → Controller F
  track_load utilisation runnable guarded c = record (update_host_load utilisation guarded c) {
    host_runnable = runnable;
  }

  -- `handleObservation` of a sample with no error, its values already brought into range.
  unfoldable pub handle_load : F → F → Controller F → Controller F
  unfolding publish_load
  handle_load utilisation runnable c =
      let guarded = guard_exceeded c utilisation runnable in
      let c' = publish_load utilisation runnable c in
      if suppression_disabled c'
      then handle_guarded_suppression guarded c'
      else handle_suppression_transition guarded (track_load utilisation runnable guarded c')

  unfoldable pub handle_observation : Sample F → Controller F → Controller F
  handle_observation sample c = elim sample.failure [
    | some e ↦ update_effective_state (record c { last_est_err = some e })
    | none ↦
        handle_load (clamp sample.utilisation nought unity) (normalize_runnable sample.runnable) c
  ]
