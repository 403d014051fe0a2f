-- ===== src/Adapt/Controller/Suppression.antt =====
-- pkg/adapt/suppression.go: the host load, the suppression flag and the targets that it sets.
use oci_cpu_shaper.Base.{Bool, true, false, ◌||◌, ◌&&◌, not, if◌then◌else◌}
use oci_cpu_shaper.Base.Int.{pos, leb_ℤ}
use oci_cpu_shaper.Float.{Float, nought}
use oci_cpu_shaper.Adapt.Normalize.{clamp}
use oci_cpu_shaper.Adapt.Controller.{Controller, apply_target}

module _ {F : Type 0} ⦃d : Float F⦄ where
  open d use {lt, le, eq, add, sub, div, of_int}

  -- What `updateHostLoadLocked` assigns: the sample itself, or a rolling average.
  unfoldable pub smoothed_load : F → Bool → Controller F → F
  smoothed_load utilisation guard_exceeded c =
      if eq c.host_load nought || guard_exceeded || leb_ℤ c.cfg.suppress_smoothing_samples (pos 1)
      then utilisation
      else add c.host_load
          (div (sub utilisation c.host_load) (of_int c.cfg.suppress_smoothing_samples))

  unfoldable pub update_host_load : F → Bool → Controller F → Controller F
  update_host_load utilisation guard_exceeded c = record c {
    host_load = smoothed_load utilisation guard_exceeded c;
  }

  unfoldable pub should_suppress_for_utilisation : Controller F → Bool
  should_suppress_for_utilisation c =
      lt nought c.cfg.suppress_threshold && le c.cfg.suppress_threshold c.host_load

  unfoldable pub should_suppress_for_runnables : Controller F → Bool
  should_suppress_for_runnables c =
      lt nought c.cfg.suppress_runnable_threshold
      && le c.cfg.suppress_runnable_threshold c.host_runnable

  unfoldable pub utilisation_cooled : Controller F → Bool
  utilisation_cooled c =
      if le c.cfg.suppress_threshold nought then true else le c.host_load c.cfg.suppress_resume

  unfoldable pub runnables_cooled : Controller F → Bool
  runnables_cooled c =
      if le c.cfg.suppress_runnable_threshold nought
      then true
      else le c.host_runnable c.cfg.suppress_runnable_resume

  unfoldable pub should_resume_from_suppression : Controller F → Bool
  should_resume_from_suppression c = utilisation_cooled c && runnables_cooled c

  -- The flag after `transitionSuppressionLocked`; its result is the flag before.
  unfoldable pub next_suppressed : Bool → Controller F → Bool
  next_suppressed guarded c =
      if guarded
      then true
      else if not c.is_suppressed
          && (should_suppress_for_utilisation c || should_suppress_for_runnables c)
      then true
      else if c.is_suppressed && should_resume_from_suppression c
      then false
      else c.is_suppressed

  unfoldable pub transition_suppression : Bool → Controller F → Controller F × Bool
  unfolding next_suppressed
  transition_suppression guarded c =
      (record c { is_suppressed = next_suppressed guarded c }, c.is_suppressed)

  -- What a resumed controller gives the shaper.
  unfoldable pub restored_target : Controller F → F
  restored_target c =
      let restore = if eq c.desired nought then c.cfg.target_start else c.desired in
      clamp restore c.cfg.target_min c.cfg.target_max

  unfoldable pub apply_suppression_targets : Bool → Controller F → Controller F
  unfolding restored_target
  apply_suppression_targets previously c =
      if c.is_suppressed
      then apply_target nought c
      else if previously
      then apply_target (restored_target c) c
      else c
