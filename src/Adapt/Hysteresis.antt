-- ===== src/Adapt/Hysteresis.antt =====
-- When the suppression flag of pkg/adapt/suppression.go changes, and what the change does to the
-- shaper.
use oci_cpu_shaper.Base.{◌≡◌, ◌⊎◌, ◌↔◌, arith, Bool, true, false, none}
use oci_cpu_shaper.Base.Int.{pos, ◌≤ℤ◌}
use oci_cpu_shaper.Float.{Float, ◌≼◌, ◌≺◌, nought, unity}
use oci_cpu_shaper.Adapt.Config.{Config}
use oci_cpu_shaper.Adapt.Normalize.{clamp}
use oci_cpu_shaper.Adapt.Controller.{
  Controller, apply_target, update_effective_state, reset_relaxed_successes,
}
use oci_cpu_shaper.Adapt.Controller.Suppression.{
  update_host_load, smoothed_load, next_suppressed, should_suppress_for_utilisation,
  should_suppress_for_runnables, utilisation_cooled, runnables_cooled,
  should_resume_from_suppression, apply_suppression_targets,
}
use oci_cpu_shaper.Adapt.Controller.Observation.{
  Sample, normalize_runnable, guard_exceeded, suppression_disabled, handle_suppression_transition,
  publish_load, track_load, handle_load, handle_observation,
}

module _ {F : Type 0} ⦃d : Float F⦄ where
  -- Some measure of the host is hot: the load or the runnable tasks of the sample, or the smoothed load,
  -- has reached its threshold, and the threshold is on.
  abbrev pub IsHot : Config F → F → F → Type 0
  IsHot cfg load runnable =
      ((nought ≺ cfg.suppress_threshold) × (cfg.suppress_threshold ≼ load))
      ⊎ ((nought ≺ cfg.suppress_runnable_threshold) × (cfg.suppress_runnable_threshold ≼ runnable))

  -- Every threshold that is on has seen its measure come down to the resume value.
  pub record IsCool (cfg : Config F) (load runnable : F) : Type 0 where
    pub load_cool : (cfg.suppress_threshold ≼ nought) ⊎ (load ≼ cfg.suppress_resume)
    pub runnable_cool :
        (cfg.suppress_runnable_threshold ≼ nought) ⊎ (runnable ≼ cfg.suppress_runnable_resume)

  -- The sample counts as it is: the load before is 0, or the sample is hot, or there is no window.
  abbrev pub IsFresh : Controller F → F → F → Type 0
  IsFresh c u r =
      (d.eq c.host_load nought ≡ true)
      ⊎ IsHot c.cfg u r
      ⊎ (c.cfg.suppress_smoothing_samples ≤ℤ pos 1)

  -- The smoothed load: the sample where it is fresh, and otherwise the load before, moved towards the
  -- sample by one part of the window.
  abbrev pub IsSmoothed : Controller F → F → F → F → Type 0
  IsSmoothed c u r load =
      (IsFresh c u r × (load ≡ u))
      ⊎ ((¬ IsFresh c u r)
          × (load
              ≡ d.add c.host_load
                  (d.div (d.sub u c.host_load) (d.of_int c.cfg.suppress_smoothing_samples))))

  smoothed_load-IsSmoothed :
      (u r : F) (c : Controller F) → IsSmoothed c u r (smoothed_load u (guard_exceeded c u r) c)
  unfolding smoothed_load guard_exceeded
  smoothed_load-IsSmoothed u r c = ground arith

  handle_load_when_enabled :
      (u r : F) (c : Controller F)
      → suppression_disabled c ≡ false
      → let c' = handle_load u r c in
        let load = smoothed_load u (guard_exceeded c u r) c in
        (c'.host_load ≡ load)
        × (c'.host_runnable ≡ r)
        × (c'.is_suppressed
            ≡ next_suppressed
                (guard_exceeded c u r)
                (record c { host_load = load; host_runnable = r }))
  unfolding handle_load handle_suppression_transition publish_load track_load
      apply_suppression_targets apply_target update_effective_state reset_relaxed_successes
      update_host_load smoothed_load suppression_disabled next_suppressed
      should_suppress_for_utilisation should_suppress_for_runnables should_resume_from_suppression
      utilisation_cooled runnables_cooled
  handle_load_when_enabled u r c on = ground arith

  -- When the flag is set after a sample, by the flag before: an active controller suppresses on heat,
  -- of the sample or of the smoothed load, and a suppressed one until it is cool.
  abbrev pub Suppresses : Bool → Config F → F → F → F → Type 0
  Suppresses false cfg u r load = IsHot cfg u r ⊎ IsHot cfg load r
  Suppresses true cfg u r load = IsHot cfg u r ⊎ (¬ IsCool cfg load r)

  next_suppressed_iff :
      (u r load : F) (c : Controller F)
      → (next_suppressed (guard_exceeded c u r) (record c { host_load = load; host_runnable = r })
          ≡ true)
        ↔ Suppresses c.is_suppressed c.cfg u r load
  unfolding next_suppressed guard_exceeded should_suppress_for_utilisation
      should_suppress_for_runnables should_resume_from_suppression utilisation_cooled
      runnables_cooled
  next_suppressed_iff u r load c = ground arith

  -- After a sample with no error a controller with a suppression threshold that is on is suppressed
  -- exactly if: it was active and the sample or the smoothed load is hot; or it was suppressed, and the
  -- sample is hot or one of the measures has not cooled, also where its resume value is 0. The smoothed
  -- load is the sample itself where the load before is 0, the sample is hot or the window is at most 1,
  -- and otherwise the load before plus the difference over the window. The runnable tasks are kept as
  -- they are. A sample is meant with its utilisation cut to [0, 1] and its runnable tasks 0 where they
  -- are negative or no finite number.
  pub handle_observation_flag :
      (sample : Sample F) (c : Controller F)
      → sample.failure ≡ none
      → suppression_disabled c ≡ false
      → let u = clamp sample.utilisation nought unity in
        let r = normalize_runnable sample.runnable in
        let c' = handle_observation sample c in
        ((c'.is_suppressed ≡ true) ↔ Suppresses c.is_suppressed c.cfg u r c'.host_load)
        × IsSmoothed c u r c'.host_load
        × (c'.host_runnable ≡ r)
  unfolding handle_observation
  handle_observation_flag sample c e on =
      let u = clamp sample.utilisation nought unity in
      let r = normalize_runnable sample.runnable in
      let (load, runnable, flag) = handle_load_when_enabled u r c on in
      rw e (
        rw (load, flag) (next_suppressed_iff u r (smoothed_load u (guard_exceeded c u r) c) c),
        rw load (smoothed_load-IsSmoothed u r c),
        runnable,
      )
