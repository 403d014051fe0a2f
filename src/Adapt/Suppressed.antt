-- ===== src/Adapt/Suppressed.antt =====
-- Entering, staying in and leaving the suppressed state, and the configuration that never enters it.
use oci_cpu_shaper.Base.{
  ℕ, ◌≡◌, ap, arith, true, false, refl, none, Result, ok, err, List, [], ◌∷◌, map, ◌∙◌,
}
use oci_cpu_shaper.Base.Int.{pos}
use oci_cpu_shaper.Base.Text.{Text}
use oci_cpu_shaper.Float.{Float, IsFloat, ◌≺◌, nought, unity}
use oci_cpu_shaper.Adapt.DutyCycler
use oci_cpu_shaper.Adapt.Normalize.{clamp}
use oci_cpu_shaper.Adapt.Clamp.{clamp_within}
use oci_cpu_shaper.Adapt.Invariant.{Inv}
use oci_cpu_shaper.Adapt.Feedback.{eq_zero}
use oci_cpu_shaper.Adapt.Hysteresis.{IsHot}
use oci_cpu_shaper.Adapt.Controller.{
  Controller, suppressed, apply_target, update_effective_state, reset_relaxed_successes,
}
use oci_cpu_shaper.Adapt.Controller.Suppression.{
  update_host_load, next_suppressed, restored_target, apply_suppression_targets,
}
use oci_cpu_shaper.Adapt.Controller.Observation.{
  Sample, normalize_runnable, guard_exceeded, suppression_disabled, handle_guarded_suppression,
  handle_suppression_transition, publish_load, track_load, handle_load, handle_observation,
}
use oci_cpu_shaper.Adapt.Controller.Loop.{Event, tick, observe, run_tick, handle, run}
use oci_cpu_shaper.Adapt.Controller.Step.{
  assign_target, handle_step_error, settle_success, next_interval, handle_step_success, step,
}

module _ {F : Type 0} ⦃d : Float F⦄ where
  hot_load_suppresses :
      (u r : F) (c : Controller F)
      → IsHot c.cfg u r
      → let c' = handle_load u r c in
        (c'.is_suppressed ≡ true)
        × (c'.state ≡ suppressed)
        × (c'.target ≡ nought)
        × (c'.shaper ≡ DutyCycler.set_target nought (DutyCycler.observe_host_load u r c.shaper))
  unfolding handle_load handle_suppression_transition handle_guarded_suppression publish_load
      track_load apply_suppression_targets apply_target update_effective_state
      reset_relaxed_successes update_host_load next_suppressed guard_exceeded
  hot_load_suppresses u r c h = ground arith

  -- A sample that is hot by itself suppresses at once, from any state of the controller, whatever the
  -- smoothed load, and whatever the resume values, also where they are 0: the state is `suppressed`, and
  -- the target 0, which the shaper is given once it has seen the load. The sample is meant with its
  -- utilisation cut to [0, 1] and its runnable tasks 0 where they are negative or no finite number.
  pub hot_sample_suppresses :
      (sample : Sample F) (c : Controller F)
      → sample.failure ≡ none
      → let u = clamp sample.utilisation nought unity in
        let r = normalize_runnable sample.runnable in
        IsHot c.cfg u r
        → let c' = handle_observation sample c in
          (c'.is_suppressed ≡ true)
          × (c'.state ≡ suppressed)
          × (c'.target ≡ nought)
          × (c'.shaper ≡ DutyCycler.set_target nought (DutyCycler.observe_host_load u r c.shaper))
  unfolding handle_observation
  hot_sample_suppresses sample c e h = rw e (hot_load_suppresses _ _ c h)

  resumed_fields :
      (u r : F) (c : Controller F)
      → c.is_suppressed ≡ true
      → (handle_load u r c).is_suppressed ≡ false
      → let c' = handle_load u r c in
        (c'.target ≡ restored_target c)
        × (c'.shaper
            ≡ DutyCycler.set_target (restored_target c) (DutyCycler.observe_host_load u r c.shaper))
        × (c'.desired ≡ c.desired)
        × (c'.state ≡ c.slow_state)
        × (c'.relaxed_successes ≡ pos 0)
  unfolding handle_load handle_suppression_transition handle_guarded_suppression publish_load
      track_load apply_suppression_targets apply_target update_effective_state
      reset_relaxed_successes update_host_load restored_target
  resumed_fields u r c e off = ground arith

  -- The suppression flag is the samples' alone.
  flag-run_tick :
      (answer : Result Text (F × ℕ)) (c : Controller F)
      → ((run_tick answer c).is_suppressed ≡ c.is_suppressed) × ((run_tick answer c).cfg ≡ c.cfg)
  unfolding run_tick step handle_step_error handle_step_success next_interval settle_success
      assign_target apply_target update_effective_state reset_relaxed_successes
  flag-run_tick (err e) c = ground arith
  flag-run_tick (ok (p95, fetched_at)) c = ground arith

  suppressed_tick :
      (answer : Result Text (F × ℕ)) (c : Controller F)
      → c.is_suppressed ≡ true
      → let c' = run_tick answer c in
        (c'.is_suppressed ≡ true) × (c'.target ≡ c.target) × (c'.shaper ≡ c.shaper)
  unfolding run_tick step handle_step_error handle_step_success next_interval settle_success
      assign_target apply_target update_effective_state reset_relaxed_successes
  suppressed_tick (err e) c h = ground arith
  suppressed_tick (ok (p95, fetched_at)) c h = ground arith

  -- While suppressed, any number of ticks, whatever they are answered, leaves the target and the
  -- shaper as they are and the controller suppressed.
  pub suppressed_ticks_hold :
      (answers : List (Result Text (F × ℕ))) (c : Controller F)
      → c.is_suppressed ≡ true
      → let c' = run (map tick answers) c in
        (c'.is_suppressed ≡ true) × (c'.target ≡ c.target) × (c'.shaper ≡ c.shaper)
  unfolding run handle
  suppressed_ticks_hold [] c h = (h, refl, refl)
  suppressed_ticks_hold (answer ∷ rest) c h =
      let (still, target, shaper) = suppressed_tick answer c h in
      let (still', target', shaper') = suppressed_ticks_hold rest (run_tick answer c) still in
      (still', target' ∙ target, shaper' ∙ shaper)

  disabled_load :
      (u r : F) (c : Controller F)
      → suppression_disabled c ≡ true
      → guard_exceeded c u r ≡ false
      → ((handle_load u r c).is_suppressed ≡ c.is_suppressed) × ((handle_load u r c).cfg ≡ c.cfg)
  unfolding handle_load handle_guarded_suppression publish_load suppression_disabled
  disabled_load u r c off calm = ground arith

  module _ (laws : IsFloat F) where
    open laws use {refl_of_le, lt-eq-not-le, milli_le}

    restored_target-desired :
        (c : Controller F) → Inv c → nought ≺ c.cfg.target_min → restored_target c ≡ c.desired
    unfolding restored_target
    restored_target-desired c v positive =
        let w = v.desired_within in
        ground (
          arith,
          eq_zero laws c.cfg c.desired positive w,
          clamp_within laws c.desired c.cfg.target_min c.cfg.target_max w.0 w.1,
        )

    -- A sample that ends the suppression gives the shaper, once it has seen the load, the target to come
    -- back to, and that is the controller's target. The state is the one of the slow loop, and the count
    -- of relaxed confirmations starts afresh; the configured targets being positive.
    pub resume_restores_desired :
        (u r : F) (c : Controller F)
        → Inv c
        → nought ≺ c.cfg.target_min
        → c.is_suppressed ≡ true
        → (handle_load u r c).is_suppressed ≡ false
        → let c' = handle_load u r c in
          (c'.target ≡ c.desired)
          × (c'.shaper
              ≡ DutyCycler.set_target c.desired (DutyCycler.observe_host_load u r c.shaper))
          × (c'.state ≡ c.slow_state)
          × (c'.relaxed_successes ≡ pos 0)
    resume_restores_desired u r c v positive on off =
        let (target, shaper, _, state, count) = resumed_fields u r c on off in
        let back = restored_target-desired c v positive in
        (
          target ∙ back,
          shaper
              ∙ ap (λ t. DutyCycler.set_target t (DutyCycler.observe_host_load u r c.shaper)) back,
          state,
          count,
        )

    disabled_calm :
        (u r : F) (c : Controller F) → suppression_disabled c ≡ true → guard_exceeded c u r ≡ false
    unfolding suppression_disabled guard_exceeded
    disabled_calm u r c off = ground (
      arith,
      refl_of_le c.cfg.suppress_threshold nought,
      refl_of_le c.cfg.suppress_runnable_threshold nought,
      lt-eq-not-le nought c.cfg.suppress_threshold,
      lt-eq-not-le nought c.cfg.suppress_runnable_threshold,
    )

    disabled_observation :
        (sample : Sample F) (c : Controller F)
        → suppression_disabled c ≡ true
        → c.is_suppressed ≡ false
        → let c' = handle_observation sample c in
          (suppression_disabled c' ≡ true) × (c'.is_suppressed ≡ false)
    unfolding handle_observation suppression_disabled update_effective_state
    disabled_observation sample c off calm =
        let u = clamp sample.utilisation nought unity in
        let r = normalize_runnable sample.runnable in
        ground (arith, disabled_load u r c off (disabled_calm u r c off))

    disabled_handle :
        (e : Event F) (c : Controller F)
        → suppression_disabled c ≡ true
        → c.is_suppressed ≡ false
        → (suppression_disabled (handle e c) ≡ true) × ((handle e c).is_suppressed ≡ false)
    unfolding handle suppression_disabled
    disabled_handle (tick answer) c off calm = ground (arith, flag-run_tick answer c)
    disabled_handle (observe sample) c off calm = disabled_observation sample c off calm

    -- With both thresholds at 0 or below the controller is never suppressed.
    pub disabled_never_suppressed :
        (es : List (Event F)) (c : Controller F)
        → suppression_disabled c ≡ true
        → c.is_suppressed ≡ false
        → (run es c).is_suppressed ≡ false
    unfolding run
    disabled_never_suppressed [] c off calm = calm
    disabled_never_suppressed (e ∷ es) c off calm =
        let (off', calm') = disabled_handle e c off calm in
        disabled_never_suppressed es (handle e c) off' calm'
