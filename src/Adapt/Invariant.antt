-- ===== src/Adapt/Invariant.antt =====
-- What holds of the controller between two critical sections, whatever the metrics client and the
-- estimator deliver.
use oci_cpu_shaper.Base.{
  ℕ, ◌≡◌, ◌≢◌, ◌⊎◌, inl, inr, Bool, true, false, arith, none, Result, ok, err, List, [], ◌∷◌,
  Bool-cases,
}
use oci_cpu_shaper.Base.Int.{pos, ◌<ℤ◌}
use oci_cpu_shaper.Base.Text.{Text}
use oci_cpu_shaper.Float.{Float, IsFloat, IsNumber, IsFinite, ◌≼◌, nought, unity}
use oci_cpu_shaper.Adapt.Normalize.{clamp}
use oci_cpu_shaper.Adapt.Config.{Config}
use oci_cpu_shaper.Adapt.Clamp.{clamp_bounds}
use oci_cpu_shaper.Adapt.Controller.{
  Controller, normal, suppressed, effective_state, update_effective_state, apply_target,
  reset_relaxed_successes,
}
use oci_cpu_shaper.Adapt.Controller.Suppression.{
  update_host_load, apply_suppression_targets, restored_target,
}
use oci_cpu_shaper.Adapt.Controller.Step.{
  assign_target, handle_step_error, base_target, adjust, next_target, next_interval,
  handle_step_success, settle_success, step,
}
use oci_cpu_shaper.Adapt.Controller.Observation.{
  Sample, handle_guarded_suppression, handle_suppression_transition, publish_load, handle_load,
  handle_observation, guard_exceeded, suppression_disabled, track_load, normalize_runnable,
}
use oci_cpu_shaper.Adapt.Controller.Loop.{Event, tick, observe, run_tick, handle, run}

module _ {F : Type 0} ⦃d : Float F⦄ where
  -- What a validated configuration of finite numbers gives the controller.
  pub record IsSound (cfg : Config F) : Type 0 where
    pub target_order : cfg.target_min ≼ cfg.target_max
    pub min_finite : d.is_inf cfg.target_min ≡ false
    pub max_finite : d.is_inf cfg.target_max ≡ false
    pub start_low : cfg.target_min ≼ cfg.target_start
    pub start_high : cfg.target_start ≼ cfg.target_max
    pub fallback_low : cfg.target_min ≼ cfg.fallback_target
    pub fallback_high : cfg.fallback_target ≼ cfg.target_max
    pub step_up_positive : nought ≼ cfg.step_up
    pub step_down_positive : nought ≼ cfg.step_down
    pub step_up_finite : d.is_inf cfg.step_up ≡ false
    pub step_down_finite : d.is_inf cfg.step_down ≡ false
    pub interval_positive : pos 0 <ℤ cfg.interval
    pub relaxed_interval_positive : pos 0 <ℤ cfg.relaxed_interval

  abbrev pub Within : Config F → F → Type 0
  Within cfg x = (cfg.target_min ≼ x) × (x ≼ cfg.target_max)

  pub record Inv (c : Controller F) : Type 0 where
    pub sound : IsSound c.cfg
    pub state_effective : c.state ≡ effective_state c.is_suppressed c.slow_state
    pub slow_state_slow : c.slow_state ≢ suppressed
    pub desired_within : Within c.cfg c.desired
    pub target_idle : c.is_suppressed ≡ true → c.target ≡ nought
    pub target_within : c.is_suppressed ≡ false → Within c.cfg c.target
    pub error_fallback : c.slow_state ≡ normal → c.last_err ≡ none
    pub interval_known : (c.interval ≡ c.cfg.interval) ⊎ (c.interval ≡ c.cfg.relaxed_interval)

  module _ (laws : IsFloat F) where
    open laws use {
      refl_of_le, le_trans, le_total, lt-eq-not-le, le_of_lt, not_inf_between, le-add, sub-le,
      milli_le,
    }

    IsFinite-Within : (cfg : Config F) (x : F) → IsSound cfg → Within cfg x → IsFinite x
    IsFinite-Within cfg x s (low, high) = (
      (refl_of_le _ _ low).1,
      not_inf_between cfg.target_min x cfg.target_max s.min_finite s.max_finite low high,
    )

    base_target-Within : (c : Controller F) → Inv c → Within c.cfg (base_target c)
    unfolding base_target
    base_target-Within c v = ground arith

    adjust-IsNumber :
        (p95 : F) (cfg : Config F) (base : F)
        → IsSound cfg
        → Within cfg base
        → IsNumber (adjust p95 cfg base)
    unfolding adjust
    adjust-IsNumber p95 cfg base s w =
        let finite = IsFinite-Within cfg base s w in
        let up = (refl_of_le _ _ s.step_up_positive).1 in
        let down = (refl_of_le _ _ s.step_down_positive).1 in
        let risen = le-add base cfg.step_up finite (up, s.step_up_finite) s.step_up_positive in
        let fallen =
          sub-le base cfg.step_down finite (down, s.step_down_finite) s.step_down_positive in
        ground (
          arith,
          refl_of_le base (d.add base cfg.step_up) risen,
          refl_of_le (d.sub base cfg.step_down) base fallen,
        )

    pub next_target-Within : (p95 : F) (c : Controller F) → Inv c → Within c.cfg (next_target p95 c)
    unfolding next_target
    next_target-Within p95 c v =
        clamp_bounds laws _ c.cfg.target_min c.cfg.target_max
          (adjust-IsNumber p95 c.cfg (base_target c) v.sound (base_target-Within c v))
          v.sound.target_order

    fallback-Within :
        (cfg : Config F)
        → IsSound cfg
        → Within cfg (clamp cfg.fallback_target cfg.target_min cfg.target_max)
    fallback-Within cfg s =
        clamp_bounds laws _ cfg.target_min cfg.target_max (refl_of_le _ _ s.fallback_high).0
          s.target_order

    restored_target-Within : (c : Controller F) → Inv c → Within c.cfg (restored_target c)
    unfolding restored_target
    restored_target-Within c v =
        clamp_bounds laws _ c.cfg.target_min c.cfg.target_max
          (ground (arith, refl_of_le _ _ v.sound.start_low, refl_of_le _ _ v.desired_within.0))
          v.sound.target_order

    handle_step_error-Inv : (e : Text) (c : Controller F) → Inv c → Inv (handle_step_error e c).0
    unfolding handle_step_error assign_target apply_target update_effective_state
    handle_step_error-Inv e c v = ground (arith, fallback-Within c.cfg v.sound)

    next_interval-Inv : (p95 : F) (c : Controller F) → Inv c → Inv (next_interval p95 c).0
    unfolding next_interval reset_relaxed_successes
    next_interval-Inv p95 c v = ground arith

    settle_success-Inv :
        (p95 : F) (fetched_at : ℕ) (c : Controller F)
        → Inv c
        → Inv (settle_success p95 fetched_at c)
    unfolding settle_success assign_target apply_target update_effective_state next_target
        base_target
    settle_success-Inv p95 fetched_at c v = ground (arith, next_target-Within p95 c v)

    handle_step_success-Inv :
        (p95 : F) (fetched_at : ℕ) (c : Controller F)
        → Inv c
        → Inv (handle_step_success p95 fetched_at c).0
    unfolding handle_step_success
    handle_step_success-Inv p95 fetched_at c v =
        ground (arith, next_interval-Inv p95 _ (settle_success-Inv p95 fetched_at c v))

    step-Inv : (answer : Result Text (F × ℕ)) (c : Controller F) → Inv c → Inv (step answer c).0
    unfolding step
    step-Inv (err e) c v = handle_step_error-Inv e c v
    step-Inv (ok (p95, fetched_at)) c v = handle_step_success-Inv p95 fetched_at c v

    transition-Inv :
        (guarded : Bool) (c : Controller F) → Inv c → Inv (handle_suppression_transition guarded c)
    unfolding handle_suppression_transition apply_suppression_targets apply_target
        update_effective_state reset_relaxed_successes
    transition-Inv guarded c v = ground (arith, restored_target-Within c v)

    guarded-Inv :
        (guarded : Bool) (c : Controller F) → Inv c → Inv (handle_guarded_suppression guarded c)
    unfolding handle_guarded_suppression apply_suppression_targets apply_target
        update_effective_state
    guarded-Inv guarded c v = ground arith

    publish_load-Inv : (u r : F) (c : Controller F) → Inv c → Inv (publish_load u r c)
    unfolding publish_load
    publish_load-Inv u r c v = ground arith

    track_load-Inv :
        (u r : F) (guarded : Bool) (c : Controller F) → Inv c → Inv (track_load u r guarded c)
    unfolding track_load update_host_load
    track_load-Inv u r guarded c v = record {
      sound = v.sound;
      state_effective = v.state_effective;
      slow_state_slow = v.slow_state_slow;
      desired_within = v.desired_within;
      target_idle = v.target_idle;
      target_within = v.target_within;
      error_fallback = v.error_fallback;
      interval_known = v.interval_known;
    }

    handle_load-Inv :
        (utilisation runnable : F) (c : Controller F)
        → Inv c
        → Inv (handle_load utilisation runnable c)
    unfolding handle_load
    handle_load-Inv u r c v =
        let guarded = guard_exceeded c u r in
        let published = publish_load-Inv u r c v in
        elim (Bool-cases (suppression_disabled (publish_load u r c))) [
          | inl off ↦ rw off (guarded-Inv guarded _ published)
          | inr on ↦ rw on (transition-Inv guarded _ (track_load-Inv u r guarded _ published))
        ]

    handle_observation-Inv :
        (sample : Sample F) (c : Controller F) → Inv c → Inv (handle_observation sample c)
    unfolding handle_observation update_effective_state
    handle_observation-Inv sample c v = ground (
      arith,
      handle_load-Inv (clamp sample.utilisation nought unity) (normalize_runnable sample.runnable)
          c,
    )

    -- The two intervals that a step can ask for.
    step_interval :
        (answer : Result Text (F × ℕ)) (c : Controller F)
        → ((step answer c).1 ≡ c.cfg.interval) ⊎ ((step answer c).1 ≡ c.cfg.relaxed_interval)
    unfolding step handle_step_error handle_step_success next_interval settle_success assign_target
        update_effective_state apply_target
    step_interval (err e) c = ground arith
    step_interval (ok (p95, fetched_at)) c = ground arith

    pub cfg-step : (answer : Result Text (F × ℕ)) (c : Controller F) → (step answer c).0.cfg ≡ c.cfg
    unfolding step handle_step_error handle_step_success next_interval settle_success assign_target
        update_effective_state apply_target reset_relaxed_successes
    cfg-step (err e) c = ground arith
    cfg-step (ok (p95, fetched_at)) c = ground arith

    run_tick-Inv :
        (answer : Result Text (F × ℕ)) (c : Controller F) → Inv c → Inv (run_tick answer c)
    unfolding run_tick
    run_tick-Inv answer c v =
        ground (arith, step-Inv answer c v, step_interval answer c, cfg-step answer c)

    handle-Inv : (e : Event F) (c : Controller F) → Inv c → Inv (handle e c)
    unfolding handle
    handle-Inv (tick answer) c v = run_tick-Inv answer c v
    handle-Inv (observe sample) c v = handle_observation-Inv sample c v

    pub run-Inv : (es : List (Event F)) (c : Controller F) → Inv c → Inv (run es c)
    unfolding run
    run-Inv [] c v = v
    run-Inv (e ∷ es) c v = run-Inv es (handle e c) (handle-Inv e c v)
