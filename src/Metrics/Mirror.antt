-- ===== src/Metrics/Mirror.antt =====
-- The gauges of pkg/http/metrics/exporter.go as the controller of pkg/adapt writes them: what the
-- controller reports is what it is.
use oci_cpu_shaper.Base.{
  ℕ, ◌≡◌, refl, arith, Bool, true, false, if◌then◌else◌, Option, none, some, Result, ok, err, List,
  [], ◌∷◌,
}
use oci_cpu_shaper.Base.Int.{ℤ, pos, inc}
use oci_cpu_shaper.Base.Text.{Text}
use oci_cpu_shaper.Float.{Float, nought, unity}
use mathlib.Core.Path.{subst}
use oci_cpu_shaper.Shape.Pool.{Pool}
use oci_cpu_shaper.Adapt.Validate.{InvalidConfig, normalize_config}
use oci_cpu_shaper.Adapt.Config.{Config}
use oci_cpu_shaper.Adapt.Normalize.{clamp}
use oci_cpu_shaper.Adapt.Controller.{
  Controller, Call, State, fallback, notify, set_interval, set_last_error, apply_target,
  new_adaptive_controller, start_controller, update_effective_state, reset_relaxed_successes,
}
use oci_cpu_shaper.Adapt.Controller.Suppression.{apply_suppression_targets, update_host_load}
use oci_cpu_shaper.Adapt.Controller.Observation.{
  Sample, handle_guarded_suppression, handle_suppression_transition, publish_load, track_load,
  handle_load, handle_observation, normalize_runnable,
}
use oci_cpu_shaper.Adapt.Controller.Step.{
  assign_target, handle_step_error, settle_success, next_interval, handle_step_success, step,
}
use oci_cpu_shaper.Adapt.Controller.Loop.{Event, tick, observe, run_tick, handle, run}
use oci_cpu_shaper.Metrics.Exporter.{
  Exporter, new_exporter, label, ratio_gauge, export_mode, export_state, export_target,
  export_interval, export_last_error, record_call,
}
use oci_cpu_shaper.Metrics.Reported.{
  Agrees, Reads, exported, state_reported, target_reported, error_reported, p95_reported,
  host_reported, interval_reported, relaxed_reported,
}

module _ {F : Type 0} ⦃d : Float F⦄ where
  module _ (start : Exporter F) where
    Shows : Controller F → Type 0
    Shows c = Agrees start c.recorder c.state c.target c.last_err c.last_p95 c.mode

    if-Shows : (b : Bool) (c c' : Controller F) → Shows c → Shows c' → Shows (if b then c else c')
    if-Shows true c c' h h' = h
    if-Shows false c c' h h' = h'

    if_first-Shows :
        (b : Bool) (x y : Controller F × ℤ) → Shows x.0 → Shows y.0 → Shows (if b then x else y).0
    if_first-Shows true x y h h' = h
    if_first-Shows false x y h h' = h'

    apply_target-Shows : (t : F) (c : Controller F) → Shows c → Shows (apply_target t c)
    unfolding Shows apply_target
    apply_target-Shows t c h =
        target_reported start c.mode c.recorder c.state c.target t c.last_err c.last_p95 h

    update_effective_state-Shows : (c : Controller F) → Shows c → Shows (update_effective_state c)
    unfolding Shows update_effective_state
    update_effective_state-Shows c h =
        state_reported start c.mode c.recorder c.state _ c.target c.last_err c.last_p95 h

    reset_relaxed_successes-Shows : (c : Controller F) → Shows c → Shows (reset_relaxed_successes c)
    unfolding Shows reset_relaxed_successes
    reset_relaxed_successes-Shows c h =
        relaxed_reported start c.mode c.recorder c.state c.target c.last_err c.last_p95 _ h

    apply_suppression_targets-Shows :
        (previously : Bool) (c : Controller F)
        → Shows c
        → Shows (apply_suppression_targets previously c)
    unfolding apply_suppression_targets
    apply_suppression_targets-Shows previously c h =
        if-Shows c.is_suppressed _ _ (apply_target-Shows _ c h)
          (if-Shows previously _ _ (apply_target-Shows _ c h) h)

    handle_guarded_suppression-Shows :
        (guarded : Bool) (c : Controller F) → Shows c → Shows (handle_guarded_suppression guarded c)
    unfolding handle_guarded_suppression Shows
    handle_guarded_suppression-Shows guarded c h =
        if-Shows guarded _ c
          (update_effective_state-Shows _
            (apply_suppression_targets-Shows false (record c { is_suppressed = true }) h))
          h

    handle_suppression_transition-Shows :
        (guarded : Bool) (c : Controller F)
        → Shows c
        → Shows (handle_suppression_transition guarded c)
    unfolding handle_suppression_transition Shows
    handle_suppression_transition-Shows guarded c h =
        update_effective_state-Shows _ (
          apply_suppression_targets-Shows _ _
            (if-Shows _ _ _ (reset_relaxed_successes-Shows _ h) h))

    handle_load-Shows : (u r : F) (c : Controller F) → Shows c → Shows (handle_load u r c)
    unfolding handle_load publish_load track_load update_host_load Shows
    handle_load-Shows u r c h =
        let seen =
          host_reported start c.mode c.recorder c.state c.target c.last_err c.last_p95 u h in
        if-Shows _ _ _ (handle_guarded_suppression-Shows _ _ seen)
          (handle_suppression_transition-Shows _ _ seen)

    handle_observation-Shows :
        (sample : Sample F) (c : Controller F) → Shows c → Shows (handle_observation sample c)
    unfolding handle_observation Shows
    handle_observation-Shows sample c h = split sample.failure
      where
        split :
            (failure : Option Text)
            → Shows (elim failure [
              | some e ↦ update_effective_state (record c { last_est_err = some e })
              | none ↦
                  handle_load
                    (clamp sample.utilisation nought unity)
                    (normalize_runnable sample.runnable)
                    c
            ])
        split (some e) = update_effective_state-Shows (record c { last_est_err = some e }) h
        split none = handle_load-Shows _ _ c h

    assign_target-Shows : (t : F) (c : Controller F) → Shows c → Shows (assign_target t c)
    unfolding assign_target Shows
    assign_target-Shows t c h =
        if-Shows c.is_suppressed _ _ h (apply_target-Shows t (record c { desired = t }) h)

    next_interval-Shows : (p95 : F) (c : Controller F) → Shows c → Shows (next_interval p95 c).0
    unfolding next_interval Shows
    next_interval-Shows p95 c h =
        let reset = reset_relaxed_successes-Shows c h in
        let counted =
          relaxed_reported start c.mode c.recorder c.state c.target c.last_err c.last_p95
            (inc c.relaxed_successes) h in
        if_first-Shows c.is_suppressed _ _ reset
          (if_first-Shows (d.le c.cfg.relaxed_threshold p95) _ _ counted reset)

    settle_success-Shows :
        (p95 : F) (fetched_at : ℕ) (c : Controller F)
        → Shows c
        → Shows (settle_success p95 fetched_at c)
    unfolding settle_success Shows
    settle_success-Shows p95 fetched_at c h =
        let cleared =
          error_reported start c.mode c.recorder c.state c.target c.last_err none c.last_p95 h in
        let seen =
          p95_reported start c.mode _ c.state c.target none c.last_p95 p95 fetched_at cleared in
        update_effective_state-Shows _ (assign_target-Shows _ _ seen)

    interval-Shows : (i : ℤ) (c : Controller F) → Shows c → Shows (notify (set_interval i) c)
    unfolding Shows
    interval-Shows i c h =
        interval_reported start c.mode c.recorder c.state c.target c.last_err c.last_p95 i h

    failed-Shows :
        (e : Text) (c : Controller F)
        → Shows c
        → Shows
            (record (notify
              (set_last_error (some e))
              (record c { slow_state = fallback; last_err = some e })) {
                relaxed_successes = pos 0;
              })
    unfolding Shows
    failed-Shows e c h =
        error_reported start c.mode c.recorder c.state c.target c.last_err (some e) c.last_p95 h

    step-Shows :
        (answer : Result Text (F × ℕ)) (c : Controller F) → Shows c → Shows (step answer c).0
    unfolding step handle_step_error handle_step_success
    step-Shows (err e) c h =
        interval-Shows c.cfg.interval _
          (update_effective_state-Shows _ (assign_target-Shows _ _ (failed-Shows e c h)))
    step-Shows (ok (p95, fetched_at)) c h =
        interval-Shows _ _ (next_interval-Shows p95 _ (settle_success-Shows p95 fetched_at c h))

    handle-Shows : (e : Event F) (c : Controller F) → Shows c → Shows (handle e c)
    unfolding handle run_tick Shows
    handle-Shows (tick answer) c h = step-Shows answer c h
    handle-Shows (observe sample) c h = handle_observation-Shows sample c h

    run-Shows : (es : List (Event F)) (c : Controller F) → Shows c → Shows (run es c)
    unfolding run
    run-Shows [] c h = h
    run-Shows (e ∷ es) c h = run-Shows es (handle e c) (handle-Shows e c h)

    exported-Reads :
        (r : Option (List (Call F))) (s : State) (t : F) (e : Option Text) (p : F) (m : Text)
        → Agrees start r s t e p m
        → Reads (exported r start) s t e p m
    exported-Reads none s t e p m h = absurd h
    exported-Reads (some calls) s t e p m h = h

  start-Shows :
      (e : Exporter F) (cfg : Config F) (mode : Text) (pool : Pool F)
      → e.oci_p95 ≡ ratio_gauge nought
      → Shows e (start_controller cfg mode pool (some []))
  unfolding start_controller Shows record_call export_last_error export_interval export_target
      export_state export_mode label
  start-Shows e cfg mode pool h = (refl, refl, refl, h, refl)

  new-Shows :
      (e : Exporter F) (raw : Config F) (pool : Pool F) {c : Controller F}
      → e.oci_p95 ≡ ratio_gauge nought
      → new_adaptive_controller raw pool (some []) ≡ ok c
      → Shows e c
  unfolding new_adaptive_controller
  new-Shows e raw pool {c} zero h = split (normalize_config raw) h
    where
      split :
          (r : Result InvalidConfig (Config F × Text))
          → ◌≡◌ {A = Result InvalidConfig (Controller F)}
              (elim r [
                | err e ↦ err e
                | ok (cfg, mode) ↦ ok (start_controller cfg mode pool (some []))
              ])
              (ok c)
          → Shows e c
      split (err f) k = ground arith
      split (ok (cfg, mode)) k = subst (Shows e) (ground arith) (start-Shows e cfg mode pool zero)

  zero_p95 : let e : Exporter F = new_exporter in e.oci_p95 ≡ ratio_gauge nought
  unfolding new_exporter ratio_gauge
  zero_p95 = ground arith

  pub exporter_mirrors :
      (raw : Config F) (pool : Pool F) {c : Controller F} (es : List (Event F))
      → new_adaptive_controller raw pool (some []) ≡ ok c
      → let c' = run es c in
        Reads (exported c'.recorder new_exporter) c'.state c'.target c'.last_err c'.last_p95 c'.mode
  unfolding Shows
  exporter_mirrors raw pool {c} es h =
      let c' = run es c in
      exported-Reads new_exporter c'.recorder c'.state c'.target c'.last_err c'.last_p95 c'.mode
        (run-Shows new_exporter es c (new-Shows new_exporter raw pool zero_p95 h))
