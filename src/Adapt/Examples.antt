-- ===== src/Adapt/Examples.antt =====
-- Runs of the controller on fixed-point numbers: the default configuration, a hot sample, high ticks.
use oci_cpu_shaper.Base.{
  ◌≡◌, ◌↔◌, inr, refl, arith, true, false, none, some, ok, err, List, [], ◌∷◌, map,
}
use oci_cpu_shaper.Base.Int.{pos}
use oci_cpu_shaper.Base.Text.{codes}
use oci_cpu_shaper.Float.{◌≼◌}
use oci_cpu_shaper.Float.Fixed.{Fixed, fixed_float, Fixed-IsFloat}
use oci_cpu_shaper.Adapt.Samples.{idle_pool, defaults, started, defaults_start, hot}
use oci_cpu_shaper.Adapt.Config.{Config, default_config, dry_run_mode_label, enforce_mode_label}
use oci_cpu_shaper.Adapt.Normalize.{coerce_config, clamp}
use oci_cpu_shaper.Adapt.Validity.{IsOrdered}
use oci_cpu_shaper.Adapt.Coercion.{IsFiniteConfig}
use oci_cpu_shaper.Adapt.Invariant.{Inv}
use oci_cpu_shaper.Adapt.Construction.{new_adaptive_controller_iff, run_new-Inv}
use oci_cpu_shaper.Adapt.DutyCycler
use oci_cpu_shaper.Adapt.Hysteresis.{Suppresses, IsSmoothed, handle_observation_flag}
use oci_cpu_shaper.Adapt.Suppressed.{
  hot_sample_suppresses, resume_restores_desired, suppressed_ticks_hold, disabled_never_suppressed,
}
use oci_cpu_shaper.Adapt.Feedback.{more, adjusted, run_tick-Moves, run_tick_state}
use oci_cpu_shaper.Adapt.Relaxation.{granted, high_ticks_relax, low_tick_resets}
use oci_cpu_shaper.Adapt.Controller.{
  Controller, suppressed, fallback, effective_state, start_controller, new_adaptive_controller,
  apply_target, update_effective_state, reset_relaxed_successes,
}
use oci_cpu_shaper.Adapt.Controller.Observation.{
  Sample, handle_load, handle_observation, normalize_runnable, suppression_disabled, guard_exceeded,
  publish_load, track_load, handle_suppression_transition,
}
use oci_cpu_shaper.Adapt.Controller.Suppression.{
  update_host_load, smoothed_load, transition_suppression, should_suppress_for_utilisation,
  should_suppress_for_runnables, should_resume_from_suppression, utilisation_cooled,
  runnables_cooled, apply_suppression_targets,
}
use oci_cpu_shaper.Adapt.Controller.Loop.{Event, tick, observe, run_tick, run}

abbrev rehearsal : Config Fixed
unfolding default_config
rehearsal = record defaults { mode = codes " Dry-Run " }

defaults-IsFiniteConfig : IsFiniteConfig defaults
unfolding default_config
defaults-IsFiniteConfig = ground arith

rehearsal-IsFiniteConfig : IsFiniteConfig rehearsal
unfolding default_config
rehearsal-IsFiniteConfig = ground arith

abbrev rehearsed : Controller Fixed
rehearsed =
    start_controller (record defaults { mode = dry_run_mode_label }) dry_run_mode_label idle_pool
      none

abbrev nan : Sample Fixed
nan = record { utilisation = none; runnable = none; failure = none }

-- A hot sample, a query that fails, and a P95 of 15%.
abbrev story : List (Event Fixed)
story =
    observe hot ∷ tick (err (codes "timeout")) ∷ tick (ok (some (pos 150), 60)) ∷ observe nan ∷ []

new_adaptive_controller_iff_example :
    ((c : Controller Fixed) × (new_adaptive_controller rehearsal idle_pool none ≡ ok c))
    ↔ IsOrdered (coerce_config rehearsal).0
new_adaptive_controller_iff_example =
    new_adaptive_controller_iff Fixed-IsFloat rehearsal idle_pool none rehearsal-IsFiniteConfig

run_new-Inv_example : Inv (run story started)
run_new-Inv_example =
    run_new-Inv Fixed-IsFloat defaults idle_pool (some []) story defaults-IsFiniteConfig
      defaults_start

hot_sample_suppresses_example :
    let c' = handle_observation hot started in
    (c'.is_suppressed ≡ true)
    × (c'.state ≡ suppressed)
    × (c'.target ≡ some (pos 0))
    × (c'.shaper
        ≡ DutyCycler.set_target
            (some (pos 0))
            (DutyCycler.observe_host_load (some (pos 910)) (some (pos 300)) started.shaper))
unfolding default_config start_controller clamp normalize_runnable
hot_sample_suppresses_example = hot_sample_suppresses hot started refl (ground arith)

handle_observation_flag_example :
    let c' = handle_observation hot started in
    ((c'.is_suppressed ≡ true)
      ↔ Suppresses false started.cfg (some (pos 910)) (some (pos 300)) c'.host_load)
    × IsSmoothed started (some (pos 910)) (some (pos 300)) c'.host_load
    × (c'.host_runnable ≡ some (pos 300))
unfolding default_config start_controller suppression_disabled clamp normalize_runnable
handle_observation_flag_example = handle_observation_flag hot started refl refl

abbrev cooled : Controller Fixed
cooled = record (start_controller defaults enforce_mode_label idle_pool none) {
  is_suppressed = true;
  state = suppressed;
  target = some (pos 0);
  host_load = some (pos 0);
  host_runnable = some (pos 0);
}

cooled-Inv : Inv cooled
unfolding start_controller default_config
cooled-Inv = ground arith

cooled_resumes : (handle_load (some (pos 10)) (some (pos 0)) cooled).is_suppressed ≡ false
unfolding start_controller default_config handle_load guard_exceeded publish_load track_load
    update_host_load smoothed_load suppression_disabled handle_suppression_transition
    transition_suppression should_suppress_for_utilisation should_suppress_for_runnables
    should_resume_from_suppression utilisation_cooled runnables_cooled apply_suppression_targets
    apply_target update_effective_state reset_relaxed_successes
cooled_resumes = refl

resume_restores_desired_example :
    let c' = handle_load (some (pos 10)) (some (pos 0)) cooled in
    (c'.target ≡ cooled.desired)
    × (c'.shaper
        ≡ DutyCycler.set_target cooled.desired
            (DutyCycler.observe_host_load (some (pos 10)) (some (pos 0)) cooled.shaper))
    × (c'.state ≡ fallback)
    × (c'.relaxed_successes ≡ pos 0)
unfolding start_controller default_config
resume_restores_desired_example =
    resume_restores_desired Fixed-IsFloat (some (pos 10)) (some (pos 0)) cooled cooled-Inv refl refl
      cooled_resumes

suppressed_ticks_hold_example :
    let c' = run (map tick (err (codes "timeout") ∷ ok (some (pos 150), 60) ∷ [])) cooled in
    (c'.is_suppressed ≡ true) × (c'.target ≡ cooled.target) × (c'.shaper ≡ cooled.shaper)
suppressed_ticks_hold_example =
    suppressed_ticks_hold (err (codes "timeout") ∷ ok (some (pos 150), 60) ∷ []) cooled refl

abbrev unguarded : Controller Fixed
unguarded =
    start_controller
      (record defaults {
        suppress_threshold = some (pos 0);
        suppress_runnable_threshold = some (pos 0);
      })
      enforce_mode_label idle_pool none

disabled_never_suppressed_example : (run story unguarded).is_suppressed ≡ false
unfolding start_controller default_config suppression_disabled
disabled_never_suppressed_example =
    disabled_never_suppressed Fixed-IsFloat story unguarded refl refl

started-Inv : Inv started
unfolding start_controller default_config
started-Inv = ground arith

run_tick-Moves_example : some (pos 220) ≼ adjusted (run_tick (ok (some (pos 150), 60)) started)
unfolding start_controller default_config
run_tick-Moves_example =
    run_tick-Moves Fixed-IsFloat started (some (pos 150)) 60 (more refl) started-Inv refl

run_tick_state_example :
    let c' = run_tick (err (codes "timeout")) started in
    (c'.slow_state ≡ fallback)
    × (c'.last_err ≡ some (codes "timeout"))
    × (c'.state ≡ effective_state false c'.slow_state)
    × (c'.is_suppressed ≡ false)
unfolding start_controller
run_tick_state_example = run_tick_state (err (codes "timeout")) started

high_ticks_relax_example :
    let c' = run (tick (ok (some (pos 300), 60)) ∷ tick (ok (some (pos 290), 120)) ∷ []) started in
    (c'.relaxed_successes ≡ pos 2) × (c'.interval ≡ granted started.cfg 2)
unfolding start_controller default_config
high_ticks_relax_example =
    high_ticks_relax (some (pos 300), 60) ((some (pos 290), 120) ∷ []) 0 started (omega arith)
      (omega arith) refl refl (omega arith) (refl, (refl, tt))

low_tick_resets_example :
    let c' = run_tick (ok (some (pos 100), 60)) started in
    (c'.relaxed_successes ≡ pos 0) × (c'.interval ≡ started.cfg.interval)
unfolding start_controller default_config
low_tick_resets_example = low_tick_resets (ok (some (pos 100), 60)) started (omega arith) (inr refl)
