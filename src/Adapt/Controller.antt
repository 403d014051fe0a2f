-- ===== src/Adapt/Controller.antt =====
-- pkg/adapt/controller_ctor.go, controller_state.go, state.go: the controller's fields and the helpers
-- that write them. The recorder is the list of the calls made on it, the latest first. Each method
-- runs under the mutex, so it is a function on the state; the runs interleave (`Loop`).
pub mod Suppression
pub mod Observation
pub mod Step
pub mod Loop
use oci_cpu_shaper.Base.{
  ℕ, Bool, true, false, if◌then◌else◌, Option, none, some, List, [], ◌∷◌, Result, ok, err,
}
use oci_cpu_shaper.Base.Int.{ℤ, pos}
use oci_cpu_shaper.Base.Text.{Text, codes}
use oci_cpu_shaper.Float.{Float}
use oci_cpu_shaper.Shape.Pool.{Pool}
use oci_cpu_shaper.Adapt.Config.{Config}
use oci_cpu_shaper.Adapt.Validate.{InvalidConfig, normalize_config}
use oci_cpu_shaper.Adapt.DutyCycler.{DutyCycler, new_mode_aware_duty_cycler}
use oci_cpu_shaper.Adapt.DutyCycler

pub data State : Type 0 where
  normal fallback suppressed : State

abbrev pub state_string : State → Text
state_string normal = codes "normal"
state_string fallback = codes "fallback"
state_string suppressed = codes "suppressed"

-- The methods of the interface `MetricsRecorder`. An error is its message, and a time is in seconds.
pub data Call (F : Type 0) : Type 0 where
  set_mode : Text → Call F
  set_state : Text → Call F
  set_target : F → Call F
  observe_oci_p95 : F → ℕ → Call F
  observe_host_cpu : F → Call F
  set_interval : ℤ → Call F
  set_last_error : Option Text → Call F
  set_relaxed_successes : ℤ → Call F

pub record Controller (F : Type 0) : Type 0 where
  pub cfg : Config F
  pub shaper : DutyCycler F
  pub recorder : Option (List (Call F))
  pub state : State
  pub slow_state : State
  pub is_suppressed : Bool
  pub target : F
  pub desired : F
  pub last_p95 : F
  pub last_err : Option Text
  pub last_est_err : Option Text
  pub host_load : F
  pub host_runnable : F
  pub interval : ℤ
  pub mode : Text
  pub relaxed_successes : ℤ

-- `if c.recorder != nil { c.recorder.Method(...) }`.
abbrev pub push {ℓ} : {A : Type ℓ} → A → Option (List A) → Option (List A)
push call none = none
push call (some calls) = some (call ∷ calls)

abbrev pub notify : {F : Type 0} → Call F → Controller F → Controller F
notify call c = record c { recorder = push call c.recorder }

unfoldable pub reset_relaxed_successes : {F : Type 0} → Controller F → Controller F
reset_relaxed_successes c =
    notify (set_relaxed_successes (pos 0)) (record c { relaxed_successes = pos 0 })

-- The state that `updateEffectiveStateLocked` assigns.
abbrev pub effective_state : Bool → State → State
effective_state true slow = suppressed
effective_state false slow = slow

unfoldable pub update_effective_state : {F : Type 0} → Controller F → Controller F
update_effective_state c =
    let s = effective_state c.is_suppressed c.slow_state in
    notify (set_state (state_string s)) (record c { state = s })

module _ {F : Type 0} ⦃d : Float F⦄ where
  unfoldable pub apply_target : F → Controller F → Controller F
  apply_target t c =
      notify (set_target t) (record c { target = t; shaper = DutyCycler.set_target t c.shaper })

  -- The controller that the constructor builds from a normalized configuration. A Go float field
  -- starts as 0.
  unfoldable pub start_controller : Config F → Text → Pool F → Option (List (Call F)) → Controller F
  start_controller cfg mode pool recorder =
      let first = cfg.fallback_target in
      record {
        cfg = cfg;
        shaper = DutyCycler.set_target first (new_mode_aware_duty_cycler mode pool);
        recorder = push (set_last_error none) (
            push (set_interval cfg.interval) (
              push (set_target first)
                (push (set_state (state_string fallback)) (push (set_mode mode) recorder))));
        state = fallback;
        slow_state = fallback;
        is_suppressed = false;
        target = first;
        desired = first;
        last_p95 = d.milli 0;
        last_err = none;
        last_est_err = none;
        host_load = d.milli 0;
        host_runnable = d.milli 0;
        interval = cfg.interval;
        mode = mode;
        relaxed_successes = pos 0;
      }

  -- The metrics client and the shaper are not nil.
  unfoldable pub new_adaptive_controller :
      Config F → Pool F → Option (List (Call F)) → Result InvalidConfig (Controller F)
  unfolding start_controller
  new_adaptive_controller raw pool recorder = elim (normalize_config raw) [
    | err e ↦ err e
    | ok (cfg, mode) ↦ ok (start_controller cfg mode pool recorder)
  ]
