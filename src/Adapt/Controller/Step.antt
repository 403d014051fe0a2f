-- ===== src/Adapt/Controller/Step.antt =====
-- pkg/adapt/controller_step.go: what one answer of the Monitoring service does to the controller.
use oci_cpu_shaper.Base.{ℕ, if◌then◌else◌, none, some, Result, ok, err}
use oci_cpu_shaper.Base.Int.{ℤ, pos, inc, leb_ℤ}
use oci_cpu_shaper.Base.Text.{Text}
use oci_cpu_shaper.Float.{Float, nought}
use oci_cpu_shaper.Adapt.Config.{Config}
use oci_cpu_shaper.Adapt.Normalize.{clamp}
use oci_cpu_shaper.Adapt.Controller.{
  Controller, normal, fallback, set_last_error, observe_oci_p95, set_interval,
  set_relaxed_successes, notify, reset_relaxed_successes, update_effective_state, apply_target,
}

module _ {F : Type 0} ⦃d : Float F⦄ where
  open d use {lt, le, eq, add, sub}

  -- `if !c.suppressed { c.applyTargetLocked(target) }`, after `c.desired = target`.
  unfoldable pub assign_target : F → Controller F → Controller F
  assign_target t c =
      let c' = record c { desired = t } in if c.is_suppressed then c' else apply_target t c'

  unfoldable pub handle_step_error : Text → Controller F → Controller F × ℤ
  handle_step_error e c =
      let c' =
        notify (set_last_error (some e)) (record c { slow_state = fallback; last_err = some e }) in
      let t = clamp c.cfg.fallback_target c.cfg.target_min c.cfg.target_max in
      let c'' =
        update_effective_state (assign_target t (record c' { relaxed_successes = pos 0 })) in
      (notify (set_interval c.cfg.interval) c'', c.cfg.interval)

  -- The target that the adjustment starts from.
  unfoldable pub base_target : Controller F → F
  base_target c =
      let held = if c.is_suppressed then c.desired else c.target in
      if eq held nought then c.cfg.target_start else held

  -- The adjustment that a seven-day P95 asks for.
  unfoldable pub adjust : F → Config F → F → F
  adjust p95 cfg base =
      if lt p95 cfg.goal_low
      then add base cfg.step_up
      else if lt cfg.goal_high p95
      then sub base cfg.step_down
      else base

  unfoldable pub next_target : F → Controller F → F
  next_target p95 c = clamp (adjust p95 c.cfg (base_target c)) c.cfg.target_min c.cfg.target_max

  unfoldable pub next_interval : F → Controller F → Controller F × ℤ
  next_interval p95 c =
      let counted = inc c.relaxed_successes in
      if c.is_suppressed
      then (reset_relaxed_successes c, c.cfg.interval)
      else if le c.cfg.relaxed_threshold p95
      then (
        notify (set_relaxed_successes counted) (record c { relaxed_successes = counted }),
        if leb_ℤ c.cfg.relaxed_confirmations counted
            then c.cfg.relaxed_interval
            else c.cfg.interval,
      )
      else (reset_relaxed_successes c, c.cfg.interval)

  -- `handleStepSuccessLocked` up to the choice of the interval.
  unfoldable pub settle_success : F → ℕ → Controller F → Controller F
  settle_success p95 fetched_at c =
      let ready =
        notify (set_last_error none) (record c { slow_state = normal; last_err = none }) in
      let seen = notify (observe_oci_p95 p95 fetched_at) (record ready { last_p95 = p95 }) in
      update_effective_state (assign_target (next_target p95 seen) seen)

  unfoldable pub handle_step_success : F → ℕ → Controller F → Controller F × ℤ
  handle_step_success p95 fetched_at c =
      let (c', interval) = next_interval p95 (settle_success p95 fetched_at c) in
      (notify (set_interval interval) c', interval)

  -- `step`, with the answer of `QueryP95CPU`: the P95 and its time, or an error.
  unfoldable pub step : Result Text (F × ℕ) → Controller F → Controller F × ℤ
  step (err e) c = handle_step_error e c
  step (ok (p95, fetched_at)) c = handle_step_success p95 fetched_at c
