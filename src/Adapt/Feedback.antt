-- ===== src/Adapt/Feedback.antt =====
-- What one tick does to the target: pkg/adapt/controller_step.go against the goal band.
use oci_cpu_shaper.Base.{ℕ, ◌≡◌, arith, false, refl, none, some, Result, ok, err, if◌then◌else◌}
use oci_cpu_shaper.Base.Text.{Text}
use oci_cpu_shaper.Float.{Float, IsFloat, IsFinite, ◌≼◌, ◌≺◌, nought}
use oci_cpu_shaper.Adapt.Config.{Config}
use oci_cpu_shaper.Adapt.Normalize.{clamp}
use oci_cpu_shaper.Adapt.Clamp.{clamp_within, clamp_mono}
use oci_cpu_shaper.Adapt.Invariant.{IsSound, Within, Inv}
use oci_cpu_shaper.Adapt.Controller.{
  Controller, normal, fallback, effective_state, apply_target, update_effective_state,
  reset_relaxed_successes,
}
use oci_cpu_shaper.Adapt.Controller.Step.{
  base_target, adjust, next_target, assign_target, settle_success, next_interval, handle_step_error,
  handle_step_success, step,
}
use oci_cpu_shaper.Adapt.Controller.Loop.{run_tick}

module _ {F : Type 0} ⦃d : Float F⦄ where
  -- The P95 asks for more load, for less, or for no change; NaN asks for no change.
  pub data Demand (cfg : Config F) (p95 : F) : Type 0 where
    more : p95 ≺ cfg.goal_low → Demand cfg p95
    less : d.lt p95 cfg.goal_low ≡ false → cfg.goal_high ≺ p95 → Demand cfg p95
    same : d.lt p95 cfg.goal_low ≡ false → d.lt cfg.goal_high p95 ≡ false → Demand cfg p95

  -- How a target moves under a demand.
  abbrev pub Moves : {cfg : Config F} {p95 : F} → Demand cfg p95 → F → F → Type 0
  Moves (more _) old new = old ≼ new
  Moves (less _ _) old new = new ≼ old
  Moves (same _ _) old new = new ≡ old

  -- The value that a tick adjusts: the target, or while suppressed the one to come back to.
  abbrev pub adjusted : Controller F → F
  adjusted c = if c.is_suppressed then c.desired else c.target

  adjusted-run_tick :
      (p95 : F) (fetched_at : ℕ) (c : Controller F)
      → adjusted (run_tick (ok (p95, fetched_at)) c) ≡ next_target p95 c
  unfolding run_tick step handle_step_success next_interval settle_success assign_target
      apply_target update_effective_state reset_relaxed_successes next_target base_target
  adjusted-run_tick p95 fetched_at c = ground arith

  base_target-adjusted :
      (c : Controller F) → d.eq (adjusted c) nought ≡ false → base_target c ≡ adjusted c
  unfolding base_target
  base_target-adjusted c h = ground arith

  -- A successful answer takes the controller out of the fallback state, and an error takes it there;
  -- the suppression flag is left alone.
  pub run_tick_state :
      (answer : Result Text (F × ℕ)) (c : Controller F)
      → let c' = run_tick answer c in
        (c'.slow_state ≡ elim answer [ ok _ ↦ normal | err _ ↦ fallback ])
        × (c'.last_err ≡ elim answer [ ok _ ↦ none | err e ↦ some e ])
        × (c'.state ≡ effective_state c.is_suppressed c'.slow_state)
        × (c'.is_suppressed ≡ c.is_suppressed)
  unfolding run_tick step handle_step_error handle_step_success next_interval settle_success
      assign_target apply_target update_effective_state reset_relaxed_successes
  run_tick_state (err e) c = ground arith
  run_tick_state (ok (p95, fetched_at)) c = ground arith

  module _ (laws : IsFloat F) where
    open laws use {refl_of_le, le_trans, lt-eq-not-le, eq-eq-le, not_inf_between, le-add, sub-le}

    adjust-Moves :
        (cfg : Config F) (p95 x : F) (demand : Demand cfg p95)
        → IsSound cfg
        → Within cfg x
        → Moves demand x (adjust p95 cfg x)
    unfolding adjust
    adjust-Moves cfg p95 x demand s w = go demand
      where
        finite : IsFinite x
        finite = ((refl_of_le _ _ w.0).1, not_inf_between _ _ _ s.min_finite s.max_finite w.0 w.1)

        go : (demand : Demand cfg p95) → Moves demand x (adjust p95 cfg x)
        go (more h) = rw h (
            le-add x cfg.step_up finite ((refl_of_le _ _ s.step_up_positive).1, s.step_up_finite)
              s.step_up_positive)
        go (less h k) = rw h (
            rw k (
              sub-le x cfg.step_down finite
                ((refl_of_le _ _ s.step_down_positive).1, s.step_down_finite) s.step_down_positive))
        go (same h k) = rw h (rw k refl)

    Moves-clamp :
        (cfg : Config F) (p95 x y : F) (demand : Demand cfg p95)
        → IsSound cfg
        → Within cfg x
        → Moves demand x y
        → Moves demand x (clamp y cfg.target_min cfg.target_max)
    Moves-clamp cfg p95 x y demand s w = go demand
      where
        still : clamp x cfg.target_min cfg.target_max ≡ x
        still = clamp_within laws x cfg.target_min cfg.target_max w.0 w.1

        go :
            (demand : Demand cfg p95)
            → Moves demand x y
            → Moves demand x (clamp y cfg.target_min cfg.target_max)
        go (more _) h =
            rw still at (clamp_mono laws x y cfg.target_min cfg.target_max h s.target_order)
        go (less _ _) h =
            rw still at (clamp_mono laws y x cfg.target_min cfg.target_max h s.target_order)
        go (same _ _) h = rw h still

    -- A positive value is not the 0 that stands for a missing target.
    pub eq_zero :
        (cfg : Config F) (x : F) → nought ≺ cfg.target_min → Within cfg x → d.eq x nought ≡ false
    eq_zero cfg x positive w =
        let (zero_number, min_number) = (refl_of_le _ _ (laws.le_of_lt _ _ positive)) in
        ground (
          arith,
          eq-eq-le x nought,
          lt-eq-not-le nought cfg.target_min zero_number min_number,
          le_trans cfg.target_min x nought w.0,
        )

    adjusted-Within : (c : Controller F) → Inv c → Within c.cfg (adjusted c)
    adjusted-Within c v = ground arith

    -- A tick with a P95 moves the value that it adjusts by the demand: below the goal band it does not
    -- fall, above it does not rise, and within the band, or at NaN, it stays; the configured targets
    -- being positive.
    pub run_tick-Moves :
        (c : Controller F) (p95 : F) (fetched_at : ℕ) (demand : Demand c.cfg p95)
        → Inv c
        → nought ≺ c.cfg.target_min
        → Moves demand (adjusted c) (adjusted (run_tick (ok (p95, fetched_at)) c))
    unfolding next_target
    run_tick-Moves c p95 fetched_at demand v positive =
        let x = adjusted c in
        let w = adjusted-Within c v in
        rw (adjusted-run_tick p95 fetched_at c) (
          rw (base_target-adjusted c (eq_zero c.cfg x positive w), next_target)
            (Moves-clamp c.cfg p95 x (adjust p95 c.cfg x) demand v.sound w
              (adjust-Moves c.cfg p95 x demand v.sound w)))
