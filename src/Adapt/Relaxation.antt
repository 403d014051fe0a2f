-- ===== src/Adapt/Relaxation.antt =====
-- The relaxed interval of pkg/adapt/controller_step.go: how many consecutive high samples it takes.
use oci_cpu_shaper.Base.{
  ℕ, ◌+◌, ◌<◌, ◌≡◌, ◌⊎◌, arith, true, false, refl, Result, ok, err, List, [], ◌∷◌, map, length,
  if◌then◌else◌,
}
use oci_cpu_shaper.Base.Int.{ℤ, pos, ◌<ℤ◌, leb_ℤ, max_int}
use oci_cpu_shaper.Base.Text.{Text}
use oci_cpu_shaper.Float.{Float, ◌≼◌}
use oci_cpu_shaper.Adapt.Config.{Config}
use oci_cpu_shaper.Adapt.Controller.{
  Controller, apply_target, update_effective_state, reset_relaxed_successes,
}
use oci_cpu_shaper.Adapt.Controller.Loop.{Event, tick, run_tick, handle, run}
use oci_cpu_shaper.Adapt.Controller.Step.{
  assign_target, handle_step_error, settle_success, next_interval, handle_step_success, step,
}

module _ {F : Type 0} ⦃d : Float F⦄ where
  -- Every P95 has reached the relaxed threshold.
  abbrev pub AllHigh : Config F → List (F × ℕ) → Type 0
  AllHigh cfg [] = Unit
  AllHigh cfg ((p95, _) ∷ rest) = (cfg.relaxed_threshold ≼ p95) × AllHigh cfg rest

  -- The interval that the configuration grants after so many consecutive high samples.
  abbrev pub granted : Config F → ℕ → ℤ
  granted cfg n =
      if leb_ℤ cfg.relaxed_confirmations (pos n) then cfg.relaxed_interval else cfg.interval

  high_tick :
      (cfg : Config F) (p95 : F) (fetched_at n : ℕ) (c : Controller F)
      → c.cfg ≡ cfg
      → pos 0 <ℤ cfg.interval
      → pos 0 <ℤ cfg.relaxed_interval
      → c.is_suppressed ≡ false
      → c.relaxed_successes ≡ pos n
      → n < max_int
      → cfg.relaxed_threshold ≼ p95
      → let c' = run_tick (ok (p95, fetched_at)) c in
        (c'.relaxed_successes ≡ pos (n + 1))
        × (c'.interval ≡ granted cfg (n + 1))
        × (c'.is_suppressed ≡ false)
        × (c'.cfg ≡ cfg)
  unfolding run_tick step handle_step_success next_interval settle_success assign_target
      apply_target update_effective_state
  high_tick cfg p95 fetched_at n c same pi pr active count small high = ground arith

  abbrev pub answers : List (F × ℕ) → List (Event F)
  answers = map (λ a. tick (ok a))

  high_ticks :
      (cfg : Config F) (first : F × ℕ) (rest : List (F × ℕ)) (n : ℕ) (c : Controller F)
      → c.cfg ≡ cfg
      → pos 0 <ℤ cfg.interval
      → pos 0 <ℤ cfg.relaxed_interval
      → c.is_suppressed ≡ false
      → c.relaxed_successes ≡ pos n
      → n + length rest < max_int
      → AllHigh cfg (first ∷ rest)
      → let c' = run (answers (first ∷ rest)) c in
        let total = n + length (first ∷ rest) in
        (c'.relaxed_successes ≡ pos total) × (c'.interval ≡ granted cfg total)
  unfolding run handle
  high_ticks cfg (p95, at) [] n c same pi pr active count small high =
      let (count', interval', _, _) =
        high_tick cfg p95 at n c same pi pr active count (omega arith) high.0 in
      (count', interval')
  high_ticks cfg (p95, at) (second ∷ rest) n c same pi pr active count small high =
      let c' = run_tick (ok (p95, at)) c in
      let (count', _, active', cfg') =
        high_tick cfg p95 at n c same pi pr active count (omega arith) high.0 in
      let total : n + 1 + length (second ∷ rest) ≡ n + length ((p95, at) ∷ second ∷ rest) =
        omega arith in
      rw total at
        (high_ticks cfg second rest (n + 1) c' cfg' pi pr active' count' (omega arith) high.1)

  -- A run of high samples on an active controller counts each of them, and the last one sets the
  -- relaxed interval exactly from the configured number of confirmations on; the intervals being
  -- positive and the counter not wrapping.
  pub high_ticks_relax :
      (first : F × ℕ) (rest : List (F × ℕ)) (n : ℕ) (c : Controller F)
      → pos 0 <ℤ c.cfg.interval
      → pos 0 <ℤ c.cfg.relaxed_interval
      → c.is_suppressed ≡ false
      → c.relaxed_successes ≡ pos n
      → n + length rest < max_int
      → AllHigh c.cfg (first ∷ rest)
      → let c' = run (answers (first ∷ rest)) c in
        let total = n + length (first ∷ rest) in
        (c'.relaxed_successes ≡ pos total) × (c'.interval ≡ granted c.cfg total)
  high_ticks_relax first rest n c = high_ticks c.cfg first rest n c refl

  -- The query failed, or its P95 is below the relaxed threshold or NaN.
  abbrev pub IsLow : Config F → Result Text (F × ℕ) → Type 0
  IsLow cfg (err e) = Unit
  IsLow cfg (ok (p95, _)) = d.le cfg.relaxed_threshold p95 ≡ false

  -- A sample below the threshold, a failed query and a tick while suppressed each start the count
  -- afresh and ask for the normal interval; that interval being positive.
  pub low_tick_resets :
      (answer : Result Text (F × ℕ)) (c : Controller F)
      → pos 0 <ℤ c.cfg.interval
      → (c.is_suppressed ≡ true) ⊎ IsLow c.cfg answer
      → let c' = run_tick answer c in
        (c'.relaxed_successes ≡ pos 0) × (c'.interval ≡ c.cfg.interval)
  unfolding run_tick step handle_step_error handle_step_success next_interval settle_success
      assign_target apply_target update_effective_state reset_relaxed_successes
  low_tick_resets (err e) c pi low = ground arith
  low_tick_resets (ok (p95, fetched_at)) c pi low = ground arith
