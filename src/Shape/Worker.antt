-- ===== src/Shape/Worker.antt =====
-- pkg/shape/worker.go: what a worker does at one tick, as the calls that it makes in their order.
use oci_cpu_shaper.Base.{if◌then◌else◌, List, [], ◌∷◌}
use oci_cpu_shaper.Base.Int.{ℤ, pos, ltb_ℤ, ◌-ℤ◌}
use oci_cpu_shaper.Float.{Float}
use oci_cpu_shaper.Shape.Pool.{Pool}

-- `busyFn(d)`, `sleepFn(d)` and `yieldFn()`.
pub data Action : Type 0 where
  busy : ℤ → Action
  sleep : ℤ → Action
  yield : Action

unfoldable pub min_ℤ : ℤ → ℤ → ℤ
min_ℤ a b = if ltb_ℤ b a then b else a

module _ {F : Type 0} ⦃d : Float F⦄ where
  open d use {mul, of_int, trunc}

  -- `busyDuration`.
  unfoldable pub busy_duration : Pool F → ℤ
  unfolding min_ℤ
  busy_duration p = min_ℤ (trunc (mul p.target (of_int p.quantum))) p.quantum

  -- The body of the loop, after the tick.
  unfoldable pub worker_tick : Pool F → List Action
  worker_tick p =
      let b = busy_duration p in
      let idle = p.quantum -ℤ b in
      if p.paused
      then sleep p.quantum ∷ yield ∷ []
      else (if ltb_ℤ (pos 0) b then busy b else yield)
        ∷ (if ltb_ℤ (pos 0) idle then sleep idle else yield)
        ∷ yield
        ∷ []
