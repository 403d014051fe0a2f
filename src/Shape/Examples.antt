-- ===== src/Shape/Examples.antt =====
-- Runs of the worker pool on fixed-point numbers.
use oci_cpu_shaper.Base.{◌≡◌, refl, arith, false, none, some, ok, List, [], ◌∷◌}
use oci_cpu_shaper.Base.Int.{pos, ◌≤ℤ◌, ◌+ℤ◌}
use oci_cpu_shaper.Float.Fixed.{Fixed, fixed_float, Fixed-IsFloat}
use oci_cpu_shaper.Shape.Pool.{
  Pool, bound_quantum, clamp_unit, clean, set_target, set_pause_thresholds, blank_pool, new_pool,
}
use oci_cpu_shaper.Shape.Worker.{worker_tick}
use oci_cpu_shaper.Shape.Bounds.{
  Op, target_to, thresholds_to, guard_to, load_seen, busy_total, sleep_total, apply_ops, IsValid,
  new_pool_stays-IsValid, worker_tick_budget,
}

-- Two workers with the default quantum, before any setting.
abbrev fresh : Pool Fixed
fresh = record {
  workers = pos 2;
  quantum = pos 1_000_000;
  target = some (pos 0);
  pause_threshold = some (pos 0);
  resume_threshold = some (pos 0);
  runnable_guard = some (pos 0);
  paused = false;
}

fresh_new : new_pool (pos 2) (pos 0) ≡ ok fresh
unfolding new_pool blank_pool bound_quantum set_target set_pause_thresholds clean clamp_unit
fresh_new = refl

-- A NaN as the target, 80% and 95% as thresholds, a guard, and a load of 91%.
abbrev calls : List (Op Fixed)
calls =
    target_to none
    ∷ thresholds_to (some (pos 800)) (some (pos 950))
    ∷ guard_to (some (pos 1200))
    ∷ target_to (some (pos 250))
    ∷ load_seen (some (pos 910)) (some (pos 300))
    ∷ []

new_pool_stays-IsValid_example : IsValid (apply_ops calls fresh)
new_pool_stays-IsValid_example =
    new_pool_stays-IsValid Fixed-IsFloat (pos 2) (pos 0) calls fresh_new

abbrev quarter : Pool Fixed
quarter = record fresh {
  target = some (pos 250);
  pause_threshold = some (pos 800);
  resume_threshold = some (pos 680);
  runnable_guard = some (pos 1200);
}

quarter-IsValid : IsValid quarter
quarter-IsValid = ground arith

worker_tick_budget_example :
    (pos 0 ≤ℤ busy_total (worker_tick quarter))
    × (busy_total (worker_tick quarter) ≤ℤ pos 1_000_000)
    × (busy_total (worker_tick quarter) +ℤ sleep_total (worker_tick quarter) ≡ pos 1_000_000)
worker_tick_budget_example = worker_tick_budget Fixed-IsFloat quarter quarter-IsValid
