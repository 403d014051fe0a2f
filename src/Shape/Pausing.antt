-- ===== src/Shape/Pausing.antt =====
-- When pkg/shape/pause.go pauses the workers.
use oci_cpu_shaper.Base.{◌≡◌, ◌⊎◌, arith, true, ◌||◌}
use oci_cpu_shaper.Float.{Float, ◌≼◌, ◌≺◌, nought, is_nan}
use oci_cpu_shaper.Shape.Pool.{Pool, normalise_utilisation, observe_host_load}

module _ {F : Type 0} ⦃d : Float F⦄ where
  -- The runnable guard is on and reached.
  abbrev pub Guarded : Pool F → F → Type 0
  Guarded p runnable = (nought ≺ p.runnable_guard) × (p.runnable_guard ≼ runnable)

  -- The pause threshold is on, and the utilisation has reached it, or has not yet come down to the
  -- resume threshold while the pool is paused.
  abbrev pub Busy : Pool F → F → Type 0
  Busy p u =
      (nought ≺ p.pause_threshold)
      × ((p.pause_threshold ≼ u) ⊎ ((p.paused ≡ true) × (p.resume_threshold ≺ u)))

  -- A load that is no finite number is not looked at.
  pub observe_no_number :
      (u r : F) (p : Pool F) → (is_nan u || d.is_inf u) ≡ true → observe_host_load u r p ≡ p
  unfolding observe_host_load normalise_utilisation
  observe_no_number u r p h = ground arith
