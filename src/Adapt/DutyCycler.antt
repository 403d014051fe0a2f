-- ===== src/Adapt/DutyCycler.antt =====
-- pkg/adapt/dutycycler_wrapper.go: the two implementations of the interface `DutyCycler`, the worker
-- pool and the recorder that stands in for it in the modes that must not touch the pool.
use oci_cpu_shaper.Base.{if◌then◌else◌}
use oci_cpu_shaper.Base.Text.{Text}
use oci_cpu_shaper.Float.{Float}
use oci_cpu_shaper.Shape.Pool.{Pool}
use oci_cpu_shaper.Shape.Pool
use oci_cpu_shaper.Adapt.Config.{mode_enforces_targets}

-- `recording` keeps the pool that it hides, which lives on beside the controller.
pub data DutyCycler (F : Type 0) : Type 0 where
  pool : Pool F → DutyCycler F
  recording : F → Pool F → DutyCycler F

-- The worker pool behind the controller.
abbrev pub hidden_pool : {F : Type 0} → DutyCycler F → Pool F
hidden_pool (pool p) = p
hidden_pool (recording t p) = p

-- Method `Target`.
abbrev pub current_target : {F : Type 0} → DutyCycler F → F
current_target (pool p) = p.target
current_target (recording t p) = t

unfoldable pub new_mode_aware_duty_cycler : {F : Type 0} → Text → Pool F → DutyCycler F
new_mode_aware_duty_cycler mode p =
    if mode_enforces_targets mode then pool p else recording p.target p

module _ {F : Type 0} ⦃d : Float F⦄ where
  unfoldable pub set_target : F → DutyCycler F → DutyCycler F
  set_target target (pool p) = pool (Pool.set_target target p)
  set_target target (recording t p) = recording target p

  unfoldable pub observe_host_load : F → F → DutyCycler F → DutyCycler F
  observe_host_load utilisation runnable (pool p) =
      pool (Pool.observe_host_load utilisation runnable p)
  observe_host_load utilisation runnable (recording t p) = recording t p
