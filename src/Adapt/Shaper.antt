-- ===== src/Adapt/Shaper.antt =====
-- How the controller and the worker pool agree: in `enforce` mode the pool runs at the controller's
-- target, and in the other modes the pool is never touched.
use oci_cpu_shaper.Base.{◌≡◌, Bool, true, false}
use oci_cpu_shaper.Base.Text.{Text}
use oci_cpu_shaper.Float.{Float}
use oci_cpu_shaper.Shape.Pool.{Pool}
use oci_cpu_shaper.Shape.Pool
use oci_cpu_shaper.Adapt.Config.{Config}
use oci_cpu_shaper.Adapt.DutyCycler.{DutyCycler, pool, recording}
use oci_cpu_shaper.Adapt.DutyCycler
use oci_cpu_shaper.Adapt.Controller.{Controller}

module _ {F : Type 0} ⦃d : Float F⦄ where
  -- The duty cycle that the pool makes of a target: within [0, 1], and 0 for NaN.
  pub duty : F → F
  duty target = Pool.clean target

  -- The shaper follows `target`: the pool itself if `enforcing`, and otherwise a recorder that hides
  -- the pool `start`.
  abbrev pub Follows : Pool F → Bool → DutyCycler F → F → Type 0
  Follows start enforcing (pool p) target = (enforcing ≡ true) × (p.target ≡ duty target)
  Follows start enforcing (recording t p) target = (enforcing ≡ false) × (t ≡ target) × (p ≡ start)

  module _ (start : Pool F) (enforcing : Bool) where
    Tracks : Controller F → Type 0
    Tracks c = Follows start enforcing c.shaper c.target
