-- ===== src/Adapt/Construction.antt =====
-- What `NewAdaptiveController` of pkg/adapt/controller_ctor.go establishes.
use oci_cpu_shaper.Base.{◌≡◌, arith, Option, none, ok, List, ◌↔◌}
use oci_cpu_shaper.Base.Int.{pos, ◌<ℤ◌}
use oci_cpu_shaper.Float.{Float, IsFloat}
use oci_cpu_shaper.Shape.Pool.{Pool}
use oci_cpu_shaper.Adapt.Config.{Config}
use oci_cpu_shaper.Adapt.Normalize.{coerce_config, fill_defaults}
use oci_cpu_shaper.Adapt.Validate.{normalize_config, validate_controller_config}
use oci_cpu_shaper.Adapt.Validity.{IsOrdered, validate_controller_config_iff}
use oci_cpu_shaper.Adapt.Coercion.{
  IsFiniteConfig, fill_defaults-IsFiniteConfig, coerce_config-IsNumeric,
}
use oci_cpu_shaper.Adapt.Invariant.{IsSound, Inv, run-Inv}
use oci_cpu_shaper.Adapt.Controller.{Controller, Call, start_controller, new_adaptive_controller}
use oci_cpu_shaper.Adapt.Controller.Loop.{Event, run}

module _ {F : Type 0} ⦃d : Float F⦄ where
  coerced_intervals :
      (raw : Config F)
      → let cfg = (coerce_config raw).0 in (pos 0 <ℤ cfg.interval) × (pos 0 <ℤ cfg.relaxed_interval)
  unfolding coerce_config fill_defaults
  coerced_intervals raw = ground arith

  module _ (laws : IsFloat F) where
    open laws use {le_of_lt}

    IsOrdered-IsSound :
        (raw : Config F)
        → IsFiniteConfig raw
        → IsOrdered (coerce_config raw).0
        → IsSound (coerce_config raw).0
    unfolding coerce_config
    IsOrdered-IsSound raw f o =
        let g = fill_defaults-IsFiniteConfig laws raw f in
        record {
          target_order = le_of_lt _ _ o.target_order;
          min_finite = g.target_min_finite.1;
          max_finite = g.target_max_finite.1;
          start_low = o.start_inside.0;
          start_high = o.start_inside.1;
          fallback_low = o.fallback_inside.0;
          fallback_high = o.fallback_inside.1;
          step_up_positive = le_of_lt _ _ o.steps_positive.0;
          step_down_positive = le_of_lt _ _ o.steps_positive.1;
          step_up_finite = g.step_up_finite.1;
          step_down_finite = g.step_down_finite.1;
          interval_positive = (coerced_intervals raw).0;
          relaxed_interval_positive = (coerced_intervals raw).1;
        }

    -- The configuration of a new controller is the coerced one, and it passed the checks.
    new-cfg :
        (raw : Config F) (pool : Pool F) (recorder : Option (List (Call F))) {c : Controller F}
        → new_adaptive_controller raw pool recorder ≡ ok c
        → (c.cfg ≡ (coerce_config raw).0)
          × (validate_controller_config (coerce_config raw).0 ≡ none)
    unfolding new_adaptive_controller normalize_config
    new-cfg raw pool recorder e = ground arith

    pub new_of_valid :
        (raw : Config F) (pool : Pool F) (recorder : Option (List (Call F)))
        → validate_controller_config (coerce_config raw).0 ≡ none
        → (c : Controller F) × (new_adaptive_controller raw pool recorder ≡ ok c)
    unfolding new_adaptive_controller normalize_config
    new_of_valid raw pool recorder e =
        let (cfg, mode) = coerce_config raw in
        (start_controller cfg mode pool recorder, ground arith)

    new-Inv :
        (raw : Config F) (pool : Pool F) (recorder : Option (List (Call F))) {c : Controller F}
        → IsSound (coerce_config raw).0
        → new_adaptive_controller raw pool recorder ≡ ok c
        → Inv c
    unfolding new_adaptive_controller normalize_config
    new-Inv raw pool recorder s e = ground arith

    -- A configuration of finite numbers builds a controller exactly when, with the defaults filled in
    -- and the suppression band put in order, its thresholds are in order.
    pub new_adaptive_controller_iff :
        (raw : Config F) (pool : Pool F) (recorder : Option (List (Call F)))
        → IsFiniteConfig raw
        → ((c : Controller F) × (new_adaptive_controller raw pool recorder ≡ ok c))
          ↔ IsOrdered (coerce_config raw).0
    new_adaptive_controller_iff raw pool recorder f =
        let checks =
          validate_controller_config_iff laws (coerce_config raw).0
            (coerce_config-IsNumeric laws raw f) in
        (
          λ (c, e). checks.0 (new-cfg raw pool recorder e).1,
          λ o. new_of_valid raw pool recorder (checks.1 o),
        )

    -- Whatever the metrics client answers and the estimator delivers, and in whatever order, a
    -- controller that was built from finite numbers keeps its invariant: the target lies within
    -- [TargetMin, TargetMax], or is 0 while suppressed, the target to come back to lies within that
    -- range, the effective state is the slow state or `suppressed`, no error is kept in the normal
    -- state, and the interval is one of the two configured.
    pub run_new-Inv :
        (raw : Config F) (pool : Pool F) (recorder : Option (List (Call F))) {c : Controller F}
        (es : List (Event F))
        → IsFiniteConfig raw
        → new_adaptive_controller raw pool recorder ≡ ok c
        → Inv (run es c)
    run_new-Inv raw pool recorder {c} es f e =
        let order =
          (validate_controller_config_iff laws (coerce_config raw).0
              (coerce_config-IsNumeric laws raw f)).0
            (new-cfg raw pool recorder e).1 in
        run-Inv laws es c (new-Inv raw pool recorder (IsOrdered-IsSound raw f order) e)
