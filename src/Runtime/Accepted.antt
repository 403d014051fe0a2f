-- ===== src/Runtime/Accepted.antt =====
-- What a configuration that `Load` of pkg/runtimeconfig/loader.go returns may be relied on for.
use mathlib.Core.Path.{subst}
use oci_cpu_shaper.Base.{Result, ◌≡◌, refl, arith, Option, none, some, ok, err, List, [], ◌∷◌}
use oci_cpu_shaper.Base.Int.{ℤ, pos, ◌<ℤ◌}
use oci_cpu_shaper.Base.Text.{Text}
use oci_cpu_shaper.Float.{Float, IsFloat, nought}
use oci_cpu_shaper.Shape.Pool.{Pool, set_target, set_pause_thresholds, blank_pool, new_pool}
use oci_cpu_shaper.Shape.Bounds.{
  IsValid, thresholds_to, guard_to, apply_op, apply_ops, new_pool_stays-IsValid,
}
use oci_cpu_shaper.Adapt.Validity.{then_check_iff}
use oci_cpu_shaper.Adapt.Construction.{new_of_valid}
use oci_cpu_shaper.Runtime.Checks.{or_failure_iff}
use oci_cpu_shaper.Runtime.Build.{labelled, configured_pool, build_adaptive_controller}
use oci_cpu_shaper.Adapt.Normalize.{coerce_config, fill_defaults}
use oci_cpu_shaper.Adapt.Validate.{
  InvalidConfig, validate_config, validate_controller_config, validate_target_bounds,
  validate_step_sizes, validate_relaxed_confirmations, validate_suppress_smoothing,
  validate_goal_bounds, validate_suppression_thresholds, validate_runnable_thresholds,
}
use oci_cpu_shaper.Adapt.Controller.{Controller, Call}
use oci_cpu_shaper.Runtime.Settings.{RuntimeConfig, to_adapt_config}
use oci_cpu_shaper.Runtime.Sources.{Parsers, Environment, apply_env_overrides}
use oci_cpu_shaper.Runtime.Load.{
  FileRead, LoadError, InvalidRuntime, validate_runtime, validate_controller,
  validate_pool_settings, validate_runtime_config, validated, merged_file, load,
}

module _ {F : Type 0} ⦃d : Float F⦄ where
  both_passed :
      (a : Option InvalidRuntime) (b : Option InvalidConfig) (cfg : RuntimeConfig F)
      {result : RuntimeConfig F}
      → ◌≡◌ {A = Result LoadError (RuntimeConfig F)}
          (elim a [
            | some e ↦ err (validate_runtime e)
            | none ↦ elim b [ some e ↦ err (validate_controller e) | none ↦ ok cfg ]
          ])
          (ok result)
      → (a ≡ none) × (b ≡ none) × (cfg ≡ result)
  both_passed none none cfg e = (refl, refl, ground arith)
  both_passed none (some b) cfg e = ground arith
  both_passed (some a) b cfg e = ground arith

  unfoldable pub Passed : RuntimeConfig F → Type 0
  Passed cfg = (validate_runtime_config cfg ≡ none) × (validate_config (to_adapt_config cfg) ≡ none)

  validated-Passed :
      (cfg : RuntimeConfig F) {result : RuntimeConfig F} → validated cfg ≡ ok result → Passed result
  unfolding validated Passed
  validated-Passed cfg e =
      let (a, b, same) =
        both_passed (validate_runtime_config cfg) (validate_config (to_adapt_config cfg)) cfg e in
      subst Passed same (a, b)

  pub validated_same :
      (cfg : RuntimeConfig F) {result : RuntimeConfig F} → validated cfg ≡ ok result → cfg ≡ result
  unfolding validated
  validated_same cfg e =
      (both_passed (validate_runtime_config cfg) (validate_config (to_adapt_config cfg)) cfg e).2

  pub load-Passed :
      (parsers : Parsers F) (env : Environment) (read : Text → FileRead F) (path : Text)
      {cfg : RuntimeConfig F}
      → load parsers env read path ≡ ok cfg
      → Passed cfg
  unfolding load
  load-Passed parsers env read path {cfg} e = split (merged_file read path) e
    where
      split :
          (r : Result LoadError (RuntimeConfig F))
          → ◌≡◌ {A = Result LoadError (RuntimeConfig F)}
              (elim r [ err e ↦ err e | ok c ↦ validated (apply_env_overrides parsers env c) ])
              (ok cfg)
          → Passed cfg
      split (err f) h = ground arith
      split (ok c) h = validated-Passed (apply_env_overrides parsers env c) h

  -- The mode and the resource play no part in the checks.
  pub labelled_valid :
      (cfg : RuntimeConfig F) (resource_id mode : Text)
      → validate_config (to_adapt_config cfg) ≡ none
      → validate_controller_config (coerce_config (labelled cfg resource_id mode)).0 ≡ none
  unfolding validate_config coerce_config fill_defaults labelled to_adapt_config
      validate_controller_config validate_target_bounds validate_step_sizes
      validate_relaxed_confirmations validate_suppress_smoothing validate_goal_bounds
      validate_suppression_thresholds validate_runnable_thresholds
  labelled_valid cfg resource_id mode e =
      ((then_check_iff (validate_runnable_thresholds (to_adapt_config cfg))
          (validate_controller_config (coerce_config (to_adapt_config cfg)).0)).0
        e).1

  build_of_valid :
      (laws : IsFloat F) (cfg : RuntimeConfig F) (resource_id mode : Text)
      (recorder : Option (List (Call F))) (pool : Pool F)
      → new_pool cfg.pool.workers cfg.pool.quantum ≡ ok pool
      → validate_controller_config (coerce_config (labelled cfg resource_id mode)).0 ≡ none
      → (c : Controller F) × (build_adaptive_controller cfg resource_id mode recorder
          ≡ ok (c, configured_pool cfg pool))
  unfolding build_adaptive_controller
  build_of_valid laws cfg resource_id mode recorder pool p e =
      let (c, h) =
        new_of_valid laws (labelled cfg resource_id mode) (configured_pool cfg pool) recorder e in
      (c, rw (p, build_adaptive_controller, h) refl)

  new_pool_of_positive :
      (workers quantum : ℤ)
      → pos 0 <ℤ workers
      → (pool : Pool F) × (new_pool workers quantum ≡ ok pool)
  unfolding new_pool
  new_pool_of_positive workers quantum positive = (
    set_pause_thresholds nought nought (set_target nought (blank_pool workers quantum)),
    ground arith,
  )

  workers_positive :
      (cfg : RuntimeConfig F) → validate_runtime_config cfg ≡ none → pos 0 <ℤ cfg.pool.workers
  unfolding validate_runtime_config validate_pool_settings
  workers_positive cfg e =
      let pool = ((or_failure_iff (validate_pool_settings cfg.pool) _).0 e).0 in ground arith

  -- A configuration that `Load` returned builds the pool and the controller, for every instance and
  -- every mode, and the pool is within the bounds of its fields.
  pub load_then_build :
      (laws : IsFloat F) (parsers : Parsers F) (env : Environment) (read : Text → FileRead F)
      (path resource_id mode : Text) (recorder : Option (List (Call F))) {cfg : RuntimeConfig F}
      → load parsers env read path ≡ ok cfg
      → (c : Controller F) × (pool : Pool F) × (build_adaptive_controller cfg resource_id mode
            recorder
          ≡ ok (c, pool))
        × IsValid pool
  unfolding Passed configured_pool apply_ops apply_op
  load_then_build laws parsers env read path resource_id mode recorder {cfg} e =
      let (checked, adapted) = load-Passed parsers env read path e in
      let (pool, p) =
        new_pool_of_positive cfg.pool.workers cfg.pool.quantum (workers_positive cfg checked) in
      let (c, h) =
        build_of_valid laws cfg resource_id mode recorder pool p
          (labelled_valid cfg resource_id mode adapted) in
      let settings =
        thresholds_to cfg.pool.pause_threshold cfg.pool.resume_threshold
        ∷ guard_to cfg.pool.runnable_guard
        ∷ [] in
      let valid = new_pool_stays-IsValid laws cfg.pool.workers cfg.pool.quantum settings p in
      (c, configured_pool cfg pool, h, valid)
