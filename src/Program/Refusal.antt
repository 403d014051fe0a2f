-- ===== src/Program/Refusal.antt =====
-- cmd/shaper: the exit code of a start that fails with a configuration that was loaded.
use mathlib.Core.Path.{subst}
use oci_cpu_shaper.Base.{
  ℕ, ◌≡◌, ◌∙◌, inl, inr, ap, sym, refl, arith, if◌then◌else◌, Option, none, some, Result,
  Result-cases, ok, err, List,
}
use oci_cpu_shaper.Base.Text.{Text, trim_space, is_empty}
use oci_cpu_shaper.Float.{Float, IsFloat}
use oci_cpu_shaper.Shape.Pool.{PoolError, new_pool}
use oci_cpu_shaper.Adapt.Validate.{validate_config}
use oci_cpu_shaper.Adapt.Controller.{Call}
use oci_cpu_shaper.Adapt.Construction.{new_of_valid}
use oci_cpu_shaper.Imds.Client.{Client}
use oci_cpu_shaper.Runtime.Settings.{RuntimeConfig, ControllerConfig, to_adapt_config}
use oci_cpu_shaper.Runtime.Sources.{Parsers, Environment}
use oci_cpu_shaper.Runtime.Load.{FileRead, load}
use oci_cpu_shaper.Runtime.Build.{
  BuildError, build_worker_pool, labelled, configured_pool, build_adaptive_controller,
}
use oci_cpu_shaper.Runtime.Accepted.{Passed, load-Passed, labelled_valid}
use oci_cpu_shaper.Program.Options.{mode_enforce}
use oci_cpu_shaper.Program.Metadata.{
  OciMetadata, resolve_instance_id, resolve_compartment_and_region, with_metadata,
  prepare_run_metadata,
}
use oci_cpu_shaper.Program.Sizing.{PoolSizingResult, apply_pool_sizing_from_shape}
use oci_cpu_shaper.Program.Startup.{
  StartError, create_metrics_client, connect_and_build, resolve_and_connect, resolve_and_build,
  default_controller_factory, stage_sizing, stage_metadata, exit_code_for_start_error,
  prepare_controller,
}

-- The configuration of the controller is accepted.
unfoldable pub Accepts : {F : Type 0} ⦃d : Float F⦄ → RuntimeConfig F → Type 0
Accepts cfg = validate_config (to_adapt_config cfg) ≡ none

module _ {F : Type 0} ⦃d : Float F⦄ where
  -- Only the settings of the controller matter to that.
  same-Accepts : (cfg p : RuntimeConfig F) → p.controller ≡ cfg.controller → Accepts cfg → Accepts p
  unfolding Accepts to_adapt_config
  same-Accepts cfg p e a =
      subst
        (λ (c : ControllerConfig F).
          validate_config (to_adapt_config (record cfg { controller = c })) ≡ none)
        (sym e) a

  with_metadata-Accepts :
      (m : OciMetadata) (cfg : RuntimeConfig F) → Accepts cfg → Accepts (with_metadata m cfg)
  unfolding with_metadata
  with_metadata-Accepts m cfg a = same-Accepts cfg (with_metadata m cfg) refl a

  module _ {E : Type 0} (client : Client F E) where
    prepared-Accepts :
        (cfg : RuntimeConfig F) (mode : Text) {p : RuntimeConfig F} {m : OciMetadata}
        → prepare_run_metadata cfg (some client) mode ≡ ok (p, m)
        → Accepts cfg
        → Accepts p
    unfolding prepare_run_metadata with_metadata
    prepared-Accepts cfg mode {p} h a =
        let same : p.controller ≡ cfg.controller = ground arith in same-Accepts cfg p same a

    sized-Accepts :
        (cfg : RuntimeConfig F) (mode : Text) {p : RuntimeConfig F} {r : PoolSizingResult F}
        → apply_pool_sizing_from_shape cfg mode (some client) ≡ ok (p, r)
        → Accepts cfg
        → Accepts p
    unfolding apply_pool_sizing_from_shape
    sized-Accepts cfg mode {p} h a =
        let same : p.controller ≡ cfg.controller = ground arith in same-Accepts cfg p same a

    sizing_staged :
        (cfg : RuntimeConfig F) (mode : Text) (n : OciMetadata) {p : RuntimeConfig F}
        {m : OciMetadata}
        → {r : PoolSizingResult F} → stage_sizing cfg (some client) mode n ≡ ok (p, m, r)
        → apply_pool_sizing_from_shape cfg mode (some client) ≡ ok (p, r)
    unfolding stage_sizing
    sizing_staged cfg mode n h = ground arith

    sizing_failure :
        (cfg : RuntimeConfig F) (mode : Text) (n : OciMetadata) {code : ℕ}
        → stage_sizing cfg (some client) mode n ≡ err code
        → code ≡ 1
    unfolding stage_sizing
    sizing_failure cfg mode n h = ground arith

    -- A stage that fails has the code of a run, and one that succeeds keeps the acceptance.
    staged-Accepts :
        (cfg : RuntimeConfig F) (mode : Text) {p : RuntimeConfig F} {m : OciMetadata}
        → {r : PoolSizingResult F} → stage_metadata cfg (some client) mode ≡ ok (p, m, r)
        → Accepts cfg
        → Accepts p
    unfolding stage_metadata
    staged-Accepts cfg mode {p} {m} {r} h a =
        elim (Result-cases (prepare_run_metadata cfg (some client) mode)) [
          | inl (e, k) ↦ absurd (ground (arith, h, k))
          | inr ((q, n), k) ↦
              let sized : stage_sizing q (some client) mode n ≡ ok (p, m, r) =
                ground (arith, h, k) in
              sized-Accepts q mode (sizing_staged q mode n sized) (prepared-Accepts cfg mode k a)
        ]

    stage_failure :
        (cfg : RuntimeConfig F) (mode : Text) {code : ℕ}
        → stage_metadata cfg (some client) mode ≡ err code
        → code ≡ 1
    unfolding stage_metadata
    stage_failure cfg mode h = elim (Result-cases (prepare_run_metadata cfg (some client) mode)) [
      | inl (e, k) ↦ ground (arith, h, k)
      | inr ((q, n), k) ↦ sizing_failure q mode n (ground (arith, h, k))
    ]

module _ {F : Type 0} ⦃d : Float F⦄ (laws : IsFloat F) where
  -- Then only the pool can fail.
  build-failure :
      (cfg : RuntimeConfig F) (i mode : Text) (r : Option (List (Call F))) {e : BuildError}
      → Accepts cfg
      → build_adaptive_controller cfg i mode r ≡ err e
      → (w : PoolError) × (e ≡ build_worker_pool w)
  unfolding build_adaptive_controller Accepts
  build-failure cfg i mode r {e} a h =
      elim (Result-cases (new_pool {F = F} cfg.pool.workers cfg.pool.quantum)) [
        | inl (w, k) ↦ (w, ground (arith, h, k))
        | inr (pool, k) ↦
            let (c, made) =
              new_of_valid laws (labelled cfg i mode) (configured_pool cfg pool) r
                (labelled_valid cfg i mode a) in
            absurd (ground (arith, h, k, made))
      ]

  -- The code of an error is that of a run.
  abbrev IsRuntime : {E : Type 0} → StartError E → Type 0
  IsRuntime e = exit_code_for_start_error e ≡ 1

  module _ {E M : Type 0} (builder : Text → Text → Result Text M) where
    connect-IsRuntime :
        (mode i : Text) (m : OciMetadata) (cfg : RuntimeConfig F) (r : Option (List (Call F)))
        → {e : StartError E} → Accepts cfg
        → connect_and_build builder mode i m cfg r ≡ err e
        → IsRuntime e
    unfolding connect_and_build exit_code_for_start_error
    connect-IsRuntime mode i m cfg r {e} a h =
        elim (Result-cases (create_metrics_client builder cfg m.compartment_id m.region)) [
          | inl (f, k) ↦ ground (arith, h, k)
          | inr (source, k) ↦ elim (Result-cases (build_adaptive_controller cfg i mode r)) [
            | inl (f, j) ↦
                let (w, same) = build-failure cfg i mode r a j in ground (arith, h, k, j, same)
            | inr ((c, pool), j) ↦ absurd (ground (arith, h, k, j))
          ]
        ]

    resolve_and_connect-IsRuntime :
        (mode i : Text) (cfg : RuntimeConfig F) (client : Client F E) (r : Option (List (Call F)))
        → {e : StartError E} → Accepts cfg
        → resolve_and_connect builder mode cfg client r i ≡ err e
        → IsRuntime e
    unfolding resolve_and_connect exit_code_for_start_error
    resolve_and_connect-IsRuntime mode i cfg client r {e} a h =
        elim (Result-cases (resolve_compartment_and_region cfg (some client))) [
          | inl (f, k) ↦ ground (arith, h, k)
          | inr (m, k) ↦
              connect-IsRuntime mode i m (with_metadata m cfg) r (with_metadata-Accepts m cfg a)
                (ground (arith, h, k))
        ]

    build-IsRuntime :
        (mode : Text) (cfg : RuntimeConfig F) (client : Client F E) (r : Option (List (Call F)))
        → {e : StartError E} → Accepts cfg
        → resolve_and_build builder mode cfg client r ≡ err e
        → IsRuntime e
    unfolding resolve_and_build exit_code_for_start_error
    build-IsRuntime mode cfg client r {e} a h =
        elim (Result-cases (resolve_instance_id cfg cfg.oci.offline client)) [
          | inl (f, k) ↦ ground (arith, h, k)
          | inr (i, k) ↦ resolve_and_connect-IsRuntime mode i cfg client r a (ground (arith, h, k))
        ]

    factory-IsRuntime :
        (mode : Text) (cfg : RuntimeConfig F) (client : Client F E) (r : Option (List (Call F)))
        → {e : StartError E} → Accepts cfg
        → default_controller_factory builder mode cfg (some client) r ≡ err e
        → IsRuntime e
    unfolding default_controller_factory exit_code_for_start_error
    factory-IsRuntime mode cfg client r {e} a h =
        let m = if is_empty (trim_space mode) then mode_enforce else trim_space mode in
        elim (Result-cases (resolve_and_build builder m cfg client r)) [
          | inl (f, k) ↦ let code = build-IsRuntime m cfg client r a k in ground (arith, h, k, code)
          | inr (built, k) ↦ absurd (ground (arith, h, k))
        ]

    -- A start that fails does so with the code of a run.
    pub prepare_failure :
        (cfg : RuntimeConfig F) (mode : Text) (client : Client F E) (r : Option (List (Call F)))
        → {code : ℕ} → Accepts cfg
        → prepare_controller builder cfg (some client) mode r ≡ err code
        → code ≡ 1
    unfolding prepare_controller
    prepare_failure cfg mode client r {code} a h =
        elim (Result-cases (stage_metadata cfg (some client) mode)) [
          | inl (f, k) ↦ stage_failure client cfg mode (k ∙ ap err (ground (arith, h, k)))
          | inr ((p, m, s), k) ↦
              elim (Result-cases (default_controller_factory builder mode p (some client) r)) [
                | inl (f, j) ↦
                    let runtime =
                      factory-IsRuntime mode p client r (staged-Accepts client cfg mode k a) j in
                    ground (arith, h, k, j, runtime)
                | inr ((built, calls), j) ↦ absurd (ground (arith, h, k, j))
              ]
        ]

-- What `Load` returns is accepted.
pub loaded-Accepts :
    {F : Type 0} ⦃d : Float F⦄ (parsers : Parsers F) (env : Environment) (read : Text → FileRead F)
    (path : Text)
    → {cfg : RuntimeConfig F} → load parsers env read path ≡ ok cfg
    → Accepts cfg
unfolding Accepts Passed
loaded-Accepts parsers env read path e = (load-Passed parsers env read path e).1
