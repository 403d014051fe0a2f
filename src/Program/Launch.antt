-- ===== src/Program/Launch.antt =====
-- cmd/shaper in offline mode: a configuration that was loaded starts.
mod Examples
use oci_cpu_shaper.Base.{
  ℕ, ◌≡◌, ◌∙◌, inl, inr, ap, sym, refl, arith, Bool, true, false, not, ◌||◌, if◌then◌else◌,
  Bool-cases, Option, none, some, Result, ok, err, List, [],
}
use oci_cpu_shaper.Base.Text.{Text, codes, text_eq, trim_space, is_empty}
use oci_cpu_shaper.Float.{Float, IsFloat, nought}
use oci_cpu_shaper.Shape.Pool.{Pool}
use oci_cpu_shaper.Shape.Bounds.{IsValid}
use oci_cpu_shaper.Adapt.Controller.{Controller, Call}
use oci_cpu_shaper.Adapt.Controller.Loop.{Event, run}
use oci_cpu_shaper.Imds.Client.{Client}
use oci_cpu_shaper.Runtime.Settings.{RuntimeConfig, OciConfig, PoolConfig, ControllerConfig}
use oci_cpu_shaper.Runtime.Sources.{Parsers, Environment}
use oci_cpu_shaper.Runtime.Load.{FileRead, load}
use oci_cpu_shaper.Runtime.Build.{labelled, configured_pool, build_adaptive_controller}
use oci_cpu_shaper.Runtime.Accepted.{load_then_build}
use oci_cpu_shaper.Metrics.Exporter.{new_exporter}
use oci_cpu_shaper.Metrics.Reported.{Reads, exported}
use oci_cpu_shaper.Program.Options.{mode_noop, mode_enforce}
use oci_cpu_shaper.Program.Metadata.{
  OciMetadata, offline_instance_fallback, resolve_instance_id, resolve_compartment_and_region,
  with_metadata, prepare_run_metadata,
}
use oci_cpu_shaper.Program.Sizing.{PoolSizingResult, apply_pool_sizing_from_shape}
use oci_cpu_shaper.Program.Startup.{
  StartError, Built, adaptive, static, create_metrics_client, connect_and_build,
  resolve_and_connect, resolve_and_build, default_controller_factory, stage_sizing, stage_metadata,
  prepare_controller,
}

-- The mode that the factory goes on with.
abbrev run_mode : Text → Text
unfolding is_empty trim_space
run_mode mode = if is_empty (trim_space mode) then mode_enforce else trim_space mode

enforce_runs : text_eq mode_enforce mode_noop ≡ false
unfolding text_eq
enforce_runs = refl

run_mode-not_noop :
    (mode : Text)
    → text_eq (trim_space mode) mode_noop ≡ false
    → text_eq (run_mode mode) mode_noop ≡ false
unfolding run_mode
run_mode-not_noop mode h = elim (Bool-cases (is_empty (trim_space mode))) [
  | inl b ↦ rw b enforce_runs
  | inr b ↦ rw b h
]

module _ {F E : Type 0} (client : Client F E) where
  offline_metadata : (cfg : RuntimeConfig F) → OciMetadata
  unfolding trim_space
  offline_metadata cfg = record {
    compartment_id = trim_space cfg.oci.compartment_id;
    region = trim_space cfg.oci.region;
  }

  resolved_offline :
      (cfg : RuntimeConfig F)
      → cfg.oci.offline ≡ true
      → resolve_compartment_and_region cfg (some client) ≡ ok (offline_metadata cfg)
  unfolding resolve_compartment_and_region offline_metadata
  resolved_offline cfg h = rw (resolve_compartment_and_region, h) refl

  prepared_offline :
      (cfg : RuntimeConfig F) (mode : Text)
      → cfg.oci.offline ≡ true
      → text_eq (trim_space mode) mode_noop ≡ false
      → prepare_run_metadata cfg (some client) mode
        ≡ ok (with_metadata (offline_metadata cfg) cfg, offline_metadata cfg)
  unfolding prepare_run_metadata
  prepared_offline cfg mode h k = rw (prepare_run_metadata, k, resolved_offline cfg h) refl

  instance_offline :
      (cfg : RuntimeConfig F)
      → cfg.oci.offline ≡ true
      → (i : Text) × (resolve_instance_id cfg cfg.oci.offline client ≡ ok i)
  unfolding resolve_instance_id
  instance_offline cfg h = elim (Bool-cases (is_empty (trim_space cfg.oci.instance_id))) [
    | inl b ↦ (offline_instance_fallback, rw (resolve_instance_id, b, h) refl)
    | inr b ↦ (trim_space cfg.oci.instance_id, rw (resolve_instance_id, b) refl)
  ]

  module _ ⦃d : Float F⦄ where
    sized_offline :
        (cfg : RuntimeConfig F) (mode : Text)
        → cfg.oci.offline ≡ true
        → (r : PoolSizingResult F) × (apply_pool_sizing_from_shape cfg mode (some client)
            ≡ ok (cfg, r))
    unfolding apply_pool_sizing_from_shape
    sized_offline cfg mode h = (
      record { applied = false; capped = false; workers = cfg.pool.workers; shape_ocpus = nought },
      ground arith,
    )

    staged_offline :
        (cfg : RuntimeConfig F) (mode : Text)
        → cfg.oci.offline ≡ true
        → text_eq (trim_space mode) mode_noop ≡ false
        → (r : PoolSizingResult F) × (stage_metadata cfg (some client) mode
            ≡ ok (with_metadata (offline_metadata cfg) cfg, offline_metadata cfg, r))
    unfolding stage_metadata stage_sizing with_metadata
    staged_offline cfg mode h k =
        let m = offline_metadata cfg in
        let (r, e) = sized_offline (with_metadata m cfg) mode h in
        (r, rw (stage_metadata, prepared_offline cfg mode h k) (sizing (with_metadata m cfg) m r e))
      where
        sizing :
            (p : RuntimeConfig F) (m : OciMetadata) (r : PoolSizingResult F)
            → apply_pool_sizing_from_shape p mode (some client) ≡ ok (p, r)
            → stage_sizing p (some client) mode m ≡ ok (p, m, r)
        sizing p m r e = rw (stage_sizing, e) refl

    module _ {M : Type 0} (builder : Text → Text → Result Text M) where
      -- The compartment and the region have no part in what is built.
      build-metadata :
          (m n : OciMetadata) (cfg : RuntimeConfig F) (i mode : Text) (r : Option (List (Call F)))
          → build_adaptive_controller (with_metadata m (with_metadata n cfg)) i mode r
            ≡ build_adaptive_controller cfg i mode r
      unfolding build_adaptive_controller labelled configured_pool with_metadata
      build-metadata m n cfg i mode r = refl

      connected_offline :
          (m n : OciMetadata) (cfg : RuntimeConfig F) (i mode : Text) (r : Option (List (Call F)))
          → {c : Controller F} {pool : Pool F} → cfg.oci.offline ≡ true
          → build_adaptive_controller cfg i mode r ≡ ok (c, pool)
          → connect_and_build {E = E} builder mode i m (with_metadata m (with_metadata n cfg)) r
            ≡ ok (adaptive (static cfg.controller.target_start) c pool)
      unfolding connect_and_build create_metrics_client with_metadata
      connected_offline m n cfg i mode r h e =
          rw (connect_and_build, create_metrics_client, h, build-metadata m n cfg i mode r ∙ e) refl

      built_offline :
          (n : OciMetadata) (cfg : RuntimeConfig F) (i mode : Text) (r : Option (List (Call F)))
          → {c : Controller F} {pool : Pool F} → cfg.oci.offline ≡ true
          → resolve_instance_id (with_metadata n cfg) cfg.oci.offline client ≡ ok i
          → build_adaptive_controller cfg i mode r ≡ ok (c, pool)
          → resolve_and_build builder mode (with_metadata n cfg) client r
            ≡ ok (adaptive (static cfg.controller.target_start) c pool)
      unfolding resolve_and_build resolve_and_connect with_metadata
      built_offline n cfg i mode r h found e =
          let p = with_metadata n cfg in
          rw (resolve_and_build, found, resolve_and_connect, resolved_offline p h)
            (connected_offline (offline_metadata p) n cfg i mode r h e)

      factory_offline :
          (p : RuntimeConfig F) (mode : Text) (r : Option (List (Call F))) {built : Built F M}
          → text_eq (trim_space mode) mode_noop ≡ false
          → resolve_and_build builder (run_mode mode) p client r ≡ ok built
          → default_controller_factory builder mode p (some client) r ≡ ok (built, r)
      unfolding default_controller_factory run_mode
      factory_offline p mode r k e =
          rw (default_controller_factory, run_mode-not_noop mode k, e) refl

      launched_offline :
          (cfg : RuntimeConfig F) (mode : Text) (r : Option (List (Call F)))
          (s : PoolSizingResult F)
          → {p : RuntimeConfig F} {m : OciMetadata} {built : Built F M}
          → stage_metadata cfg (some client) mode ≡ ok (p, m, s)
          → default_controller_factory builder mode p (some client) r ≡ ok (built, r)
          → prepare_controller builder cfg (some client) mode r ≡ ok (p, built, r)
      unfolding prepare_controller
      launched_offline cfg mode r s staged made = rw (prepare_controller, staged, made) refl

      -- In offline mode and in a mode other than noop, a configuration that `Load` returned starts,
      -- whatever the metadata service and the monitoring service would do: the program gets an
      -- adaptive controller whose P95 is always the configured first target, with a pool within the
      -- bounds of its fields. The configuration that it starts with differs from the loaded one in the
      -- compartment and the region at most.
      pub load_then_start :
          (laws : IsFloat F) (parsers : Parsers F) (env : Environment) (read : Text → FileRead F)
          → (path mode : Text) (recorder : Option (List (Call F))) {cfg : RuntimeConfig F}
          → load parsers env read path ≡ ok cfg
          → cfg.oci.offline ≡ true
          → text_eq (trim_space mode) mode_noop ≡ false
          → (m : OciMetadata) × (c : Controller F) × (pool : Pool F) × (prepare_controller builder
                cfg
                (some client)
                mode
                recorder
              ≡ ok (
                with_metadata m cfg,
                adaptive (static cfg.controller.target_start) c pool,
                recorder,
              ))
            × IsValid pool
      unfolding with_metadata
      load_then_start laws parsers env read path mode recorder {cfg} loaded h k =
          let m = offline_metadata cfg in
          let p = with_metadata m cfg in
          let (s, staged) = staged_offline cfg mode h k in
          let (i, found) = instance_offline p h in
          let (c, pool, built, valid) =
            load_then_build laws parsers env read path i (run_mode mode) recorder loaded in
          let made =
            factory_offline p mode recorder k
              (built_offline m cfg i (run_mode mode) recorder h found built) in
          (m, c, pool, launched_offline cfg mode recorder s staged made, valid)
