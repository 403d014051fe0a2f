-- ===== src/Program/Offline.antt =====
-- cmd/shaper in offline mode: neither the metadata service nor the monitoring service matters.
use oci_cpu_shaper.Base.{
  ◌≡◌, ◌∙◌, inl, inr, sym, refl, arith, true, if◌then◌else◌, Option, some, Result, Result-cases, ok,
  err, List,
}
use oci_cpu_shaper.Base.Text.{Text, trim_space, is_empty}
use oci_cpu_shaper.Float.{Float}
use oci_cpu_shaper.Adapt.Controller.{Call}
use oci_cpu_shaper.Imds.Client.{Client}
use oci_cpu_shaper.Runtime.Settings.{RuntimeConfig}
use oci_cpu_shaper.Program.Options.{mode_enforce}
use oci_cpu_shaper.Program.Metadata.{
  OciMetadata, MetadataError, resolve_instance_id, resolve_compartment_and_region, with_metadata,
  prepare_run_metadata,
}
use oci_cpu_shaper.Program.Sizing.{PoolSizingResult, apply_pool_sizing_from_shape}
use oci_cpu_shaper.Program.Startup.{
  resolve_and_connect, stage_sizing, create_metrics_client, connect_and_build, resolve_and_build,
  default_controller_factory, stage_metadata, prepare_controller,
}

module _ {F E : Type 0} (one two : Client F E) where
  resolve-offline :
      (cfg : RuntimeConfig F)
      → cfg.oci.offline ≡ true
      → resolve_compartment_and_region cfg (some one)
        ≡ resolve_compartment_and_region cfg (some two)
  unfolding resolve_compartment_and_region
  resolve-offline cfg h = rw (resolve_compartment_and_region, h) refl

  prepare-offline :
      (cfg : RuntimeConfig F) (mode : Text)
      → cfg.oci.offline ≡ true
      → prepare_run_metadata cfg (some one) mode ≡ prepare_run_metadata cfg (some two) mode
  unfolding prepare_run_metadata
  prepare-offline cfg mode h = rw (prepare_run_metadata, resolve-offline cfg h) refl

  instance-offline :
      (cfg : RuntimeConfig F)
      → cfg.oci.offline ≡ true
      → resolve_instance_id cfg cfg.oci.offline one ≡ resolve_instance_id cfg cfg.oci.offline two
  unfolding resolve_instance_id
  instance-offline cfg h = rw (resolve_instance_id, h) refl

  -- The flag stays as it was configured.
  prepared_offline :
      (cfg : RuntimeConfig F) (mode : Text) {p : RuntimeConfig F} {m : OciMetadata}
      → prepare_run_metadata cfg (some one) mode ≡ ok (p, m)
      → p.oci.offline ≡ cfg.oci.offline
  unfolding prepare_run_metadata with_metadata
  prepared_offline cfg mode h = ground arith

  module _ ⦃d : Float F⦄ where
    sizing-offline :
        (cfg : RuntimeConfig F) (mode : Text)
        → cfg.oci.offline ≡ true
        → apply_pool_sizing_from_shape cfg mode (some one)
          ≡ apply_pool_sizing_from_shape cfg mode (some two)
    unfolding apply_pool_sizing_from_shape
    sizing-offline cfg mode h = ground arith

    sized_offline :
        (cfg : RuntimeConfig F) (mode : Text) {p : RuntimeConfig F} {r : PoolSizingResult F}
        → apply_pool_sizing_from_shape cfg mode (some one) ≡ ok (p, r)
        → p.oci.offline ≡ cfg.oci.offline
    unfolding apply_pool_sizing_from_shape
    sized_offline cfg mode h = ground arith

    module _ {M : Type 0} (first second : Text → Text → Result Text M) where
      create-offline :
          (cfg : RuntimeConfig F) (compartment region : Text)
          → cfg.oci.offline ≡ true
          → create_metrics_client first cfg compartment region
            ≡ create_metrics_client second cfg compartment region
      unfolding create_metrics_client
      create-offline cfg compartment region h = rw (create_metrics_client, h) refl

      connect-offline :
          (mode instance_id : Text) (m : OciMetadata) (cfg : RuntimeConfig F)
          (r : Option (List (Call F)))
          → cfg.oci.offline ≡ true
          → connect_and_build {E = E} first mode instance_id m cfg r
            ≡ connect_and_build second mode instance_id m cfg r
      unfolding connect_and_build
      connect-offline mode instance_id m cfg r h =
          rw (connect_and_build, create-offline cfg m.compartment_id m.region h) refl

      -- The flag is not touched by what is found.
      with_metadata-offline :
          (m : OciMetadata) (cfg : RuntimeConfig F)
          → (with_metadata m cfg).oci.offline ≡ cfg.oci.offline
      unfolding with_metadata
      with_metadata-offline m cfg = refl

      resolve_and_connect-offline :
          (mode : Text) (cfg : RuntimeConfig F) (r : Option (List (Call F))) (instance_id : Text)
          → cfg.oci.offline ≡ true
          → resolve_and_connect first mode cfg one r instance_id
            ≡ resolve_and_connect second mode cfg two r instance_id
      unfolding resolve_and_connect
      resolve_and_connect-offline mode cfg r instance_id h =
          elim (Result-cases (resolve_compartment_and_region cfg (some two))) [
            | inl (e, k) ↦ rw (resolve_and_connect, resolve-offline cfg h, k) refl
            | inr (m, k) ↦
                rw (resolve_and_connect, resolve-offline cfg h, k)
                  (connect-offline mode instance_id m (with_metadata m cfg) r
                    (with_metadata-offline m cfg ∙ h))
          ]

      build-offline :
          (mode : Text) (cfg : RuntimeConfig F) (r : Option (List (Call F)))
          → cfg.oci.offline ≡ true
          → resolve_and_build first mode cfg one r ≡ resolve_and_build second mode cfg two r
      unfolding resolve_and_build
      build-offline mode cfg r h =
          elim (Result-cases (resolve_instance_id cfg cfg.oci.offline two)) [
            | inl (e, k) ↦ rw (resolve_and_build, instance-offline cfg h, k) refl
            | inr (i, k) ↦
                rw (resolve_and_build, instance-offline cfg h, k)
                  (resolve_and_connect-offline mode cfg r i h)
          ]

      factory-offline :
          (mode : Text) (cfg : RuntimeConfig F) (r : Option (List (Call F)))
          → cfg.oci.offline ≡ true
          → default_controller_factory first mode cfg (some one) r
            ≡ default_controller_factory second mode cfg (some two) r
      unfolding default_controller_factory
      factory-offline mode cfg r h =
          rw
            (
              default_controller_factory,
              build-offline (if is_empty (trim_space mode) then mode_enforce else trim_space mode)
                  cfg r h,
            )
            refl

    stage_sizing-offline :
        (cfg : RuntimeConfig F) (mode : Text) (m : OciMetadata)
        → cfg.oci.offline ≡ true
        → stage_sizing cfg (some one) mode m ≡ stage_sizing cfg (some two) mode m
    unfolding stage_sizing
    stage_sizing-offline cfg mode m h = rw (stage_sizing, sizing-offline cfg mode h) refl

    stage-offline :
        (cfg : RuntimeConfig F) (mode : Text)
        → cfg.oci.offline ≡ true
        → stage_metadata cfg (some one) mode ≡ stage_metadata cfg (some two) mode
    unfolding stage_metadata
    stage-offline cfg mode h =
        let same = prepare-offline cfg mode h in
        elim (Result-cases (prepare_run_metadata cfg (some one) mode)) [
          | inl (e, k) ↦ rw (stage_metadata, sym same, k) refl
          | inr ((p, m), k) ↦
              rw (stage_metadata, sym same, k)
                (stage_sizing-offline p mode m (prepared_offline cfg mode k ∙ h))
        ]

    stage_sizing_offline :
        (cfg : RuntimeConfig F) (mode : Text) (n : OciMetadata) {p : RuntimeConfig F}
        {m : OciMetadata}
        → {r : PoolSizingResult F} → stage_sizing cfg (some one) mode n ≡ ok (p, m, r)
        → p.oci.offline ≡ cfg.oci.offline
    unfolding stage_sizing
    stage_sizing_offline cfg mode n h = ground (arith, sized_offline cfg mode)

    staged_offline :
        (cfg : RuntimeConfig F) (mode : Text) {p : RuntimeConfig F} {m : OciMetadata}
        → {r : PoolSizingResult F} → stage_metadata cfg (some one) mode ≡ ok (p, m, r)
        → p.oci.offline ≡ cfg.oci.offline
    unfolding stage_metadata
    staged_offline cfg mode {p} {m} {r} h =
        elim (Result-cases (prepare_run_metadata cfg (some one) mode)) [
          | inl (e, k) ↦ absurd (failed e k)
          | inr ((q, n), k) ↦
              stage_sizing_offline q mode n (sym (sizing q n k) ∙ h) ∙ prepared_offline cfg mode k
        ]
      where
        sizing :
            (q : RuntimeConfig F) (n : OciMetadata)
            → prepare_run_metadata cfg (some one) mode ≡ ok (q, n)
            → stage_metadata cfg (some one) mode ≡ stage_sizing q (some one) mode n
        sizing q n k = rw (stage_metadata, k) refl

        refused :
            (e : MetadataError E)
            → prepare_run_metadata cfg (some one) mode ≡ err e
            → stage_metadata cfg (some one) mode ≡ err 1
        refused e k = rw (stage_metadata, k) refl

        failed : (e : MetadataError E) → prepare_run_metadata cfg (some one) mode ≡ err e → ⊥
        failed e k = let same = sym (refused e k) ∙ h in ground arith

    -- In offline mode the start of the program does not depend on what the metadata service answers nor
    -- on the builder of the monitoring client: the configuration, the controller, its source and pool,
    -- the calls on the recorder and the exit code are the same for any two of each.
    pub prepare_controller-offline :
        {M : Type 0} (first second : Text → Text → Result Text M) (cfg : RuntimeConfig F)
        (mode : Text)
        → (recorder : Option (List (Call F))) → cfg.oci.offline ≡ true
        → prepare_controller first cfg (some one) mode recorder
          ≡ prepare_controller second cfg (some two) mode recorder
    unfolding prepare_controller
    prepare_controller-offline first second cfg mode recorder h =
        let same = stage-offline cfg mode h in
        elim (Result-cases (stage_metadata cfg (some one) mode)) [
          | inl (e, k) ↦ rw (prepare_controller, sym same, k) refl
          | inr ((p, m, r), k) ↦
              rw
                (
                  prepare_controller,
                  sym same,
                  k,
                  factory-offline first second mode p recorder (staged_offline cfg mode k ∙ h),
                )
                refl
        ]
