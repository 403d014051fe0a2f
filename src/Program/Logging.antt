-- ===== src/Program/Logging.antt =====
-- cmd/shaper/logging_metadata.go: what the program logs when it starts. `describe` is the message of an
-- error.
use oci_cpu_shaper.Base.{
  Bool, true, not, ◌&&◌, ◌||◌, if◌then◌else◌, Option, none, some, Result, ok, err, List, [], ◌∷◌,
  ◌++◌,
}
use oci_cpu_shaper.Base.Int.{pos, ltb_ℤ}
use oci_cpu_shaper.Base.Text.{Text, codes, text_eq, trim_space, is_empty}
use oci_cpu_shaper.Adapt.Config.{mode_enforces_targets}
use oci_cpu_shaper.Adapt.Controller.{state_string}
use oci_cpu_shaper.Imds.Client.{Client, ShapeConfig}
use oci_cpu_shaper.Runtime.Settings.{RuntimeConfig}
use oci_cpu_shaper.Status.{ControllerStatus}
use oci_cpu_shaper.Program.Options.{Options, mode_noop}
use oci_cpu_shaper.Program.Metadata.{OciMetadata}
use oci_cpu_shaper.Program.Log.{Field, Entry, debug, info, warn, string, int, bool, float, duration}

-- `internal/buildinfo.Info`.
pub record BuildInfo : Type 0 where
  pub version : Text
  pub git_commit : Text
  pub build_date : Text

module _ {F : Type 0} where
  -- A field for a text that is not blank.
  unfoldable pub text_field : Text → Text → List (Field F)
  unfolding trim_space is_empty
  text_field key value =
      let trimmed = trim_space value in if is_empty trimmed then [] else string key trimmed ∷ []

  unfoldable pub log_startup : BuildInfo → Options → Entry F
  log_startup build options = record {
    level = info;
    message = codes "starting oci-cpu-shaper";
    fields =
        string (codes "version") build.version
        ∷ string (codes "commit") build.git_commit
        ∷ string (codes "buildDate") build.build_date
        ∷ string (codes "configPath") options.config_path
        ∷ string (codes "mode") options.mode
        ∷ (if ltb_ℤ (pos 0) options.shutdown_after
            then duration (codes "shutdownAfter") options.shutdown_after ∷ []
            else []);
  }

  unfoldable pub log_runtime_config : RuntimeConfig F → Entry F
  unfolding text_field trim_space is_empty
  log_runtime_config cfg = record {
    level = info;
    message = codes "loaded runtime configuration";
    fields =
        int (codes "workerCount") cfg.pool.workers
        ∷ bool (codes "workerAutoSizeFromShape") cfg.pool.auto_size_from_shape
        ∷ duration (codes "workerQuantum") cfg.pool.quantum
        ∷ duration (codes "estimatorInterval") cfg.estimator.interval
        ∷ duration (codes "controllerInterval") cfg.controller.interval
        ∷ duration (codes "controllerRelaxedInterval") cfg.controller.relaxed_interval
        ∷ int (codes "controllerRelaxedConfirmations") cfg.controller.relaxed_confirmations
        ∷ float (codes "controllerTargetMin") cfg.controller.target_min
        ∷ float (codes "controllerTargetMax") cfg.controller.target_max
        ∷ float (codes "controllerGoalLow") cfg.controller.goal_low
        ∷ float (codes "controllerGoalHigh") cfg.controller.goal_high
        ∷ float (codes "suppressThreshold") cfg.controller.suppress_threshold
        ∷ float (codes "suppressResume") cfg.controller.suppress_resume
        ∷ float (codes "suppressRunnableThreshold") cfg.controller.suppress_runnable_threshold
        ∷ float (codes "suppressRunnableResume") cfg.controller.suppress_runnable_resume
        ∷ float (codes "poolRunnableGuard") cfg.pool.runnable_guard
        ∷ bool (codes "offline") cfg.oci.offline
        ∷ bool (codes "httpEnabled") (not (is_empty (trim_space cfg.http.bind)))
        ∷ text_field (codes "httpBind") cfg.http.bind;
  }

  unfoldable pub log_metadata_resolution : Text → OciMetadata → Bool → Entry F
  unfolding text_field text_eq trim_space is_empty
  log_metadata_resolution mode metadata offline =
      let fields =
        bool (codes "offline") offline
        ∷ (text_field (codes "compartmentID") metadata.compartment_id
            ++ text_field (codes "region") metadata.region) in
      if text_eq (trim_space mode) mode_noop
      then record {
        level = debug;
        message = codes "metadata resolution skipped";
        fields = string (codes "mode") (trim_space mode) ∷ [];
      }
      else if offline
      then record {
        level = info;
        message = codes "using offline metadata configuration";
        fields = fields;
      }
      else if is_empty metadata.compartment_id || is_empty metadata.region
      then record { level = warn; message = codes "runtime metadata incomplete"; fields = fields }
      else record { level = info; message = codes "resolved runtime metadata"; fields = fields }

  -- The exporter is there or not.
  unfoldable pub log_controller_initialization : RuntimeConfig F → ControllerStatus → Bool → Entry F
  unfolding text_field mode_enforces_targets
  log_controller_initialization cfg c exports = record {
    level = info;
    message = codes "controller initialized";
    fields =
        string (codes "mode") c.mode
        ∷ bool (codes "enforcingTargets") (mode_enforces_targets c.mode)
        ∷ string (codes "controllerState") (state_string c.state)
        ∷ bool (codes "offline") cfg.oci.offline
        ∷ int (codes "workerCount") cfg.pool.workers
        ∷ bool (codes "workerAutoSizeFromShape") cfg.pool.auto_size_from_shape
        ∷ duration (codes "workerQuantum") cfg.pool.quantum
        ∷ duration (codes "estimatorInterval") cfg.estimator.interval
        ∷ bool (codes "metricsEnabled") exports
        ∷ (text_field (codes "compartmentID") cfg.oci.compartment_id
            ++ text_field (codes "region") cfg.oci.region);
  }

-- The canonical region, or the configured one where it is not found.
unfoldable pub canonical_or_override : {E : Type 0} → Text → Text → Option E → Text × Option E
unfolding trim_space is_empty
canonical_or_override override canonical failure =
    let missing : Bool = elim failure [ some e ↦ true | none ↦ is_empty (trim_space canonical) ] in
    if missing && not (is_empty (trim_space override))
    then (trim_space override, none)
    else (canonical, failure)

module _ {F E : Type 0} (describe : E → Text) where
  -- What a lookup comes to: the text, the error, and what is logged.
  unfoldable pub query_text_metadata : Text × Option E → Text → Text × Option E × List (Entry F)
  query_text_metadata (value, none) message = (value, none, [])
  query_text_metadata (value, some e) message = (
    [],
    some e,
    record { level = warn; message = message; fields = string (codes "error") (describe e) ∷ [] }
        ∷ [],
  )

  unfoldable pub resolve_metadata_value :
      Text → Text × Option E → Text → Text × Option E × List (Entry F)
  unfolding trim_space is_empty query_text_metadata
  resolve_metadata_value override fetched message =
      let trimmed = trim_space override in
      if is_empty trimmed then query_text_metadata fetched message else (trimmed, none, [])

  unfoldable pub append_string_field : Text → Text → Option E → List (Field F)
  unfolding trim_space is_empty
  append_string_field key value (some e) = []
  append_string_field key value none =
      if is_empty (trim_space value) then [] else string key value ∷ []

  unfoldable pub append_shape_fields : Result E (ShapeConfig F) → List (Field F)
  append_shape_fields (err e) = []
  append_shape_fields (ok shape) =
      float (codes "shapeOCPUs") shape.ocpus
      ∷ (float (codes "shapeMemoryGB") shape.memory_in_gbs ∷ [])

  unfoldable pub query_shape_metadata : Result E (ShapeConfig F) → Text → List (Entry F)
  query_shape_metadata (ok shape) message = []
  query_shape_metadata (err e) message =
      record { level = warn; message = message; fields = string (codes "error") (describe e) ∷ [] }
      ∷ []

  unfoldable pub append_online_metadata :
      Client F E → Text → Text → Text → List (Field F) × List (Entry F)
  unfolding resolve_metadata_value append_string_field append_shape_fields query_shape_metadata
      canonical_or_override
  append_online_metadata client override_instance_id override_compartment_id override_region =
      let (region, region_error, region_log) =
        resolve_metadata_value override_region client.region
          (codes "failed to query instance region") in
      let (fetched, fetched_error, canonical_log) =
        resolve_metadata_value [] client.canonical_region
          (codes "failed to query canonical region") in
      let (canonical, canonical_error) =
        canonical_or_override override_region fetched fetched_error in
      let (instance_id, instance_error, instance_log) =
        resolve_metadata_value override_instance_id client.instance_id
          (codes "failed to query instance OCID") in
      let (compartment_id, compartment_error, compartment_log) =
        resolve_metadata_value override_compartment_id client.compartment_id
          (codes "failed to query compartment OCID") in
      let shape_log =
        query_shape_metadata client.shape_config (codes "failed to query instance shape config") in
      (
        append_string_field (codes "region") region region_error
            ++ (append_string_field (codes "canonicalRegion") canonical canonical_error
                ++ (append_string_field (codes "instanceID") instance_id instance_error
                    ++ (append_string_field (codes "compartmentID") compartment_id compartment_error
                        ++ append_shape_fields client.shape_config))),
        region_log ++ (canonical_log ++ (instance_log ++ (compartment_log ++ shape_log))),
      )

  -- The warnings and, after them, the entry.
  unfoldable pub log_imds_metadata :
      Client F E → ControllerStatus → Text → Text → Text → Bool → List (Entry F)
  unfolding append_online_metadata text_field trim_space
  log_imds_metadata client c override_instance_id override_compartment_id override_region offline =
      let start =
        string (codes "controllerMode") c.mode
        ∷ string (codes "controllerState") (state_string c.state)
        ∷ bool (codes "offline") offline
        ∷ [] in
      let (found, warnings) =
        if offline
        then (text_field (codes "instanceID") override_instance_id, [])
        else append_online_metadata client (trim_space override_instance_id)
            (trim_space override_compartment_id) (trim_space override_region) in
      warnings
      ++ (record { level = info; message = codes "initialized subsystems"; fields = start ++ found }
          ∷ [])
