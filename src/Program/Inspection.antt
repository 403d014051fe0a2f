-- ===== src/Program/Inspection.antt =====
-- cmd/shaper/cgroup_inspection.go and metrics_handlers.go: what the program puts into the exporter before
-- the controller runs, and what it logs of the control group.
use oci_cpu_shaper.Base.{
  ℕ, Bool, false, ◌&&◌, if◌then◌else◌, Option, none, some, Result, ok, err, List, [], ◌∷◌, ◌++◌,
  ltb,
}
use oci_cpu_shaper.Base.Int.{pos}
use oci_cpu_shaper.Base.Text.{Text, codes, trim_space}
use oci_cpu_shaper.Float.{Float, nought}
use oci_cpu_shaper.Shape.Pool.{Pool}
use oci_cpu_shaper.Cgroup.{CgroupError, Weight, Max, Cpu}
use oci_cpu_shaper.Metrics.Exporter.{
  Exporter, export_cgroup_cpu_weight, export_cgroup_cpu_max, export_worker_count, export_duty_cycle,
}
use oci_cpu_shaper.Program.Log.{Field, Entry, info, warn, string, uint, bool}

abbrev pub cgroup_low_weight_baseline : ℕ
cgroup_low_weight_baseline = 128

module _ {F : Type 0} ⦃d : Float F⦄ where
  open d use {of_int}

  -- The weight that is exported.
  unfoldable pub exported_weight : Option Cpu → F
  exported_weight none = nought
  exported_weight (some cpu) = elim cpu.weight.failure [
    | some e ↦ nought
    | none ↦ if cpu.weight.available then of_int (pos cpu.weight.value) else nought
  ]

  -- The quota, the period and the flag that are exported.
  unfoldable pub exported_max : Option Cpu → F × F × Bool
  exported_max none = (nought, nought, false)
  exported_max (some cpu) =
      let m = cpu.max in
      elim m.failure [
        | some e ↦ (nought, nought, false)
        | none ↦
            if m.available
            then (
              if m.unlimited then nought else of_int (pos m.quota),
              of_int (pos m.period),
              m.unlimited,
            )
            else (nought, nought, false)
      ]

  unfoldable pub record_cgroup_metrics : Option Cpu → Option (Exporter F) → Option (Exporter F)
  unfolding exported_weight exported_max export_cgroup_cpu_weight export_cgroup_cpu_max
  record_cgroup_metrics cpu none = none
  record_cgroup_metrics cpu (some e) =
      let (quota, period, unlimited) = exported_max cpu in
      some (
        export_cgroup_cpu_max quota period unlimited
          (export_cgroup_cpu_weight (exported_weight cpu) e))

  -- `configureMetrics`, the part that writes gauges.
  unfoldable pub configure_metrics : Option (Pool F) → Exporter F → Exporter F
  unfolding export_worker_count export_duty_cycle
  configure_metrics none e = e
  configure_metrics (some pool) e =
      export_duty_cycle pool.quantum (export_worker_count pool.workers e)

-- What is logged. The messages of errors are a parameter.
module _ {F : Type 0} (describe : CgroupError → Text) where
  unfoldable pub cgroup_weight_fields : Weight → List (Field F)
  cgroup_weight_fields w = elim w.failure [
    | some e ↦ string (codes "cpuWeightError") (describe e) ∷ []
    | none ↦
        if w.available
        then uint (codes "cpuWeight") w.value ∷ []
        else string (codes "cpuWeightStatus") (codes "unavailable") ∷ []
  ]

  -- What `cgroupWeightFields` logs itself.
  unfoldable pub weight_warnings : Weight → List (Entry F)
  weight_warnings w = elim w.failure [
    | some e ↦ []
    | none ↦
        if w.available && ltb cgroup_low_weight_baseline w.value
        then record {
          level = warn;
          message = codes "cpu.weight exceeds recommended low-weight baseline";
          fields =
              uint (codes "weight") w.value
              ∷ (uint (codes "baseline") cgroup_low_weight_baseline ∷ []);
        }
          ∷ []
        else []
  ]

  unfoldable pub cgroup_max_fields : Max → List (Field F)
  cgroup_max_fields m = elim m.failure [
    | some e ↦ string (codes "cpuMaxError") (describe e) ∷ []
    | none ↦
        if m.available
        then bool (codes "cpuMaxUnlimited") m.unlimited
          ∷ (uint (codes "cpuMaxPeriod") m.period
              ∷ (if m.unlimited then [] else uint (codes "cpuMaxQuota") m.quota ∷ []))
        else string (codes "cpuMaxStatus") (codes "unavailable") ∷ []
  ]

  unfoldable pub log_cgroup_info : Cpu → List (Entry F)
  unfolding trim_space weight_warnings cgroup_weight_fields cgroup_max_fields
  log_cgroup_info cpu =
      weight_warnings cpu.weight
      ++ (record {
        level = info;
        message = codes "detected cgroup cpu settings";
        fields =
            string (codes "path") (trim_space cpu.path)
            ∷ (cgroup_weight_fields cpu.weight ++ cgroup_max_fields cpu.max);
      }
          ∷ [])

  -- `detectAndReportCgroup` with a logger: the information, the exporter and the log.
  module _ ⦃d : Float F⦄ where
    unfoldable pub detect_and_report_cgroup :
        Result CgroupError Cpu
        → Option (Exporter F)
        → Option Cpu × Option (Exporter F) × List (Entry F)
    unfolding record_cgroup_metrics log_cgroup_info
    detect_and_report_cgroup (err e) exporter = (
      none,
      record_cgroup_metrics none exporter,
      record {
        level = warn;
        message = codes "failed to inspect cgroup cpu settings";
        fields = string (codes "error") (describe e) ∷ [];
      }
          ∷ [],
    )
    detect_and_report_cgroup (ok cpu) exporter =
        (some cpu, record_cgroup_metrics (some cpu) exporter, log_cgroup_info cpu)
