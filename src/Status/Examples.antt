-- ===== src/Status/Examples.antt =====
-- /healthz of a controller that has seen a hot sample, in a control group with a quota.
use oci_cpu_shaper.Base.{
  ◌≡◌, refl, true, false, if◌then◌else◌, none, some, Result, ok, err, List, [], ◌∷◌,
}
use oci_cpu_shaper.Base.Int.{pos}
use oci_cpu_shaper.Base.Text.{Text, codes, is_empty}
use oci_cpu_shaper.Float.Fixed.{Fixed, fixed_float}
use oci_cpu_shaper.Adapt.Samples.{idle_pool, defaults, started, defaults_start}
use oci_cpu_shaper.Adapt.Controller.Loop.{Event, tick, observe, run}
use oci_cpu_shaper.Cgroup.{CgroupError, path_not_found, Cpu}
use oci_cpu_shaper.Metrics.Exporter.{Exporter, new_exporter}
use oci_cpu_shaper.Metrics.Reported.{exported}
use oci_cpu_shaper.Program.Inspection.{record_cgroup_metrics}
use oci_cpu_shaper.Status.{Snapshot, json, adaptive_status, build_cgroup_snapshot, serve_http}
use oci_cpu_shaper.Status.Agreement.{Shows, record_cgroup_metrics-Shows, endpoints_agree}

abbrev describe : CgroupError → Text
describe e = codes "cgroup"

abbrev limited : Cpu
limited = record {
  path = codes "/app";
  weight = record {
    path = codes "cpu.weight";
    value = 0;
    available = false;
    failure = some path_not_found;
  };
  max = record {
    path = codes "cpu.max";
    quota = 50_000;
    period = 100_000;
    unlimited = false;
    available = true;
    failure = none;
  };
}

record_cgroup_metrics-Shows_example :
    (e : Exporter Fixed) × (record_cgroup_metrics {F = Fixed} (some limited) (some new_exporter)
      ≡ some e)
    × Shows e (build_cgroup_snapshot describe (some limited))
record_cgroup_metrics-Shows_example =
    record_cgroup_metrics-Shows describe (some limited) new_exporter

abbrev story : List (Event Fixed)
story =
    observe (record { utilisation = some (pos 910); runnable = some (pos 300); failure = none })
    ∷ (tick (err (codes "timeout")) ∷ [])

abbrev marshal : Snapshot → Result Text Text
marshal s = ok s.state

endpoints_agree_example :
    let c' = run story started in
    let e = exported c'.recorder new_exporter in
    (s : Snapshot) × (payload : Text) × (marshal s ≡ ok payload)
    × (serve_http describe marshal (some (adaptive_status c')) (some limited) ≡ json payload)
    × (s.state ≡ e.shaper_state)
    × (e.shaper_mode ≡ (if is_empty s.mode then codes "unknown" else s.mode))
endpoints_agree_example =
    endpoints_agree describe defaults idle_pool story (some limited) marshal (λ s. (s.state, refl))
      defaults_start
