-- ===== src/Status/Agreement.antt =====
-- pkg/http/status/handler.go beside pkg/http/metrics/exporter.go: /healthz and /metrics tell the same.
use oci_cpu_shaper.Base.{
  ℕ, ◌≡◌, sym, refl, arith, Bool, false, if◌then◌else◌, Option, none, some, Result, ok, List, [],
  or_else,
}
use oci_cpu_shaper.Base.Int.{pos}
use oci_cpu_shaper.Base.Text.{Text, codes, is_empty}
use oci_cpu_shaper.Float.{Float, nought, unity}
use oci_cpu_shaper.Shape.Pool.{Pool}
use oci_cpu_shaper.Adapt.Config.{Config}
use oci_cpu_shaper.Adapt.Controller.{Controller, new_adaptive_controller}
use oci_cpu_shaper.Adapt.Controller.Loop.{Event, run}
use oci_cpu_shaper.Cgroup.{CgroupError, Cpu}
use oci_cpu_shaper.Metrics.Exporter.{
  Exporter, gauge, new_exporter, label, export_cgroup_cpu_weight, export_cgroup_cpu_max,
}
use oci_cpu_shaper.Metrics.Mirror.{exporter_mirrors}
use oci_cpu_shaper.Metrics.Reported.{exported}
use oci_cpu_shaper.Program.Inspection.{exported_weight, exported_max, record_cgroup_metrics}
use oci_cpu_shaper.Status.{
  ControllerStatus, CgroupValue, CgroupMaxSnapshot, CgroupSnapshot, Snapshot, json, adaptive_status,
  weight_snapshot, max_snapshot, build_cgroup_snapshot, snapshot_of, serve_http,
}

-- The numbers of a snapshot, with none where it has no pointer.
abbrev weight_value : Option CgroupValue → Option ℕ
weight_value none = none
weight_value (some v) = v.value

abbrev max_quota : Option CgroupMaxSnapshot → Option ℕ
max_quota none = none
max_quota (some m) = m.quota

abbrev max_period : Option CgroupMaxSnapshot → Option ℕ
max_period none = none
max_period (some m) = m.period

abbrev max_unlimited : Option CgroupMaxSnapshot → Bool
max_unlimited none = false
max_unlimited (some m) = or_else m.unlimited false

abbrev shown_weight : Option CgroupSnapshot → Option ℕ
shown_weight none = none
shown_weight (some s) = weight_value s.cpu_weight

abbrev shown_max : Option CgroupSnapshot → Option CgroupMaxSnapshot
shown_max none = none
shown_max (some s) = s.cpu_max

serve_http-ok :
    (describe : CgroupError → Text) (marshal : Snapshot → Result Text Text) (c : ControllerStatus)
    (info : Option Cpu) {payload : Text}
    → marshal (snapshot_of describe c info) ≡ ok payload
    → serve_http describe marshal (some c) info ≡ json payload
unfolding serve_http
serve_http-ok describe marshal c info h = rw (serve_http, h) refl

module _ {F : Type 0} ⦃d : Float F⦄ where
  -- The gauge of a number that may be missing.
  abbrev number : Option ℕ → F
  number none = gauge nought
  number (some n) = gauge (d.of_int (pos n))

  -- The four gauges of the control group show the numbers of a snapshot.
  pub record Shows (e : Exporter F) (s : Option CgroupSnapshot) : Type 0 where
    pub weight_shown : e.cgroup_weight ≡ number (shown_weight s)
    pub quota_shown : e.cgroup_max_quota ≡ number (max_quota (shown_max s))
    pub period_shown : e.cgroup_max_period ≡ number (max_period (shown_max s))
    pub limit_shown : e.cgroup_max_limit ≡ (if max_unlimited (shown_max s) then unity else nought)

  gauge-nought : ◌≡◌ {A = F} (gauge nought) nought
  unfolding gauge
  gauge-nought = ground arith

  module _ (describe : CgroupError → Text) where
    weight_agrees :
        (cpu : Cpu)
        → gauge (exported_weight (some cpu))
          ≡ number (weight_value (weight_snapshot describe cpu.weight))
    unfolding exported_weight weight_snapshot
    weight_agrees cpu = ground arith

    quota_agrees :
        (cpu : Cpu)
        → let (quota, period, unlimited) = exported_max {F = F} (some cpu) in
          (if unlimited then nought else gauge quota)
          ≡ number (max_quota (max_snapshot describe cpu.max))
    unfolding exported_max max_snapshot
    quota_agrees cpu = ground (arith, gauge-nought)

    period_agrees :
        (cpu : Cpu)
        → gauge (exported_max {F = F} (some cpu)).1
          ≡ number (max_period (max_snapshot describe cpu.max))
    unfolding exported_max max_snapshot
    period_agrees cpu = ground arith

    limit_agrees :
        (cpu : Cpu)
        → ◌≡◌ {A = F}
            (if (exported_max {F = F} (some cpu)).2 then unity else nought)
            (if max_unlimited (max_snapshot describe cpu.max) then unity else nought)
    unfolding exported_max max_snapshot
    limit_agrees cpu = ground arith

    -- What the program exports of the control group and what /healthz shows of it are the same
    -- numbers, whatever has been detected: each gauge is that of the snapshot's number, or of 0 where
    -- the snapshot has none, and the flag is the snapshot's.
    pub record_cgroup_metrics-Shows :
        (info : Option Cpu) (e : Exporter F)
        → (e' : Exporter F) × (record_cgroup_metrics info (some e) ≡ some e')
          × Shows e' (build_cgroup_snapshot describe info)
    unfolding record_cgroup_metrics export_cgroup_cpu_weight export_cgroup_cpu_max exported_weight
        exported_max build_cgroup_snapshot
    record_cgroup_metrics-Shows none e = (
      _,
      refl,
      record { weight_shown = refl; quota_shown = refl; period_shown = refl; limit_shown = refl },
    )
    record_cgroup_metrics-Shows (some cpu) e = (
      _,
      refl,
      record {
        weight_shown = weight_agrees cpu;
        quota_shown = quota_agrees cpu;
        period_shown = period_agrees cpu;
        limit_shown = limit_agrees cpu;
      },
    )

    -- After any sequence of ticks and samples, /healthz answers with the state that the controller's
    -- exporter shows, and with the mode that it shows, which is `unknown` for an empty one.
    pub endpoints_agree :
        (raw : Config F) (pool : Pool F) {c : Controller F} (es : List (Event F))
        (info : Option Cpu)
        → (marshal : Snapshot → Result Text Text)
        → ((s : Snapshot) → (payload : Text) × (marshal s ≡ ok payload))
        → new_adaptive_controller raw pool (some []) ≡ ok c
        → let c' = run es c in
          let e = exported c'.recorder new_exporter in
          (s : Snapshot) × (payload : Text) × (marshal s ≡ ok payload)
          × (serve_http describe marshal (some (adaptive_status c')) info ≡ json payload)
          × (s.state ≡ e.shaper_state)
          × (e.shaper_mode ≡ (if is_empty s.mode then codes "unknown" else s.mode))
    unfolding snapshot_of adaptive_status label
    endpoints_agree raw pool {c} es info marshal total h =
        let c' = run es c in
        let s = snapshot_of describe (adaptive_status c') info in
        let (payload, marshalled) = total s in
        let reads = exporter_mirrors raw pool es h in
        (
          s,
          payload,
          marshalled,
          serve_http-ok describe marshal (adaptive_status c') info marshalled,
          sym reads.0,
          reads.4,
        )
