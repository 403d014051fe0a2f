-- ===== src/Metrics/Rendering.antt =====
-- pkg/http/metrics/exporter.go: the text of a scrape. The verbs of `fmt` and `strconv.Quote` are
-- parameters, and so is the writer, by the number of the line that it is given.
use oci_cpu_shaper.Base.{ℕ, suc, ◌+◌, if◌then◌else◌, Option, none, some, List, [], ◌∷◌, ◌++◌, ◌==◌}
use oci_cpu_shaper.Base.Int.{pos}
use oci_cpu_shaper.Base.Text.{Text, codes, trim_space, is_empty}
use oci_cpu_shaper.Float.{Float, nought}
use oci_cpu_shaper.Metrics.Exporter.{Exporter, default_error_label_none}

-- `%.6f`, `%.3f`, `%.2f`, `%.0f` and `strconv.Quote`.
pub record Format (F : Type 0) : Type 0 where
  pub fixed6 : F → Text
  pub fixed3 : F → Text
  pub fixed2 : F → Text
  pub fixed0 : F → Text
  pub quote : Text → Text

abbrev pub concat : List Text → Text
concat [] = []
concat (line ∷ rest) = line ++ concat rest

-- The line that ends here.
abbrev pub ended : Text → Text
ended line = line ++ (10 ∷ [])

-- `WriteTo` on a writer that is not nil: the bytes written, and the error of the first write that fails.
unfoldable pub write_lines : (ℕ → Text → ℕ × Option Text) → ℕ → ℕ → List Text → ℕ × Option Text
write_lines write i total [] = (total, none)
write_lines write i total (line ∷ rest) =
    let (n, failure) = write i line in
    elim failure [
      | some e ↦ (total + n, some e)
      | none ↦ write_lines write (suc i) (total + n) rest
    ]

module _ {F : Type 0} ⦃d : Float F⦄ where
  -- The two fields that `snapshot` computes.
  unfoldable pub last_success_epoch : Exporter F → F
  last_success_epoch e =
      if e.oci_last_success == 0 then nought else d.of_int (pos e.oci_last_success)

  unfoldable pub snapshot_error : Exporter F → Text
  unfolding trim_space is_empty
  snapshot_error e =
      if is_empty (trim_space e.last_error) then default_error_label_none else e.last_error

  -- The strings that `WriteTo` writes, each in a call of its own.
  unfoldable pub metric_lines : Format F → Exporter F → List Text
  unfolding last_success_epoch snapshot_error
  metric_lines format e =
      ended (codes "# HELP shaper_target_ratio Target duty cycle ratio assigned to worker pool.")
      ∷ ended (codes "# TYPE shaper_target_ratio gauge")
      ∷ ended (codes "shaper_target_ratio " ++ format.fixed6 e.shaper_target)
      ∷ ended (
          codes
            "# HELP shaper_mode Controller operating mode (value set to 1 for the active mode).")
      ∷ ended (codes "# TYPE shaper_mode gauge")
      ∷ ended (codes "shaper_mode{mode=\"" ++ (e.shaper_mode ++ codes "\"} 1"))
      ∷ ended (
          codes
            "# HELP shaper_enforcing Controller enforcement status (1 when worker targets are applied).")
      ∷ ended (codes "# TYPE shaper_enforcing gauge")
      ∷ ended (codes "shaper_enforcing " ++ format.fixed0 e.shaper_enforcing)
      ∷ ended (
          codes
            "# HELP shaper_state Controller state machine output (value set to 1 for the active state).")
      ∷ ended (codes "# TYPE shaper_state gauge")
      ∷ ended (codes "shaper_state{state=\"" ++ (e.shaper_state ++ codes "\"} 1"))
      ∷ ended (
          codes
            "# HELP controller_interval_seconds Duration until the next controller step (seconds).")
      ∷ ended (codes "# TYPE controller_interval_seconds gauge")
      ∷ ended (codes "controller_interval_seconds " ++ format.fixed6 e.interval_seconds)
      ∷ ended (
          codes
            "# HELP controller_last_error_info Last controller error message (value set to 1 for the active error).")
      ∷ ended (codes "# TYPE controller_last_error_info gauge")
      ∷ ended (
          codes "controller_last_error_info{error="
          ++ (format.quote (snapshot_error e) ++ codes "} 1"))
      ∷ codes
          "# HELP controller_relaxed_successes Number of consecutive samples with P95 above threshold "
      ∷ ended (codes "(resets when switching to relaxed interval).")
      ∷ ended (codes "# TYPE controller_relaxed_successes gauge")
      ∷ ended (codes "controller_relaxed_successes " ++ format.fixed0 e.relaxed_successes)
      ∷ ended (codes "# HELP oci_p95 Last observed OCI CPU P95 ratio.")
      ∷ ended (codes "# TYPE oci_p95 gauge")
      ∷ ended (codes "oci_p95 " ++ format.fixed6 e.oci_p95)
      ∷ ended (
          codes
            "# HELP oci_last_success_epoch Unix epoch seconds of the last successful OCI metrics query.")
      ∷ ended (codes "# TYPE oci_last_success_epoch counter")
      ∷ ended (codes "oci_last_success_epoch " ++ format.fixed0 (last_success_epoch e))
      ∷ ended
          (codes "# HELP duty_cycle_ms Duty cycle quantum configured for workers (milliseconds).")
      ∷ ended (codes "# TYPE duty_cycle_ms gauge")
      ∷ ended (codes "duty_cycle_ms " ++ format.fixed3 e.duty_cycle_millis)
      ∷ ended (codes "# HELP worker_count Number of worker goroutines consuming CPU.")
      ∷ ended (codes "# TYPE worker_count gauge")
      ∷ ended (codes "worker_count " ++ format.fixed0 e.worker_count)
      ∷ ended (codes "# HELP host_cpu_percent Last recorded host CPU utilisation percentage.")
      ∷ ended (codes "# TYPE host_cpu_percent gauge")
      ∷ ended (codes "host_cpu_percent " ++ format.fixed2 e.host_cpu_percent)
      ∷ ended
          (codes "# HELP cgroup_cpu_weight Detected cgroup v2 cpu.weight value for the process.")
      ∷ ended (codes "# TYPE cgroup_cpu_weight gauge")
      ∷ ended (codes "cgroup_cpu_weight " ++ format.fixed0 e.cgroup_weight)
      ∷ ended (
          codes
            "# HELP cgroup_cpu_max_quota Detected cpu.max quota (microseconds). Zero when unlimited.")
      ∷ ended (codes "# TYPE cgroup_cpu_max_quota gauge")
      ∷ ended (codes "cgroup_cpu_max_quota " ++ format.fixed0 e.cgroup_max_quota)
      ∷ ended (codes "# HELP cgroup_cpu_max_period Detected cpu.max period (microseconds).")
      ∷ ended (codes "# TYPE cgroup_cpu_max_period gauge")
      ∷ ended (codes "cgroup_cpu_max_period " ++ format.fixed0 e.cgroup_max_period)
      ∷ ended (codes "# HELP cgroup_cpu_max_unlimited Flag set to 1 when cpu.max reports \"max\".")
      ∷ ended (codes "# TYPE cgroup_cpu_max_unlimited gauge")
      ∷ ended (codes "cgroup_cpu_max_unlimited " ++ format.fixed0 e.cgroup_max_limit)
      ∷ ended (codes "# EOF")
      ∷ []

  unfoldable pub write_to : Format F → (ℕ → Text → ℕ × Option Text) → Exporter F → ℕ × Option Text
  unfolding metric_lines write_lines
  write_to format write e = write_lines write 0 0 (metric_lines format e)

  -- `Render`: `bytes.Buffer` takes every line.
  unfoldable pub render : Format F → Exporter F → Text
  unfolding metric_lines
  render format e = concat (metric_lines format e)
