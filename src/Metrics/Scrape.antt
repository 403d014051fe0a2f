-- ===== src/Metrics/Scrape.antt =====
-- What a scrape reads from the text of pkg/http/metrics/exporter.go.
use oci_cpu_shaper.Base.{◌≡◌, refl, ap, ◌∙◌, some, List, [], ◌∷◌, ◌++◌}
use oci_cpu_shaper.Base.Text.{Text, codes}
use oci_cpu_shaper.Float.{Float}
use oci_cpu_shaper.Metrics.Exporter.{Exporter}
use oci_cpu_shaper.Metrics.Rendering.{
  Format, concat, last_success_epoch, snapshot_error, metric_lines, render,
}
use oci_cpu_shaper.Metrics.Lines.{
  lines_from, scrape, OneLine, AllOneLine, OneLine-append, all_ended, lines_from-concat,
  scrape_of_lines,
}

module _ {F : Type 0} ⦃d : Float F⦄ where
  -- The lines of the text.
  abbrev metric_rows : Format F → Exporter F → List Text
  unfolding last_success_epoch snapshot_error
  metric_rows format e =
      codes "# HELP shaper_target_ratio Target duty cycle ratio assigned to worker pool."
      ∷ codes "# TYPE shaper_target_ratio gauge"
      ∷ (codes "shaper_target_ratio " ++ format.fixed6 e.shaper_target)
      ∷ codes "# HELP shaper_mode Controller operating mode (value set to 1 for the active mode)."
      ∷ codes "# TYPE shaper_mode gauge"
      ∷ (codes "shaper_mode{mode=\"" ++ (e.shaper_mode ++ codes "\"} 1"))
      ∷ codes
          "# HELP shaper_enforcing Controller enforcement status (1 when worker targets are applied)."
      ∷ codes "# TYPE shaper_enforcing gauge"
      ∷ (codes "shaper_enforcing " ++ format.fixed0 e.shaper_enforcing)
      ∷ codes
          "# HELP shaper_state Controller state machine output (value set to 1 for the active state)."
      ∷ codes "# TYPE shaper_state gauge"
      ∷ (codes "shaper_state{state=\"" ++ (e.shaper_state ++ codes "\"} 1"))
      ∷ codes
          "# HELP controller_interval_seconds Duration until the next controller step (seconds)."
      ∷ codes "# TYPE controller_interval_seconds gauge"
      ∷ (codes "controller_interval_seconds " ++ format.fixed6 e.interval_seconds)
      ∷ codes
          "# HELP controller_last_error_info Last controller error message (value set to 1 for the active error)."
      ∷ codes "# TYPE controller_last_error_info gauge"
      ∷ (codes "controller_last_error_info{error="
          ++ (format.quote (snapshot_error e) ++ codes "} 1"))
      ∷ codes
          "# HELP controller_relaxed_successes Number of consecutive samples with P95 above threshold (resets when switching to relaxed interval)."
      ∷ codes "# TYPE controller_relaxed_successes gauge"
      ∷ (codes "controller_relaxed_successes " ++ format.fixed0 e.relaxed_successes)
      ∷ codes "# HELP oci_p95 Last observed OCI CPU P95 ratio."
      ∷ codes "# TYPE oci_p95 gauge"
      ∷ (codes "oci_p95 " ++ format.fixed6 e.oci_p95)
      ∷ codes
          "# HELP oci_last_success_epoch Unix epoch seconds of the last successful OCI metrics query."
      ∷ codes "# TYPE oci_last_success_epoch counter"
      ∷ (codes "oci_last_success_epoch " ++ format.fixed0 (last_success_epoch e))
      ∷ codes "# HELP duty_cycle_ms Duty cycle quantum configured for workers (milliseconds)."
      ∷ codes "# TYPE duty_cycle_ms gauge"
      ∷ (codes "duty_cycle_ms " ++ format.fixed3 e.duty_cycle_millis)
      ∷ codes "# HELP worker_count Number of worker goroutines consuming CPU."
      ∷ codes "# TYPE worker_count gauge"
      ∷ (codes "worker_count " ++ format.fixed0 e.worker_count)
      ∷ codes "# HELP host_cpu_percent Last recorded host CPU utilisation percentage."
      ∷ codes "# TYPE host_cpu_percent gauge"
      ∷ (codes "host_cpu_percent " ++ format.fixed2 e.host_cpu_percent)
      ∷ codes "# HELP cgroup_cpu_weight Detected cgroup v2 cpu.weight value for the process."
      ∷ codes "# TYPE cgroup_cpu_weight gauge"
      ∷ (codes "cgroup_cpu_weight " ++ format.fixed0 e.cgroup_weight)
      ∷ codes
          "# HELP cgroup_cpu_max_quota Detected cpu.max quota (microseconds). Zero when unlimited."
      ∷ codes "# TYPE cgroup_cpu_max_quota gauge"
      ∷ (codes "cgroup_cpu_max_quota " ++ format.fixed0 e.cgroup_max_quota)
      ∷ codes "# HELP cgroup_cpu_max_period Detected cpu.max period (microseconds)."
      ∷ codes "# TYPE cgroup_cpu_max_period gauge"
      ∷ (codes "cgroup_cpu_max_period " ++ format.fixed0 e.cgroup_max_period)
      ∷ codes "# HELP cgroup_cpu_max_unlimited Flag set to 1 when cpu.max reports \"max\"."
      ∷ codes "# TYPE cgroup_cpu_max_unlimited gauge"
      ∷ (codes "cgroup_cpu_max_unlimited " ++ format.fixed0 e.cgroup_max_limit)
      ∷ codes "# EOF"
      ∷ []

  concat-metric_lines :
      (format : Format F) (e : Exporter F)
      → concat (metric_lines format e) ≡ concat (all_ended (metric_rows format e))
  unfolding metric_lines
  concat-metric_lines format e = refl

  -- The verbs print no newline, and a quoted text has none.
  pub record IsPlain (format : Format F) : Type 0 where
    pub fixed6_line : (x : F) → OneLine (format.fixed6 x)
    pub fixed3_line : (x : F) → OneLine (format.fixed3 x)
    pub fixed2_line : (x : F) → OneLine (format.fixed2 x)
    pub fixed0_line : (x : F) → OneLine (format.fixed0 x)
    pub quote_line : (s : Text) → OneLine (format.quote s)

  metric_rows-AllOneLine :
      (format : Format F) (e : Exporter F)
      → IsPlain format
      → OneLine e.shaper_mode
      → OneLine e.shaper_state
      → AllOneLine (metric_rows format e)
  unfolding metric_rows last_success_epoch
  metric_rows-AllOneLine format e plain mode_line state_line =
      rw
        (
          plain.fixed6_line e.shaper_target,
          OneLine-append e.shaper_mode (codes "\"} 1") mode_line refl,
          plain.fixed0_line e.shaper_enforcing,
          OneLine-append e.shaper_state (codes "\"} 1") state_line refl,
          plain.fixed6_line e.interval_seconds,
          OneLine-append (format.quote (snapshot_error e)) (codes "} 1")
              (plain.quote_line (snapshot_error e)) refl,
          plain.fixed0_line e.relaxed_successes,
          plain.fixed6_line e.oci_p95,
          plain.fixed0_line (last_success_epoch e),
          plain.fixed3_line e.duty_cycle_millis,
          plain.fixed0_line e.worker_count,
          plain.fixed2_line e.host_cpu_percent,
          plain.fixed0_line e.cgroup_weight,
          plain.fixed0_line e.cgroup_max_quota,
          plain.fixed0_line e.cgroup_max_period,
          plain.fixed0_line e.cgroup_max_limit,
        )
        refl

  -- What a scrape of this text finds.
  pub record Scraped (format : Format F) (e : Exporter F) (text : Text) : Type 0 where
    pub shaper_target_ratio_read :
        scrape (codes "shaper_target_ratio ") text ≡ some (format.fixed6 e.shaper_target)
    pub shaper_enforcing_read :
        scrape (codes "shaper_enforcing ") text ≡ some (format.fixed0 e.shaper_enforcing)
    pub controller_interval_seconds_read :
        scrape (codes "controller_interval_seconds ") text ≡ some (format.fixed6 e.interval_seconds)
    pub controller_relaxed_successes_read :
        scrape (codes "controller_relaxed_successes ") text
        ≡ some (format.fixed0 e.relaxed_successes)
    pub oci_p95_read : scrape (codes "oci_p95 ") text ≡ some (format.fixed6 e.oci_p95)
    pub oci_last_success_epoch_read :
        scrape (codes "oci_last_success_epoch ") text ≡ some (format.fixed0 (last_success_epoch e))
    pub duty_cycle_ms_read :
        scrape (codes "duty_cycle_ms ") text ≡ some (format.fixed3 e.duty_cycle_millis)
    pub worker_count_read :
        scrape (codes "worker_count ") text ≡ some (format.fixed0 e.worker_count)
    pub host_cpu_percent_read :
        scrape (codes "host_cpu_percent ") text ≡ some (format.fixed2 e.host_cpu_percent)
    pub cgroup_cpu_weight_read :
        scrape (codes "cgroup_cpu_weight ") text ≡ some (format.fixed0 e.cgroup_weight)
    pub cgroup_cpu_max_quota_read :
        scrape (codes "cgroup_cpu_max_quota ") text ≡ some (format.fixed0 e.cgroup_max_quota)
    pub cgroup_cpu_max_period_read :
        scrape (codes "cgroup_cpu_max_period ") text ≡ some (format.fixed0 e.cgroup_max_period)
    pub cgroup_cpu_max_unlimited_read :
        scrape (codes "cgroup_cpu_max_unlimited ") text ≡ some (format.fixed0 e.cgroup_max_limit)

  -- Where no verb prints a newline and the labels of mode and state hold none, a scrape of the rendered
  -- text reads back every gauge: for each of the numeric metrics, the value that it finds under the
  -- metric's name is the exporter's field, in that metric's format.
  pub render-Scraped :
      (format : Format F) (e : Exporter F)
      → IsPlain format
      → OneLine e.shaper_mode
      → OneLine e.shaper_state
      → Scraped format e (render format e)
  unfolding render scrape metric_rows
  render-Scraped format e plain mode_line state_line =
      let rows = metric_rows format e in
      let lines : lines_from [] (render format e) ≡ rows =
        ap (lines_from []) (concat-metric_lines format e)
        ∙ lines_from-concat rows (metric_rows-AllOneLine format e plain mode_line state_line) in
      record {
        shaper_target_ratio_read =
            scrape_of_lines (render format e) rows (codes "shaper_target_ratio ") lines refl;
        shaper_enforcing_read =
            scrape_of_lines (render format e) rows (codes "shaper_enforcing ") lines refl;
        controller_interval_seconds_read =
            scrape_of_lines (render format e) rows (codes "controller_interval_seconds ") lines
              refl;
        controller_relaxed_successes_read =
            scrape_of_lines (render format e) rows (codes "controller_relaxed_successes ") lines
              refl;
        oci_p95_read = scrape_of_lines (render format e) rows (codes "oci_p95 ") lines refl;
        oci_last_success_epoch_read =
            scrape_of_lines (render format e) rows (codes "oci_last_success_epoch ") lines refl;
        duty_cycle_ms_read =
            scrape_of_lines (render format e) rows (codes "duty_cycle_ms ") lines refl;
        worker_count_read =
            scrape_of_lines (render format e) rows (codes "worker_count ") lines refl;
        host_cpu_percent_read =
            scrape_of_lines (render format e) rows (codes "host_cpu_percent ") lines refl;
        cgroup_cpu_weight_read =
            scrape_of_lines (render format e) rows (codes "cgroup_cpu_weight ") lines refl;
        cgroup_cpu_max_quota_read =
            scrape_of_lines (render format e) rows (codes "cgroup_cpu_max_quota ") lines refl;
        cgroup_cpu_max_period_read =
            scrape_of_lines (render format e) rows (codes "cgroup_cpu_max_period ") lines refl;
        cgroup_cpu_max_unlimited_read =
            scrape_of_lines (render format e) rows (codes "cgroup_cpu_max_unlimited ") lines refl;
      }
