-- ===== src/Metrics/Examples.antt =====
-- An exporter on fixed-point numbers: a controller that reports to it, and a text with one digit for
-- every number.
use oci_cpu_shaper.Base.{◌≡◌, refl, arith, none, some, ok, err, List, [], ◌∷◌}
use oci_cpu_shaper.Base.Int.{pos, negsuc}
use oci_cpu_shaper.Base.Text.{codes}
use oci_cpu_shaper.Float.{◌≺◌, nought}
use oci_cpu_shaper.Float.Fixed.{Fixed, fixed_float, Fixed-IsFloat}
use oci_cpu_shaper.Adapt.Samples.{started, hot}
use oci_cpu_shaper.Adapt.Config.{default_config}
use oci_cpu_shaper.Adapt.Controller.{set_target, observe_oci_p95, start_controller}
use oci_cpu_shaper.Adapt.Relaxation.{answers}
use oci_cpu_shaper.Adapt.Controller.Loop.{Event, tick, observe, run_tick, run}
use oci_cpu_shaper.Metrics.Exporter.{Exporter, new_exporter}
use oci_cpu_shaper.Metrics.Ranges.{
  Report, call, workers, weight, report_all, IsSane, reports-IsSane,
}
use oci_cpu_shaper.Metrics.Reported.{exported}
use oci_cpu_shaper.Metrics.Stale.{failed_tick_leaves_gauge}
use oci_cpu_shaper.Metrics.Rendering.{Format, render}
use oci_cpu_shaper.Metrics.Scrape.{IsPlain, Scraped, render-Scraped}

abbrev reports : List (Report Fixed)
reports =
    call (set_target (some (pos 1500)))
    ∷ call (observe_oci_p95 none 60)
    ∷ workers (negsuc 3)
    ∷ weight (some (pos 100_000))
    ∷ []

reports-IsSane_example : IsSane {F = Fixed} (report_all reports new_exporter)
reports-IsSane_example = reports-IsSane Fixed-IsFloat reports

abbrev story : List (Event Fixed)
story = observe hot ∷ tick (err (codes "timeout")) ∷ tick (ok (some (pos 150), 60)) ∷ []

-- Two high samples are counted, and the third query fails.
failed_tick_leaves_gauge_example :
    let counted = run (answers ((some (pos 300), 60) ∷ (some (pos 310), 120) ∷ [])) started in
    let failed = run_tick (err (codes "timeout")) counted in
    (nought ≺ fixed_float.of_int (pos 2))
    × (counted.relaxed_successes ≡ pos 2)
    × ((exported counted.recorder new_exporter).relaxed_successes ≡ some (pos 2000))
    × (failed.relaxed_successes ≡ pos 0)
    × ((exported failed.recorder new_exporter).relaxed_successes ≡ some (pos 2000))
unfolding start_controller default_config
failed_tick_leaves_gauge_example =
    failed_tick_leaves_gauge Fixed-IsFloat new_exporter (some (pos 300), 60)
      ((some (pos 310), 120) ∷ []) 0 started (codes "timeout") refl refl refl (omega arith)
      (refl, (refl, tt))

abbrev digits : Format Fixed
digits = record {
  fixed6 = λ x. codes "6";
  fixed3 = λ x. codes "3";
  fixed2 = λ x. codes "2";
  fixed0 = λ x. codes "0";
  quote = λ s. codes "quoted";
}

digits-IsPlain : IsPlain digits
digits-IsPlain = record {
  fixed6_line = λ x. refl;
  fixed3_line = λ x. refl;
  fixed2_line = λ x. refl;
  fixed0_line = λ x. refl;
  quote_line = λ s. refl;
}

abbrev quiet : Exporter Fixed
unfolding new_exporter
quiet = record new_exporter { shaper_mode = codes "enforce"; shaper_state = codes "normal" }

render-Scraped_example : Scraped digits quiet (render digits quiet)
unfolding quiet
render-Scraped_example = render-Scraped digits quiet digits-IsPlain refl refl
