-- ===== src/Est/Examples.antt =====
-- Runs of the fast estimator on fixed-point numbers and on a line of /proc/stat.
use oci_cpu_shaper.Base.{◌≡◌, ◌+◌, refl, arith, true, ok, err, List, [], ◌∷◌, ◌++◌}
use oci_cpu_shaper.Base.Int.{pos}
use oci_cpu_shaper.Base.Text.{Text, codes, digits_value, is_empty}
use oci_cpu_shaper.Float.Fixed.{Fixed, fixed_float, Fixed-IsFloat}
use oci_cpu_shaper.Est.Sampler.{
  Snapshot, SamplerEvent, tick, build_observation, sample_loop, parse_cpu_line,
}
use oci_cpu_shaper.Est.Ranges.{IsSane, build_observation-IsSane}
use oci_cpu_shaper.Est.Telescope.{sum_total, sum_total-sample_loop}
use oci_cpu_shaper.Base.Text.Words.{spaced}
use oci_cpu_shaper.Est.Parsing.{AreCounters, parse_cpu_line_lem}

abbrev first : Snapshot
first = record { idle = 700; total = 1000; runnable = 1 }

abbrev next : Snapshot
next = record { idle = 760; total = 1100; runnable = 3 }

-- A tick, a snapshot that cannot be read, and a tick after the counters stood still.
abbrev ticks : List SamplerEvent
ticks = tick 1 (ok next) true ∷ tick 2 (err (codes "EOF")) true ∷ tick 3 (ok next) true ∷ []

build_observation-IsSane_example : IsSane (build_observation {F = Fixed} 5 next first (pos 4))
build_observation-IsSane_example = build_observation-IsSane Fixed-IsFloat 5 next first (pos 4)

sum_total-sample_loop_example :
    sum_total (sample_loop {F = Fixed} (pos 4) first ticks) + 1000 ≡ 1100
sum_total-sample_loop_example =
    sum_total-sample_loop Fixed (pos 4) first ticks
      (refl, omega arith, (refl, (refl, omega arith, tt)))

abbrev words : List Text
words = codes "10" ∷ codes "0" ∷ codes "5" ∷ codes "70" ∷ codes "3" ∷ codes "2" ∷ []

words-AreCounters : AreCounters words (10 ∷ 0 ∷ 5 ∷ 70 ∷ 3 ∷ 2 ∷ [])
unfolding digits_value is_empty
words-AreCounters = (
  record { digits = refl; nonempty = refl; small = omega arith },
  (
    record { digits = refl; nonempty = refl; small = omega arith },
    (
      record { digits = refl; nonempty = refl; small = omega arith },
      (
        record { digits = refl; nonempty = refl; small = omega arith },
        (
          record { digits = refl; nonempty = refl; small = omega arith },
          (record { digits = refl; nonempty = refl; small = omega arith }, tt),
        ),
      ),
    ),
  ),
)

parse_cpu_line_lem_example : parse_cpu_line (codes "cpu " ++ spaced words) ≡ ok (73, 90)
parse_cpu_line_lem_example = parse_cpu_line_lem words 10 0 5 70 3 (2 ∷ []) words-AreCounters
