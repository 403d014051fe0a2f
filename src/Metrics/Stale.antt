-- ===== src/Metrics/Stale.antt =====
-- pkg/adapt/controller_step.go with pkg/http/metrics/exporter.go: a gauge that is not written.
use oci_cpu_shaper.Base.{
  ℕ, ◌+◌, ◌<◌, ◌≡◌, refl, ◌∙◌, arith, Bool, true, false, Option, none, some, ok, err, List, [], ◌∷◌,
  length,
}
use oci_cpu_shaper.Base.Int.{pos, max_int}
use oci_cpu_shaper.Base.Text.{Text}
use oci_cpu_shaper.Float.{nought-le-of_int, Float, IsFloat, ◌≼◌, ◌≺◌, nought}
use oci_cpu_shaper.Adapt.Config.{Config}
use oci_cpu_shaper.Adapt.Controller.{Controller, apply_target, update_effective_state}
use oci_cpu_shaper.Adapt.Controller.Step.{
  assign_target, handle_step_error, settle_success, next_interval, handle_step_success, step,
}
use oci_cpu_shaper.Adapt.Controller.Loop.{run_tick, handle, run}
use oci_cpu_shaper.Adapt.Relaxation.{AllHigh, answers}
use oci_cpu_shaper.Metrics.Exporter.{
  Exporter, gauge, export_state, export_target, export_interval, export_last_error, export_oci_p95,
  export_relaxed_successes, record_call,
}
use oci_cpu_shaper.Metrics.Reported.{exported}

-- A recorder is attached.
abbrev pub attached : {A : Type 0} → Option A → Bool
attached none = false
attached (some _) = true

module _ {F : Type 0} ⦃d : Float F⦄ where
  -- What handling a failed query reports leaves the gauge of the relaxed successes.
  failed_recorder :
      (start : Exporter F) (c : Controller F) (e : Text)
      → (exported (run_tick (err e) c).recorder start).relaxed_successes
        ≡ (exported c.recorder start).relaxed_successes
  unfolding run_tick step handle_step_error assign_target apply_target update_effective_state
      record_call export_last_error export_interval export_target export_state
  failed_recorder start c e = ground arith

  failed_count : (c : Controller F) (e : Text) → (run_tick (err e) c).relaxed_successes ≡ pos 0
  unfolding run_tick step handle_step_error assign_target apply_target update_effective_state
  failed_count c e = ground arith

  -- What a controller that counts high samples looks like to the exporter after the n-th.
  abbrev Counts : Exporter F → ℕ → Controller F → Type 0
  Counts start n c =
      (c.is_suppressed ≡ false)
      × (attached c.recorder ≡ true)
      × (c.relaxed_successes ≡ pos n)
      × ((exported c.recorder start).relaxed_successes ≡ gauge (d.of_int (pos n)))

  counting_tick :
      (start : Exporter F) (cfg : Config F) (p95 : F) (at n : ℕ) (c : Controller F)
      → c.cfg ≡ cfg
      → c.is_suppressed ≡ false
      → attached c.recorder ≡ true
      → c.relaxed_successes ≡ pos n
      → n < max_int
      → cfg.relaxed_threshold ≼ p95
      → let c' = run_tick (ok (p95, at)) c in (c'.cfg ≡ cfg) × Counts start (n + 1) c'
  unfolding run_tick step handle_step_success next_interval settle_success assign_target
      apply_target update_effective_state record_call export_last_error export_interval
      export_target export_state export_oci_p95 export_relaxed_successes
  counting_tick start cfg p95 at n c same active r count small high = ground arith

  counting_ticks :
      (start : Exporter F) (cfg : Config F) (first : F × ℕ) (rest : List (F × ℕ)) (n : ℕ)
      (c : Controller F)
      → c.cfg ≡ cfg
      → c.is_suppressed ≡ false
      → attached c.recorder ≡ true
      → c.relaxed_successes ≡ pos n
      → n + length rest < max_int
      → AllHigh cfg (first ∷ rest)
      → Counts start (n + length (first ∷ rest)) (run (answers (first ∷ rest)) c)
  unfolding run handle
  counting_ticks start cfg (p95, at) [] n c same active r count small high =
      (counting_tick start cfg p95 at n c same active r count (omega arith) high.0).1
  counting_ticks start cfg (p95, at) (second ∷ rest) n c same active r count small high =
      let (same', (active', r', count', _)) =
        counting_tick start cfg p95 at n c same active r count (omega arith) high.0 in
      let total : n + 1 + length (second ∷ rest) ≡ n + length ((p95, at) ∷ second ∷ rest) =
        omega arith in
      rw total at (
        counting_ticks start cfg second rest (n + 1) (run_tick (ok (p95, at)) c) same' active' r'
          count' (omega arith) high.1)

  module _ (laws : IsFloat F) where
    open laws use {refl_of_le, lt-eq-not-le, of_int_not_inf, of_int_positive, eq-eq-le}

    gauge-of_int : (n : ℕ) → gauge (d.of_int (pos n)) ≡ d.of_int (pos n)
    unfolding gauge
    gauge-of_int n =
        let low = nought-le-of_int laws (pos n) (omega arith) in
        let (zero, number) = refl_of_le nought (d.of_int (pos n)) low in
        ground (
          arith,
          low,
          lt-eq-not-le (d.of_int (pos n)) nought number zero,
          eq-eq-le (d.of_int (pos n)) (d.of_int (pos n)),
          of_int_not_inf (pos n),
        )

    -- An active controller with a recorder gets at least one P95 that has reached the relaxed
    -- threshold, and no other tick or sample: the count of relaxed successes goes up by their number,
    -- and its gauge shows the count. If the next query fails, the count is 0, and the gauge goes on
    -- showing the old count, a number greater than 0; the counter not wrapping.
    pub failed_tick_leaves_gauge :
        (start : Exporter F) (first : F × ℕ) (rest : List (F × ℕ)) (n : ℕ) (c : Controller F)
        (e : Text)
        → c.is_suppressed ≡ false
        → attached c.recorder ≡ true
        → c.relaxed_successes ≡ pos n
        → n + length rest < max_int
        → AllHigh c.cfg (first ∷ rest)
        → let total = n + length (first ∷ rest) in
          let counted = run (answers (first ∷ rest)) c in
          let failed = run_tick (err e) counted in
          (nought ≺ d.of_int (pos total))
          × (counted.relaxed_successes ≡ pos total)
          × ((exported counted.recorder start).relaxed_successes ≡ d.of_int (pos total))
          × (failed.relaxed_successes ≡ pos 0)
          × ((exported failed.recorder start).relaxed_successes ≡ d.of_int (pos total))
    failed_tick_leaves_gauge start first rest n c e active r count small high =
        let counted = run (answers (first ∷ rest)) c in
        let (_, _, total, shown) =
          counting_ticks start c.cfg first rest n c refl active r count small high in
        let exact = shown ∙ gauge-of_int (n + length (first ∷ rest)) in
        (
          of_int_positive (pos (n + length (first ∷ rest))) (omega arith),
          total,
          exact,
          failed_count counted e,
          failed_recorder start counted e ∙ exact,
        )
