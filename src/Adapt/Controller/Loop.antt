-- ===== src/Adapt/Controller/Loop.antt =====
-- pkg/adapt/controller_loop.go: the slow loop and the goroutine of the estimator, as the sequence of
-- the critical sections that they run, in any interleaving.
use oci_cpu_shaper.Base.{ℕ, if◌then◌else◌, Result, List, [], ◌∷◌}
use oci_cpu_shaper.Base.Int.{pos, leb_ℤ}
use oci_cpu_shaper.Base.Text.{Text}
use oci_cpu_shaper.Float.{Float}
use oci_cpu_shaper.Adapt.Controller.{Controller}
use oci_cpu_shaper.Adapt.Controller.Step.{step}
use oci_cpu_shaper.Adapt.Controller.Observation.{Sample, handle_observation}

-- A tick of the slow loop with the answer of the metrics client, or a sample from the channel.
pub data Event (F : Type 0) : Type 0 where
  tick : Result Text (F × ℕ) → Event F
  observe : Sample F → Event F

module _ {F : Type 0} ⦃d : Float F⦄ where
  -- The body of the loop of `Run`: the interval that `step` returns is stored, and re-arms the ticker.
  unfoldable pub run_tick : Result Text (F × ℕ) → Controller F → Controller F
  run_tick answer c =
      let (c', next) = step answer c in
      record c' { interval = if leb_ℤ next (pos 0) then c'.cfg.interval else next }

  unfoldable pub handle : Event F → Controller F → Controller F
  unfolding run_tick
  handle (tick answer) c = run_tick answer c
  handle (observe sample) c = handle_observation sample c

  unfoldable pub run : List (Event F) → Controller F → Controller F
  run [] c = c
  run (e ∷ es) c = run es (handle e c)
