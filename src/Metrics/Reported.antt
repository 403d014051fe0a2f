-- ===== src/Metrics/Reported.antt =====
-- pkg/http/metrics/exporter.go as the recorder of a controller: what the gauges read after each call.
use oci_cpu_shaper.Base.{ℕ, ◌≡◌, refl, arith, Option, none, some, List, [], ◌∷◌}
use oci_cpu_shaper.Base.Int.{ℤ}
use oci_cpu_shaper.Base.Text.{Text}
use oci_cpu_shaper.Float.{Float}
use oci_cpu_shaper.Adapt.Controller.{
  Call, State, normal, fallback, suppressed, state_string, push, set_state, set_target,
  observe_oci_p95, observe_host_cpu, set_interval, set_last_error, set_relaxed_successes,
}
use oci_cpu_shaper.Metrics.Exporter.{
  Exporter, label, error_label, target_gauge, ratio_gauge, export_state, export_target,
  export_oci_p95, export_interval, export_last_error, export_host_cpu, export_relaxed_successes,
  record_call,
}

label-state_string : (s : State) → label (state_string s) ≡ state_string s
unfolding label
label-state_string normal = refl
label-state_string fallback = refl
label-state_string suppressed = refl

module _ {F : Type 0} ⦃d : Float F⦄ where
  -- The exporter after these calls, the latest first.
  abbrev pub replay : List (Call F) → Exporter F → Exporter F
  replay [] e = e
  replay (c ∷ earlier) e = record_call c (replay earlier e)

  -- The gauges of the state, the target, the error, the P95 and the mode.
  abbrev pub Reads : Exporter F → State → F → Option Text → F → Text → Type 0
  Reads e state target failure p95 mode =
      (e.shaper_state ≡ state_string state)
      × (e.shaper_target ≡ target_gauge target)
      × (e.last_error ≡ error_label failure)
      × (e.oci_p95 ≡ ratio_gauge p95)
      × (e.shaper_mode ≡ label mode)

  -- The exporter that a controller's recorder is, if it has one.
  abbrev pub exported : Option (List (Call F)) → Exporter F → Exporter F
  exported none e = e
  exported (some calls) e = replay calls e

  module _ (start : Exporter F) where
    -- There is a recorder, and what it was told agrees with these.
    abbrev pub Agrees : Option (List (Call F)) → State → F → Option Text → F → Text → Type 0
    Agrees none state target failure p95 mode = ⊥
    Agrees (some calls) state target failure p95 mode =
        Reads (replay calls start) state target failure p95 mode

    module _ (m : Text) where
      pub state_reported :
          (r : Option (List (Call F))) (old new : State) (t : F) (e : Option Text) (p : F)
          → Agrees r old t e p m
          → Agrees (push (set_state (state_string new)) r) new t e p m
      unfolding record_call export_state
      state_reported none old new t e p h = h
      state_reported (some calls) old new t e p h = (label-state_string new, h.1, h.2, h.3, h.4)

      pub target_reported :
          (r : Option (List (Call F))) (s : State) (old new : F) (e : Option Text) (p : F)
          → Agrees r s old e p m
          → Agrees (push (set_target new) r) s new e p m
      unfolding record_call export_target
      target_reported none s old new e p h = h
      target_reported (some calls) s old new e p h = ground arith

      pub error_reported :
          (r : Option (List (Call F))) (s : State) (t : F) (old new : Option Text) (p : F)
          → Agrees r s t old p m
          → Agrees (push (set_last_error new) r) s t new p m
      unfolding record_call export_last_error
      error_reported none s t old new p h = h
      error_reported (some calls) s t old new p h = ground arith

      pub p95_reported :
          (r : Option (List (Call F))) (s : State) (t : F) (e : Option Text) (old new : F)
          (time : ℕ)
          → Agrees r s t e old m
          → Agrees (push (observe_oci_p95 new time) r) s t e new m
      unfolding record_call export_oci_p95
      p95_reported none s t e old new time h = h
      p95_reported (some calls) s t e old new time h = ground arith

      pub host_reported :
          (r : Option (List (Call F))) (s : State) (t : F) (e : Option Text) (p u : F)
          → Agrees r s t e p m
          → Agrees (push (observe_host_cpu u) r) s t e p m
      unfolding record_call export_host_cpu
      host_reported none s t e p u h = h
      host_reported (some calls) s t e p u h = ground arith

      pub interval_reported :
          (r : Option (List (Call F))) (s : State) (t : F) (e : Option Text) (p : F) (i : ℤ)
          → Agrees r s t e p m
          → Agrees (push (set_interval i) r) s t e p m
      unfolding record_call export_interval
      interval_reported none s t e p i h = h
      interval_reported (some calls) s t e p i h = ground arith

      pub relaxed_reported :
          (r : Option (List (Call F))) (s : State) (t : F) (e : Option Text) (p : F) (n : ℤ)
          → Agrees r s t e p m
          → Agrees (push (set_relaxed_successes n) r) s t e p m
      unfolding record_call export_relaxed_successes
      relaxed_reported none s t e p n h = h
      relaxed_reported (some calls) s t e p n h = ground arith
