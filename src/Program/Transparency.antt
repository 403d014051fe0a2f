-- ===== src/Program/Transparency.antt =====
-- cmd/shaper/recorder_logger.go in front of pkg/http/metrics/exporter.go: logging changes no gauge, and
-- what it remembers is what the gauges show.
use mathlib.Core.Path.{subst}
use oci_cpu_shaper.Base.{
  ℕ, ◌≡◌, ◌∙◌, ap, sym, refl, arith, inl, inr, Bool-cases, if◌then◌else◌, Option, none, some, List,
  [], ◌∷◌,
}
use oci_cpu_shaper.Base.Int.{ℤ}
use oci_cpu_shaper.Base.Text.{Text, codes, text_eq_iff, trim_space, is_empty}
use oci_cpu_shaper.Base.Text.Trimmed.{trim_space-twice}
use oci_cpu_shaper.Float.{Float}
use oci_cpu_shaper.Adapt.Controller.{
  Call, set_mode, set_state, set_target, observe_oci_p95, observe_host_cpu, set_interval,
  set_last_error, set_relaxed_successes,
}
use oci_cpu_shaper.Metrics.Exporter.{
  Exporter, label, error_label, new_exporter, export_mode, export_state, export_target,
  export_oci_p95, export_host_cpu, export_interval, export_last_error, export_relaxed_successes,
  record_call,
}
use oci_cpu_shaper.Metrics.Rendering.{snapshot_error}
use oci_cpu_shaper.Program.Recorder.{
  RecorderLogger, known, error_message, delegated, new_recorder_logger, log_call, log_mode,
  log_state, log_target, log_oci_p95, log_host_cpu, log_interval, log_last_error,
}

label-known : (s : Text) → label s ≡ known s
unfolding label known
label-known s = refl

-- The label of a label is that label.
known-twice : (s : Text) → known (known s) ≡ known s
unfolding known
known-twice s = elim (Bool-cases (is_empty (trim_space s))) [
  | inl b ↦ rw b refl
  | inr b ↦ rw (b, trim_space-twice s, b) refl
]

label-twice : (s : Text) → label (known s) ≡ label s
label-twice s = label-known (known s) ∙ known-twice s ∙ sym (label-known s)

error_label-message : (f : Option Text) → error_label f ≡ error_message f
unfolding error_label error_message known
error_label-message none = refl
error_label-message (some e) = refl

unblank : Text → Text
unfolding trim_space is_empty
unblank s = if is_empty (trim_space s) then codes "none" else s

unblank-known : (s : Text) → unblank (known s) ≡ known s
unfolding unblank known
unblank-known s = elim (Bool-cases (is_empty (trim_space s))) [
  | inl b ↦ rw b refl
  | inr b ↦ rw (b, trim_space-twice s, b) refl
]

unblank-message : (f : Option Text) → unblank (error_message f) ≡ error_message f
unfolding error_message unblank
unblank-message none = refl
unblank-message (some e) = unblank-known e

module _ {F : Type 0} ⦃d : Float F⦄ where
  record_call-delegated :
      (c : Call F) (e : Exporter F) → record_call (delegated c) e ≡ record_call c e
  unfolding delegated record_call export_mode export_state
  record_call-delegated (set_mode mode) e = rw (export_mode, label-twice mode) refl
  record_call-delegated (set_state state) e = rw (export_state, label-twice state) refl
  record_call-delegated (set_target target) e = refl
  record_call-delegated (observe_oci_p95 value fetched_at) e = refl
  record_call-delegated (observe_host_cpu utilisation) e = refl
  record_call-delegated (set_interval interval) e = refl
  record_call-delegated (set_last_error failure) e = refl
  record_call-delegated (set_relaxed_successes count) e = refl

  -- The logger and its delegate after calls at times, the latest first.
  unfoldable pub logged : List (ℕ × Call F) → RecorderLogger F × Exporter F
  unfolding log_call delegated record_call new_recorder_logger new_exporter
  logged [] = (new_recorder_logger, new_exporter)
  logged ((now, c) ∷ earlier) =
      let (r, e) = logged earlier in (log_call now c r, record_call (delegated c) e)

  -- The exporter after the same calls without a logger.
  unfoldable pub unlogged : List (ℕ × Call F) → Exporter F
  unfolding record_call new_exporter
  unlogged [] = new_exporter
  unlogged ((now, c) ∷ earlier) = record_call c (unlogged earlier)

  -- What the logger remembers of mode, state and error is what the exporter shows.
  pub record Remembers (r : RecorderLogger F) (e : Exporter F) : Type 0 where
    pub same_mode : r.last_mode ≡ e.shaper_mode
    pub same_state : r.last_state ≡ e.shaper_state
    pub same_error : r.last_error ≡ snapshot_error e

  mode_logged :
      (mode : Text) (r : RecorderLogger F)
      → let r' = log_mode mode r in
        (r'.last_mode ≡ known mode)
        × (r'.last_state ≡ r.last_state)
        × (r'.last_error ≡ r.last_error)
  unfolding log_mode
  mode_logged mode r = ground (arith, text_eq_iff (known mode) r.last_mode)

  state_logged :
      (state : Text) (r : RecorderLogger F)
      → let r' = log_state state r in
        (r'.last_mode ≡ r.last_mode)
        × (r'.last_state ≡ known state)
        × (r'.last_error ≡ r.last_error)
  unfolding log_state
  state_logged state r = ground (arith, text_eq_iff (known state) r.last_state)

  error_logged :
      (failure : Option Text) (r : RecorderLogger F)
      → let r' = log_last_error failure r in
        (r'.last_mode ≡ r.last_mode)
        × (r'.last_state ≡ r.last_state)
        × (r'.last_error ≡ error_message failure)
  unfolding log_last_error
  error_logged failure r = ground (arith, text_eq_iff r.last_error (error_message failure))

  -- What the other methods leave as it is.
  abbrev Keeps : RecorderLogger F → RecorderLogger F → Type 0
  Keeps r' r =
      (r'.last_mode ≡ r.last_mode) × (r'.last_state ≡ r.last_state) × (r'.last_error ≡ r.last_error)

  target_logged : (target : F) (r : RecorderLogger F) → Keeps (log_target target r) r
  unfolding log_target
  target_logged target r = ground arith

  p95_logged :
      (now : ℕ) (value : F) (fetched_at : ℕ) (r : RecorderLogger F)
      → Keeps (log_oci_p95 now value fetched_at r) r
  unfolding log_oci_p95
  p95_logged now value fetched_at r = ground arith

  host_logged :
      (now : ℕ) (utilisation : F) (r : RecorderLogger F) → Keeps (log_host_cpu now utilisation r) r
  unfolding log_host_cpu
  host_logged now utilisation r = ground arith

  interval_logged : (interval : ℤ) (r : RecorderLogger F) → Keeps (log_interval interval r) r
  unfolding log_interval
  interval_logged interval r = ground arith

  -- A call that keeps both sides.
  keep :
      {r r' : RecorderLogger F} {e e' : Exporter F}
      → Keeps r' r
      → e'.shaper_mode ≡ e.shaper_mode
      → e'.shaper_state ≡ e.shaper_state
      → e'.last_error ≡ e.last_error
      → Remembers r e
      → Remembers r' e'
  unfolding snapshot_error unblank
  keep k mode state failure h = record {
    same_mode = k.0 ∙ h.same_mode ∙ sym mode;
    same_state = k.1 ∙ h.same_state ∙ sym state;
    same_error = k.2 ∙ h.same_error ∙ ap unblank (sym failure);
  }

  call-Remembers :
      (now : ℕ) (c : Call F) (r : RecorderLogger F) (e : Exporter F)
      → Remembers r e
      → Remembers (log_call now c r) (record_call c e)
  unfolding log_call record_call export_mode export_state export_target export_oci_p95
      export_host_cpu export_interval export_last_error export_relaxed_successes snapshot_error
      unblank
  call-Remembers now (set_mode mode) r e h =
      let k = mode_logged mode r in
      record {
        same_mode = k.0 ∙ sym (label-known mode);
        same_state = k.1 ∙ h.same_state;
        same_error = k.2 ∙ h.same_error;
      }
  call-Remembers now (set_state state) r e h =
      let k = state_logged state r in
      record {
        same_mode = k.0 ∙ h.same_mode;
        same_state = k.1 ∙ sym (label-known state);
        same_error = k.2 ∙ h.same_error;
      }
  call-Remembers now (set_target target) r e h = keep (target_logged target r) refl refl refl h
  call-Remembers now (observe_oci_p95 value fetched_at) r e h =
      keep (p95_logged now value fetched_at r) refl refl refl h
  call-Remembers now (observe_host_cpu utilisation) r e h =
      keep (host_logged now utilisation r) refl refl refl h
  call-Remembers now (set_interval interval) r e h =
      keep (interval_logged interval r) refl refl refl h
  call-Remembers now (set_last_error failure) r e h =
      let k = error_logged failure r in
      record {
        same_mode = k.0 ∙ h.same_mode;
        same_state = k.1 ∙ h.same_state;
        same_error =
            k.2 ∙ sym (unblank-message failure) ∙ ap unblank (sym (error_label-message failure));
      }
  call-Remembers now (set_relaxed_successes count) r e h = keep (refl, refl, refl) refl refl refl h

  -- Whatever is reported, and at whatever times, an exporter behind the logger has the same gauges as
  -- one without it, and the mode, state and error that the logger remembers, by which it tells what to
  -- log, are those that the exporter shows.
  pub logged-Remembers :
      (calls : List (ℕ × Call F))
      → let (r, e) = logged calls in (e ≡ unlogged calls) × Remembers r e
  unfolding logged unlogged new_recorder_logger new_exporter snapshot_error
  logged-Remembers [] = (refl, record { same_mode = refl; same_state = refl; same_error = refl })
  logged-Remembers ((now, c) ∷ earlier) =
      let (r, e) = logged earlier in
      let (same, remembers) = logged-Remembers earlier in
      let plain = record_call-delegated c e in
      (
        plain ∙ ap (record_call c) same,
        subst (Remembers (log_call now c r)) (sym plain) (call-Remembers now c r e remembers),
      )
