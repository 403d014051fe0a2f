-- ===== src/Program/Recorder.antt =====
-- cmd/shaper/recorder_logger.go: the recorder between the controller and the exporter, which logs what
-- changes. A call is handled at a time in nanoseconds; 0 is the zero time. Each method runs under the
-- mutex.
use oci_cpu_shaper.Base.{
  ℕ, ◌-◌, Bool, true, false, not, ◌&&◌, ◌||◌, if◌then◌else◌, Option, none, some, List, [], ◌∷◌,
  ◌++◌, leb, ◌==◌,
}
use oci_cpu_shaper.Base.Int.{ℤ, pos, eqb_ℤ}
use oci_cpu_shaper.Base.Text.{Text, codes, text_eq, trim_space, is_empty}
use oci_cpu_shaper.Float.{Float, nought}
use oci_cpu_shaper.Adapt.Config.{mode_enforces_targets}
use oci_cpu_shaper.Adapt.Controller.{
  Call, set_mode, set_state, set_target, observe_oci_p95, observe_host_cpu, set_interval,
  set_last_error, set_relaxed_successes,
}
use oci_cpu_shaper.Program.Log.{Entry, debug, info, warn, string, bool, float, duration, time}

pub record RecorderLogger (F : Type 0) : Type 0 where
  pub last_mode : Text
  pub last_state : Text
  pub target_logged : Bool
  pub last_target : F
  pub oci_logged : Bool
  pub last_oci : F
  pub last_oci_log : ℕ
  pub host_logged : Bool
  pub last_host : F
  pub last_host_log : ℕ
  pub interval_logged : Bool
  pub last_interval : ℤ
  pub last_error : Text
  pub log : List (Entry F)

abbrev pub controller_unknown_value : Text
controller_unknown_value = codes "unknown"

abbrev pub controller_no_error_value : Text
controller_no_error_value = codes "none"

abbrev pub controller_observation_cooldown : ℕ
controller_observation_cooldown = 30_000_000_000

-- A blank label is unknown.
unfoldable pub known : Text → Text
unfolding trim_space is_empty
known s =
    let trimmed = trim_space s in if is_empty trimmed then controller_unknown_value else trimmed

-- The message of an error, or that there is none.
unfoldable pub error_message : Option Text → Text
unfolding known
error_message none = controller_no_error_value
error_message (some e) = known e

abbrev pub write : {F : Type 0} → Entry F → List (Entry F) → List (Entry F)
write entry log = log ++ (entry ∷ [])

module _ {F : Type 0} where
  unfoldable pub log_mode : Text → RecorderLogger F → RecorderLogger F
  unfolding known text_eq mode_enforces_targets
  log_mode mode r =
      let trimmed = known mode in
      if text_eq trimmed r.last_mode then r else record r {
        last_mode = trimmed;
        log =
            write
              (record {
                level = info;
                message = codes "controller mode configured";
                fields =
                    string (codes "mode") trimmed
                    ∷ (bool (codes "enforcing") (mode_enforces_targets trimmed) ∷ []);
              })
              r.log;
      }

  unfoldable pub log_state : Text → RecorderLogger F → RecorderLogger F
  unfolding known text_eq
  log_state state r =
      let trimmed = known state in
      if text_eq trimmed r.last_state then r else record r {
        last_state = trimmed;
        log =
            write
              (record {
                level = info;
                message = codes "controller state transition";
                fields = string (codes "from") r.last_state ∷ (string (codes "to") trimmed ∷ []);
              })
              r.log;
      }

  unfoldable pub log_interval : ℤ → RecorderLogger F → RecorderLogger F
  log_interval interval r =
      if r.interval_logged && eqb_ℤ interval r.last_interval then r else record r {
        interval_logged = true;
        last_interval = interval;
        log =
            write
              (record {
                level = debug;
                message = codes "controller interval updated";
                fields =
                    duration (codes "interval") interval
                    ∷ (duration (codes "previous") r.last_interval ∷ []);
              })
              r.log;
      }

  -- What `SetLastError` logs of a message.
  unfoldable pub error_entry : Text → Entry F
  unfolding text_eq
  error_entry message =
      if text_eq message controller_no_error_value
      then record { level = info; message = codes "controller error cleared"; fields = [] }
      else record {
        level = warn;
        message = codes "controller error observed";
        fields = string (codes "error") message ∷ [];
      }

  unfoldable pub log_last_error : Option Text → RecorderLogger F → RecorderLogger F
  unfolding error_message error_entry text_eq
  log_last_error failure r =
      let message = error_message failure in
      if text_eq r.last_error message
      then r
      else record r { last_error = message; log = write (error_entry message) r.log }

  -- What the delegate is told.
  unfoldable pub delegated : Call F → Call F
  unfolding known
  delegated (set_mode mode) = set_mode (known mode)
  delegated (set_state state) = set_state (known state)
  delegated call = call

module _ {F : Type 0} ⦃d : Float F⦄ where
  open d use {lt, le, sub, mul, milli}

  -- `math.Abs`, which comparisons do not tell from the absolute value at -0.
  abbrev pub float_abs : F → F
  float_abs x = if lt x nought then sub nought x else x

  -- `newRecorderLogger`.
  unfoldable pub new_recorder_logger : RecorderLogger F
  new_recorder_logger = record {
    last_mode = [];
    last_state = [];
    target_logged = false;
    last_target = nought;
    oci_logged = false;
    last_oci = nought;
    last_oci_log = 0;
    host_logged = false;
    last_host = nought;
    last_host_log = 0;
    interval_logged = false;
    last_interval = pos 0;
    last_error = controller_no_error_value;
    log = [];
  }

  unfoldable pub should_log_observation : ℕ → Bool → F → F → ℕ → F → Bool
  should_log_observation now logged previous next last_logged threshold =
      not logged
      || le threshold (float_abs (sub next previous))
      || last_logged == 0
      || leb controller_observation_cooldown (now - last_logged)

  unfoldable pub log_target : F → RecorderLogger F → RecorderLogger F
  log_target target r =
      if r.target_logged && lt (float_abs (sub target r.last_target)) (milli 5)
      then r
      else record r {
        target_logged = true;
        last_target = target;
        log =
            write
              (record {
                level = debug;
                message = codes "controller target updated";
                fields =
                    float (codes "target") target ∷ (float (codes "previous") r.last_target ∷ []);
              })
              r.log;
      }

  unfoldable pub log_oci_p95 : ℕ → F → ℕ → RecorderLogger F → RecorderLogger F
  unfolding should_log_observation
  log_oci_p95 now value fetched_at r =
      if should_log_observation now r.oci_logged r.last_oci value r.last_oci_log (milli 10)
      then record r {
        oci_logged = true;
        last_oci = value;
        last_oci_log = now;
        log =
            write
              (record {
                level = debug;
                message = codes "oci metrics observation";
                fields =
                    float (codes "p95") value
                    ∷ (if fetched_at == 0 then [] else time (codes "fetchedAt") fetched_at ∷ []);
              })
              r.log;
      }
      else r

  unfoldable pub log_host_cpu : ℕ → F → RecorderLogger F → RecorderLogger F
  unfolding should_log_observation
  log_host_cpu now utilisation r =
      let percent = mul utilisation (milli 100_000) in
      if should_log_observation now r.host_logged r.last_host utilisation r.last_host_log (milli 50)
      then record r {
        host_logged = true;
        last_host = utilisation;
        last_host_log = now;
        log =
            write
              (record {
                level = debug;
                message = codes "host cpu observation";
                fields =
                    float (codes "percent") (if lt percent nought then nought else percent)
                    ∷ (float (codes "ratio") utilisation ∷ []);
              })
              r.log;
      }
      else r

  -- A call of the `MetricsRecorder` at a time.
  unfoldable pub log_call : ℕ → Call F → RecorderLogger F → RecorderLogger F
  unfolding log_mode log_state log_target log_oci_p95 log_host_cpu log_interval log_last_error
  log_call now (set_mode mode) = log_mode mode
  log_call now (set_state state) = log_state state
  log_call now (set_target target) = log_target target
  log_call now (observe_oci_p95 value fetched_at) = log_oci_p95 now value fetched_at
  log_call now (observe_host_cpu utilisation) = log_host_cpu now utilisation
  log_call now (set_interval interval) = log_interval interval
  log_call now (set_last_error failure) = log_last_error failure
  log_call now (set_relaxed_successes count) = λ r. r
