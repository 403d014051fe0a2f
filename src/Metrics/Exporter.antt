-- ===== src/Metrics/Exporter.antt =====
-- pkg/http/metrics/exporter.go: the gauges and the setters that write them. Each setter runs under the
-- mutex, so it is a function on the gauges. A time is in seconds, and 0 is the zero time.
use oci_cpu_shaper.Base.{ℕ, ◌/◌, ◌%◌, Bool, ◌||◌, if◌then◌else◌, Option, none, some, [], suc, ◌==◌}
use oci_cpu_shaper.Base.Int.{ℤ, pos, negsuc, ◌-ℤ◌}
use oci_cpu_shaper.Base.Text.{Text, codes, trim_space, is_empty}
use oci_cpu_shaper.Float.{Float, nought, unity, is_nan}
use oci_cpu_shaper.Adapt.Config.{mode_enforces_targets}
use oci_cpu_shaper.Adapt.Normalize.{float_max}
use oci_cpu_shaper.Adapt.Controller.{
  Call, set_mode, set_state, set_target, observe_oci_p95, observe_host_cpu, set_interval,
  set_last_error, set_relaxed_successes,
}

pub record Exporter (F : Type 0) : Type 0 where
  pub shaper_target : F
  pub shaper_mode : Text
  pub shaper_enforcing : F
  pub shaper_state : Text
  pub oci_p95 : F
  pub oci_last_success : ℕ
  pub duty_cycle_millis : F
  pub worker_count : F
  pub host_cpu_percent : F
  pub interval_seconds : F
  pub last_error : Text
  pub relaxed_successes : F
  pub cgroup_weight : F
  pub cgroup_max_quota : F
  pub cgroup_max_period : F
  pub cgroup_max_limit : F

abbrev pub default_error_label_none : Text
default_error_label_none = codes "none"

abbrev pub default_error_label_unknown : Text
default_error_label_unknown = codes "unknown"

-- A label of a mode or a state.
unfoldable pub label : Text → Text
unfolding trim_space is_empty
label s = let t = trim_space s in if is_empty t then codes "unknown" else t

-- The message that `SetLastError` stores.
unfoldable pub error_label : Option Text → Text
unfolding trim_space is_empty
error_label none = default_error_label_none
error_label (some e) = let t = trim_space e in if is_empty t then default_error_label_unknown else t

-- Quotient and remainder by a positive number, toward 0 as in Go.
abbrev pub quot : ℤ → ℕ → ℤ
quot (pos n) k = pos (n / k)
quot (negsuc n) k = pos 0 -ℤ pos (suc n / k)

abbrev pub rem : ℤ → ℕ → ℤ
rem (pos n) k = pos (n % k)
rem (negsuc n) k = pos 0 -ℤ pos (suc n % k)

abbrev pub second : ℕ
second = 1_000_000_000

module _ {F : Type 0} ⦃d : Float F⦄ where
  open d use {lt, add, mul, div, is_inf, milli, of_int}

  abbrev pub hundred_percent : F
  hundred_percent = milli 100_000

  abbrev pub milliseconds_per_second : F
  milliseconds_per_second = milli 1_000_000

  -- `math.Min`: NaN if either is.
  unfoldable pub float_min : F → F → F
  float_min x y = if is_nan x then x else if is_nan y then y else if lt y x then y else x

  -- `duration.Seconds()`.
  unfoldable pub seconds : ℤ → F
  seconds duration =
      add (of_int (quot duration second)) (div (of_int (rem duration second)) (of_int (pos second)))

  -- The check that most setters make of a value.
  unfoldable pub gauge : F → F
  gauge value = if lt value nought || is_nan value || is_inf value then nought else value

  -- The check of the others: 0 for what is no finite number.
  unfoldable pub finite_or_zero : F → F
  finite_or_zero value = if is_nan value || is_inf value then nought else value

  -- `NewExporter`: every field is its zero value.
  unfoldable pub new_exporter : Exporter F
  new_exporter = record {
    shaper_target = nought;
    shaper_mode = [];
    shaper_enforcing = nought;
    shaper_state = [];
    oci_p95 = nought;
    oci_last_success = 0;
    duty_cycle_millis = nought;
    worker_count = nought;
    host_cpu_percent = nought;
    interval_seconds = nought;
    last_error = [];
    relaxed_successes = nought;
    cgroup_weight = nought;
    cgroup_max_quota = nought;
    cgroup_max_period = nought;
    cgroup_max_limit = nought;
  }

  unfoldable pub export_mode : Text → Exporter F → Exporter F
  unfolding label
  export_mode mode e =
      let trimmed = label mode in
      record e {
        shaper_mode = trimmed;
        shaper_enforcing = if mode_enforces_targets trimmed then unity else nought;
      }

  unfoldable pub export_state : Text → Exporter F → Exporter F
  export_state state e = record e { shaper_state = label state }

  -- The target that `SetTarget` stores.
  unfoldable pub target_gauge : F → F
  unfolding finite_or_zero float_min float_max
  target_gauge target = float_max nought (float_min unity (finite_or_zero target))

  unfoldable pub export_target : F → Exporter F → Exporter F
  export_target target e = record e { shaper_target = target_gauge target }

  -- The P95 that `ObserveOCIP95` stores, and the utilisation that `ObserveHostCPU` goes on with.
  unfoldable pub ratio_gauge : F → F
  unfolding finite_or_zero
  ratio_gauge value = let v = finite_or_zero value in if lt v nought then nought else v

  unfoldable pub export_oci_p95 : F → ℕ → Exporter F → Exporter F
  export_oci_p95 value fetched_at e = record e {
    oci_p95 = ratio_gauge value;
    oci_last_success = if fetched_at == 0 then e.oci_last_success else fetched_at;
  }

  unfoldable pub export_interval : ℤ → Exporter F → Exporter F
  export_interval duration e = record e { interval_seconds = gauge (seconds duration) }

  unfoldable pub export_last_error : Option Text → Exporter F → Exporter F
  export_last_error failure e = record e { last_error = error_label failure }

  unfoldable pub export_duty_cycle : ℤ → Exporter F → Exporter F
  export_duty_cycle duration e = record e {
    duty_cycle_millis = gauge (mul (seconds duration) milliseconds_per_second);
  }

  unfoldable pub export_worker_count : ℤ → Exporter F → Exporter F
  export_worker_count count e = record e { worker_count = gauge (of_int count) }

  unfoldable pub export_cgroup_cpu_weight : F → Exporter F → Exporter F
  export_cgroup_cpu_weight weight e = record e { cgroup_weight = gauge weight }

  unfoldable pub export_cgroup_cpu_max : F → F → Bool → Exporter F → Exporter F
  export_cgroup_cpu_max quota period unlimited e = record e {
    cgroup_max_quota = if unlimited then nought else gauge quota;
    cgroup_max_period = gauge period;
    cgroup_max_limit = if unlimited then unity else nought;
  }

  -- The percentage that `ObserveHostCPU` stores.
  unfoldable pub percent_gauge : F → F
  percent_gauge utilisation =
      let percent = mul (ratio_gauge utilisation) hundred_percent in
      if lt hundred_percent percent then hundred_percent else percent

  unfoldable pub export_host_cpu : F → Exporter F → Exporter F
  export_host_cpu utilisation e = record e { host_cpu_percent = percent_gauge utilisation }

  unfoldable pub export_relaxed_successes : ℤ → Exporter F → Exporter F
  export_relaxed_successes count e = record e { relaxed_successes = gauge (of_int count) }

  -- The exporter as the controller's `MetricsRecorder`.
  unfoldable pub record_call : Call F → Exporter F → Exporter F
  unfolding export_mode export_state export_target export_oci_p95 export_host_cpu export_interval
      export_last_error export_relaxed_successes
  record_call (set_mode mode) = export_mode mode
  record_call (set_state state) = export_state state
  record_call (set_target target) = export_target target
  record_call (observe_oci_p95 value fetched_at) = export_oci_p95 value fetched_at
  record_call (observe_host_cpu utilisation) = export_host_cpu utilisation
  record_call (set_interval interval) = export_interval interval
  record_call (set_last_error failure) = export_last_error failure
  record_call (set_relaxed_successes count) = export_relaxed_successes count
