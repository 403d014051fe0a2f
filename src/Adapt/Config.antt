-- ===== src/Adapt/Config.antt =====
-- pkg/adapt/config.go and config_defaults.go: the thresholds of the controller, their defaults and the
-- mode labels. A duration is a number of nanoseconds.
use oci_cpu_shaper.Base.{ℕ, ◌*◌, Bool, ◌||◌, if◌then◌else◌, [], not}
use oci_cpu_shaper.Base.Int.{ℤ, pos}
use oci_cpu_shaper.Base.Text.{Text, codes, text_eq, trim_space, to_lower, is_empty}
use oci_cpu_shaper.Float.{Float}

pub record Config (F : Type 0) : Type 0 where
  pub resource_id : Text
  pub mode : Text
  pub target_start : F
  pub target_min : F
  pub target_max : F
  pub step_up : F
  pub step_down : F
  pub fallback_target : F
  pub goal_low : F
  pub goal_high : F
  pub interval : ℤ
  pub relaxed_interval : ℤ
  pub relaxed_threshold : F
  pub relaxed_confirmations : ℤ
  pub suppress_threshold : F
  pub suppress_resume : F
  pub suppress_runnable_threshold : F
  pub suppress_runnable_resume : F
  pub suppress_smoothing_samples : ℤ

abbrev pub enforce_mode_label : Text
enforce_mode_label = codes "enforce"

abbrev pub legacy_enforce_mode_label : Text
legacy_enforce_mode_label = codes "normal"

abbrev pub dry_run_mode_label : Text
dry_run_mode_label = codes "dry-run"

abbrev pub noop_mode_label : Text
noop_mode_label = codes "noop"

-- `time.Hour` in nanoseconds.
abbrev pub hour : ℕ
hour = 3_600_000_000_000

module _ {F : Type 0} ⦃d : Float F⦄ where
  open d use {milli}

  unfoldable pub default_config : Config F
  default_config = record {
    resource_id = [];
    mode = enforce_mode_label;
    target_start = milli 220;
    target_min = milli 200;
    target_max = milli 320;
    step_up = milli 10;
    step_down = milli 5;
    fallback_target = milli 220;
    goal_low = milli 210;
    goal_high = milli 270;
    interval = pos hour;
    relaxed_interval = pos (4 * hour);
    relaxed_threshold = milli 260;
    relaxed_confirmations = pos 2;
    suppress_threshold = milli 800;
    suppress_resume = milli 680;
    suppress_runnable_threshold = milli 1200;
    suppress_runnable_resume = milli 960;
    suppress_smoothing_samples = pos 5;
  }

unfoldable pub normalize_mode_label : Text → Text
unfolding to_lower trim_space is_empty text_eq
normalize_mode_label mode =
    let trimmed = to_lower (trim_space mode) in
    if is_empty trimmed || text_eq trimmed legacy_enforce_mode_label
    then enforce_mode_label
    else trimmed

unfoldable pub mode_enforces_targets : Text → Bool
unfolding normalize_mode_label
mode_enforces_targets mode =
    let trimmed = normalize_mode_label mode in
    not (text_eq trimmed dry_run_mode_label || text_eq trimmed noop_mode_label)
