-- ===== src/Program/Options.antt =====
-- cmd/shaper/options.go: the options once package `flag` has parsed them. A duration is in nanoseconds.
use oci_cpu_shaper.Base.{Bool, not, ◌||◌, if◌then◌else◌, Result, ok, err}
use oci_cpu_shaper.Base.Int.{ℤ, pos, ltb_ℤ}
use oci_cpu_shaper.Base.Text.{Text, codes, text_eq, trim_space, to_lower, is_empty}

pub record Options : Type 0 where
  pub config_path : Text
  pub log_level : Text
  pub mode : Text
  pub shutdown_after : ℤ
  pub show_version : Bool

abbrev pub default_config_path : Text
default_config_path = codes "/etc/oci-cpu-shaper/config.yaml"

abbrev pub default_log_level : Text
default_log_level = codes "info"

abbrev pub mode_dry_run : Text
mode_dry_run = codes "dry-run"

abbrev pub mode_enforce : Text
mode_enforce = codes "enforce"

abbrev pub mode_noop : Text
mode_noop = codes "noop"

pub data OptionsError : Type 0 where
  unsupported_mode : Text → OptionsError
  invalid_shutdown_after : ℤ → OptionsError

unfoldable pub is_valid_mode : Text → Bool
unfolding text_eq
is_valid_mode mode =
    text_eq mode mode_dry_run || text_eq mode mode_enforce || text_eq mode mode_noop

abbrev or_text : Text → Text → Text
unfolding is_empty
or_text s fallback = if is_empty s then fallback else s

-- The options with blanks cut off and defaults filled in.
unfoldable pub filled_options : Options → Options
unfolding to_lower trim_space or_text
filled_options o = record o {
  mode = or_text (to_lower (trim_space o.mode)) mode_enforce;
  log_level = or_text (trim_space o.log_level) default_log_level;
  config_path = or_text (trim_space o.config_path) default_config_path;
}

unfoldable pub normalize_options : Options → Result OptionsError Options
unfolding filled_options is_valid_mode
normalize_options o =
    let filled = filled_options o in
    if not (is_valid_mode filled.mode)
    then err (unsupported_mode filled.mode)
    else if ltb_ℤ filled.shutdown_after (pos 0)
    then err (invalid_shutdown_after filled.shutdown_after)
    else ok filled
