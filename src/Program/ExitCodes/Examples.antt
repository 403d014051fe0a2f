-- ===== src/Program/ExitCodes/Examples.antt =====
-- A start in which the file cannot be decoded and nothing answers.
use oci_cpu_shaper.Base.{◌≡◌, ◌↔◌, refl, false, none, some, Result, ok, err, List, []}
use oci_cpu_shaper.Base.Int.{pos}
use oci_cpu_shaper.Base.Text.{Text, codes}
use oci_cpu_shaper.Float.Fixed.{Fixed, fixed_float, Fixed-IsFloat}
use oci_cpu_shaper.Imds.Client.{Client}
use oci_cpu_shaper.Runtime.Sources.{Parsers, Environment}
use oci_cpu_shaper.Runtime.Load.{FileRead, undecodable, load}
use oci_cpu_shaper.Program.Options.{Options}
use oci_cpu_shaper.Program.Startup.{completed}
use oci_cpu_shaper.Program.Main.{World, parse_args, run_program}
use oci_cpu_shaper.Program.ExitCodes.{IsRefused, run_program_iff}

abbrev parsers : Parsers Fixed
parsers = record { parse_float = λ t. none; atoi = λ t. none; parse_duration = λ t. none }

abbrev env : Environment
env key = none

abbrev read : Text → FileRead Fixed
read path = undecodable (codes "yaml")

abbrev silent : Client Fixed Text
silent = record {
  region = ([], some (codes "timeout"));
  canonical_region = ([], some (codes "timeout"));
  instance_id = ([], some (codes "timeout"));
  compartment_id = ([], some (codes "timeout"));
  shape_config = err (codes "timeout");
}

abbrev world : World Fixed Text Text
world = record {
  load_config = load parsers env read;
  new_logger = λ level. none;
  client = silent;
  builder = λ compartment region. err (codes "no principal");
  start_server = none;
  run_controller = λ built. completed;
}

abbrev flags : Result Text (Options × List Text)
flags = ok (
  record {
    config_path = [];
    log_level = codes "info";
    mode = codes " Dry-Run ";
    shutdown_after = pos 0;
    show_version = false;
  },
  [],
)

run_program_iff_example :
    (run_program world flags ≡ 2) ↔ IsRefused parsers env read (parse_args flags)
run_program_iff_example = run_program_iff world Fixed-IsFloat parsers env read flags (λ path. refl)
