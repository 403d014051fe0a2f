-- ===== src/Program/Main.antt =====
-- cmd/shaper/options.go, bootstrap_args.go, bootstrap_config.go, app_bootstrap.go, bootstrap_metrics.go,
-- bootstrap_controller.go and app_run.go: the stages of the program in their order, and its exit code.
-- The flag parser, the logger's construction, the endpoint and the run of the controller are parameters.
use oci_cpu_shaper.Base.{
  ℕ, Bool, true, false, ◌||◌, if◌then◌else◌, Option, none, some, Result, ok, err, List, [], ◌∷◌,
}
use oci_cpu_shaper.Base.Text.{Text, codes, text_eq}
use oci_cpu_shaper.Float.{Float}
use oci_cpu_shaper.Imds.Client.{Client}
use oci_cpu_shaper.Runtime.Settings.{RuntimeConfig}
use oci_cpu_shaper.Runtime.Load.{
  LoadError, read_config_file, decode_config_file, validate_runtime, validate_controller,
}
use oci_cpu_shaper.Program.Options.{Options, OptionsError, normalize_options}
use oci_cpu_shaper.Program.Startup.{
  Built, noop, adaptive, RunResult, completed, exit_code_success, exit_code_runtime_error,
  exit_code_parse_error, exit_code_of_run, prepare_controller,
}
use oci_cpu_shaper.Program.Server.{ServerError, start_endpoint}

pub data ArgsError : Type 0 where
  parse_arguments : Text → ArgsError
  refused_options : OptionsError → ArgsError

abbrev contains : Text → List Text → Bool
unfolding text_eq
contains word [] = false
contains word (w ∷ rest) = text_eq w word || contains word rest

-- `parseArgs`, of what the flag set makes of the arguments: the options and the other arguments.
unfoldable pub parse_args : Result Text (Options × List Text) → Result ArgsError Options
unfolding contains normalize_options
parse_args (err e) = err (parse_arguments e)
parse_args (ok (o, rest)) =
    let options = record o { show_version = o.show_version || contains (codes "version") rest } in
    if options.show_version then ok options else elim (normalize_options options) [
      | err e ↦ err (refused_options e)
      | ok normalized ↦ ok normalized
    ]

-- `exitCodeForConfigError` on an error of `Load`.
unfoldable pub exit_code_for_load_error : LoadError → ℕ
exit_code_for_load_error (read_config_file e) = exit_code_runtime_error
exit_code_for_load_error (decode_config_file e) = exit_code_runtime_error
exit_code_for_load_error (validate_runtime e) = exit_code_parse_error
exit_code_for_load_error (validate_controller e) = exit_code_parse_error

-- What the program is given: `runDeps` with the real factories, and what its parts come to.
pub record World (F E M : Type 0) : Type 0 where
  pub load_config : Text → Result LoadError (RuntimeConfig F)
  pub new_logger : Text → Option Text
  pub client : Client F E
  pub builder : Text → Text → Result Text M
  pub start_server : Option (Text → Result ServerError Text)
  pub run_controller : Built F M → RunResult

module _ {F E M : Type 0} ⦃d : Float F⦄ (world : World F E M) where
  -- `stageMetrics` and `startController`, of a controller that is built. The controller that does
  -- nothing returns at once.
  unfoldable pub serve_and_run : RuntimeConfig F → Built F M → ℕ
  unfolding start_endpoint exit_code_of_run
  serve_and_run cfg built = elim (start_endpoint true world.start_server cfg.http.bind true) [
    | err e ↦ exit_code_runtime_error
    | ok shutdown ↦ elim built [
      | noop mode ↦ exit_code_of_run completed
      | adaptive source controller pool ↦
          exit_code_of_run (world.run_controller (adaptive source controller pool))
    ]
  ]

  -- From a loaded configuration on; the recorder is the exporter's.
  unfoldable pub run_loaded : Options → RuntimeConfig F → ℕ
  unfolding prepare_controller serve_and_run
  run_loaded options cfg =
      elim (prepare_controller world.builder cfg (some world.client) options.mode (some [])) [
        | err code ↦ code
        | ok (staged, built, calls) ↦ serve_and_run staged built
      ]

  -- `stageConfig`.
  unfoldable pub run_configured : Options → ℕ
  unfolding exit_code_for_load_error run_loaded
  run_configured options = elim (world.load_config options.config_path) [
    | err e ↦ exit_code_for_load_error e
    | ok cfg ↦ elim (world.new_logger options.log_level) [
      | some e ↦ exit_code_runtime_error
      | none ↦ run_loaded options cfg
    ]
  ]

  -- `run`: the exit code.
  unfoldable pub run_program : Result Text (Options × List Text) → ℕ
  unfolding parse_args run_configured
  run_program flags = elim (parse_args flags) [
    | err e ↦ exit_code_parse_error
    | ok options ↦ if options.show_version then exit_code_success else run_configured options
  ]
