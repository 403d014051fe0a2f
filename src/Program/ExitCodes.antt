-- ===== src/Program/ExitCodes.antt =====
-- cmd/shaper: with which exit code the program ends.
mod Examples
use oci_cpu_shaper.Base.{
  ℕ, ◌≡◌, ◌⊎◌, ◌↔◌, ◌∙◌, inl, inr, ap, sym, refl, arith, Bool, true, false, if◌then◌else◌,
  Bool-cases, Option, Option-cases, none, some, Result, Result-cases, ok, err, List, [],
}
use oci_cpu_shaper.Base.Text.{Text}
use oci_cpu_shaper.Float.{Float, IsFloat}
use oci_cpu_shaper.Runtime.Settings.{RuntimeConfig, HttpConfig}
use oci_cpu_shaper.Runtime.Sources.{Parsers, Environment}
use oci_cpu_shaper.Runtime.Load.{
  FileRead, LoadError, read_config_file, decode_config_file, validate_runtime, validate_controller,
  load,
}
use oci_cpu_shaper.Runtime.Accepted.{Passed, load-Passed}
use oci_cpu_shaper.Program.Options.{Options}
use oci_cpu_shaper.Program.Startup.{
  Built, noop, adaptive, RunResult, completed, canceled, deadline_exceeded, failed,
  exit_code_of_run, prepare_controller,
}
use oci_cpu_shaper.Program.Server.{start_endpoint}
use oci_cpu_shaper.Program.Main.{
  ArgsError, parse_args, exit_code_for_load_error, World, serve_and_run, run_loaded, run_configured,
  run_program,
}
use oci_cpu_shaper.Program.Refusal.{Accepts, prepare_failure, loaded-Accepts}

-- The configuration was read and failed a check.
abbrev pub FailsCheck : {F : Type 0} → Result LoadError (RuntimeConfig F) → Type 0
FailsCheck (ok cfg) = ⊥
FailsCheck (err (read_config_file e)) = ⊥
FailsCheck (err (decode_config_file e)) = ⊥
FailsCheck (err (validate_runtime e)) = Unit
FailsCheck (err (validate_controller e)) = Unit

-- The arguments are refused, or the configuration that they name is.
abbrev pub IsRefused :
    {F : Type 0} ⦃d : Float F⦄
    → Parsers F
    → Environment
    → (Text → FileRead F)
    → Result ArgsError Options
    → Type 0
IsRefused parsers env read (err e) = Unit
IsRefused parsers env read (ok o) =
    (o.show_version ≡ false) × FailsCheck (load parsers env read o.config_path)

-- A code of success or of a run.
abbrev IsLate : ℕ → Type 0
IsLate code = (code ≡ 0) ⊎ (code ≡ 1)

late_not_two : (code : ℕ) → IsLate code → code ≡ 2 → ⊥
late_not_two code (inl h) e = omega (arith, h, e)
late_not_two code (inr h) e = omega (arith, h, e)

run-IsLate : (r : RunResult) → IsLate (exit_code_of_run r)
unfolding exit_code_of_run
run-IsLate completed = inl refl
run-IsLate canceled = inl refl
run-IsLate deadline_exceeded = inl refl
run-IsLate (failed e) = inr refl

module _ {F E M : Type 0} ⦃d : Float F⦄ (world : World F E M) where
  serve-IsLate :
      (cfg : RuntimeConfig F) (built : Built F M) → IsLate (serve_and_run world cfg built)
  unfolding serve_and_run exit_code_of_run
  serve-IsLate cfg built =
      elim (Result-cases (start_endpoint true world.start_server cfg.http.bind true)) [
        | inl (e, k) ↦ inr (rw (serve_and_run, k) refl)
        | inr (shutdown, k) ↦ rw (serve_and_run, k) (ended built)
      ]
    where
      ended :
          (built : Built F M)
          → IsLate (elim built [
            | noop mode ↦ exit_code_of_run completed
            | adaptive source controller pool ↦
                exit_code_of_run (world.run_controller (adaptive source controller pool))
          ])
      ended (noop mode) = inl refl
      ended (adaptive source controller pool) =
          run-IsLate (world.run_controller (adaptive source controller pool))

  loaded-IsLate :
      (laws : IsFloat F) (o : Options) (cfg : RuntimeConfig F)
      → Accepts cfg
      → IsLate (run_loaded world o cfg)
  unfolding run_loaded
  loaded-IsLate laws o cfg a =
      elim (Result-cases
        (prepare_controller world.builder cfg (some world.client) o.mode (some []))) [
          | inl (code, k) ↦ inr (
              rw (run_loaded, k)
                (prepare_failure laws world.builder cfg o.mode world.client (some []) a k))
          | inr ((p, built, calls), k) ↦ rw (run_loaded, k) (serve-IsLate p built)
        ]

  -- What `Load` comes to is told from the code.
  configured_iff :
      (laws : IsFloat F) (parsers : Parsers F) (env : Environment) (read : Text → FileRead F)
      → (o : Options) → world.load_config o.config_path ≡ load parsers env read o.config_path
      → (run_configured world o ≡ 2) ↔ FailsCheck (load parsers env read o.config_path)
  unfolding run_configured
  configured_iff laws parsers env read o loads =
      elim (Result-cases (load parsers env read o.config_path)) [
        | inl (e, k) ↦ rw (run_configured, loads, k) (refused e)
        | inr (cfg, k) ↦ elim (Option-cases (world.new_logger o.log_level)) [
          | inl quiet ↦
              let late = loaded-IsLate laws o cfg (accepted cfg k) in
              rw (run_configured, loads, k, quiet)
                (late_not_two (run_loaded world o cfg) late, λ f. absurd f)
          | inr (e, j) ↦ rw (run_configured, loads, k, j) (late_not_two 1 (inr refl), λ f. absurd f)
        ]
      ]
    where
      accepted :
          (cfg : RuntimeConfig F) → load parsers env read o.config_path ≡ ok cfg → Accepts cfg
      accepted cfg k = loaded-Accepts parsers env read o.config_path k

      refused : (e : LoadError) → (exit_code_for_load_error e ≡ 2) ↔ FailsCheck {F = F} (err e)
      refused (read_config_file e) = (late_not_two 1 (inr refl), λ f. absurd f)
      refused (decode_config_file e) = (late_not_two 1 (inr refl), λ f. absurd f)
      refused (validate_runtime e) = (λ _. tt, λ _. refl)
      refused (validate_controller e) = (λ _. tt, λ _. refl)

  -- Where the program loads its configuration with `Load`, it ends with the code 2 exactly if its
  -- arguments are refused, or if it is not asked for its version and the configuration that it reads
  -- fails a check. Nothing that goes wrong later, with the metadata, the size of the pool, the
  -- monitoring client, the controller, the endpoint or the run, gives that code.
  pub run_program_iff :
      (laws : IsFloat F) (parsers : Parsers F) (env : Environment) (read : Text → FileRead F)
      → (flags : Result Text (Options × List Text))
      → ((path : Text) → world.load_config path ≡ load parsers env read path)
      → (run_program world flags ≡ 2) ↔ IsRefused parsers env read (parse_args flags)
  unfolding run_program
  run_program_iff laws parsers env read flags loads = elim (Result-cases (parse_args flags)) [
    | inl (e, k) ↦ rw (run_program, k) (λ _. tt, λ _. refl)
    | inr (o, k) ↦ elim (Bool-cases o.show_version) [
      | inl b ↦
          rw (run_program, k, b) (λ h. absurd (ground (arith, h)), λ h. absurd (ground (arith, h)))
      | inr b ↦
          let (to, from) = configured_iff laws parsers env read o (loads o.config_path) in
          rw (run_program, k, b) (λ h. (refl, to h), λ h. from h.1)
    ]
  ]
