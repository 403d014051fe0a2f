-- ===== src/Lib.antt =====
-- A model of the CPU shaper: a program that keeps an Oracle Cloud instance busy enough that it is not
-- reclaimed, and idle enough that its other work is not disturbed.
--
-- The parts and how they work together:
--
-- * pkg/runtimeconfig reads the configuration: its defaults, then a YAML file, then the environment,
--   then two validations. Runtime/Settings has the records and the defaults (config.go, defaults.go),
--   Runtime/Sources the file and the environment (merge.go, env.go), Runtime/Load the checks and `Load`
--   (validate.go, loader.go). Runtime/Build is the end of `buildAdaptiveController` in
--   cmd/shaper/controller_helpers.go, which makes the pool and the controller from a loaded
--   configuration. Runtime/Layered, Precedence, Layers, Checks and Accepted hold the theorems.
-- * pkg/adapt is the controller. Adapt/Config, Normalize and Validate are config.go,
--   config_defaults.go, config_normalize.go and config_validate.go. Adapt/DutyCycler is
--   dutycycler_wrapper.go, which keeps the pool from being driven in the dry-run and noop modes.
--   Adapt/Controller is the state (controller_ctor.go, controller_state.go, state.go), and below it
--   Suppression is suppression.go, Observation controller_observation.go, Step controller_step.go and
--   Loop controller_loop.go. Each critical section under the mutex is a function on the state, and a
--   run is a list of ticks and samples in the order in which they take the mutex. Calls of the metrics
--   recorder are collected in the state, `none` where there is no recorder.
-- * pkg/shape is the worker pool. Shape/Pool is pool.go and pause.go, where an atomic field of bits is
--   the float itself, and Shape/Worker is the body of the loop in worker.go as the list of its calls.
--   Shape/Hooks is the hook of the scheduler (pool_rootful.go) and the handler of its errors.
-- * pkg/est is the fast estimator. Est/Sampler is sampler.go: the parser of /proc/stat on the lines of
--   the file, an observation from two snapshots, and the loop on a list of what it selects;
--   Est/Source is the source that opens the file, and the start of the sampler.
-- * pkg/oci queries the P95 of the instance. Oci/Query is query.go; the service is a function from a
--   request and a page token to an answer; Percentile, Rank, Paging and Weekly hold the theorems.
--   Oci/Client is how the client is made and one call of the SDK (client.go, factory.go, static.go,
--   sdk_client.go, metricsclient/context.go).
-- * pkg/imds asks the metadata service. Imds/Transport is transport.go and `getText` of operations.go;
--   the replies of the HTTP client and the waits are functions of the number of the attempt. Imds/Client
--   has the interface (imds.go), the options (client_config.go) and the operations (operations.go).
-- * pkg/cgroup reads the CPU controls of the process. Cgroup is cgroup.go on parameters for the files;
--   Contents, Detection and Soundness hold the theorems, with the texts that the kernel writes.
-- * pkg/http/metrics is the exporter. Metrics/Exporter is exporter.go's gauges and setters, a record and
--   functions on it, and Metrics/Rendering its text; Ranges, Reported, Mirror, Stale,
--   Lines and Scrape hold the theorems.
-- * pkg/http/status answers /healthz. Status is handler.go, with `json.Marshal` as a parameter, and the
--   status of the two controllers (controller_state.go, noop_controller.go); Status/Agreement compares
--   it with the exporter.
-- * cmd/shaper is the program around them. Program/Options is options.go after the flags are parsed,
--   Metadata metadata_resolver.go, Sizing pool_sizing.go, Startup the way from the configuration to the
--   controller with its exit codes (bootstrap_metadata.go, run_deps.go, controller_helpers.go,
--   metrics_client_wiring.go, app_controller.go), Inspection cgroup_inspection.go with the gauges of
--   metrics_handlers.go, Recorder recorder_logger.go, Logging logging_metadata.go, Server the guards of
--   internal/metricsserver/metricsserver.go, and Main the stages in their order with the exit code
--   (app_run.go, app_bootstrap.go, bootstrap_args.go, bootstrap_config.go, bootstrap_metrics.go,
--   bootstrap_controller.go). Program/Log is what is passed to the logger. Offline, Launch, Capacity,
--   Transparency, Refusal and ExitCodes hold the theorems.
--
-- The controller gives the pool its target and the host's load, takes the P95 from the query at each
-- tick, and takes the samples of the estimator in between. A tick of the controller takes the query's
-- answer as an argument, so the parts meet in the types of their results. The calls that the controller
-- collects are the calls that the logging recorder and the exporter take, and the state that /healthz
-- shows is that of the controller.
--
-- Base has the numbers, integers and text that the parts share: ℤ for Go's int and time.Duration, whose
-- one counter that grows wraps at 2 ^ 63, `% 2 ^ 64` for uint64, and text as a list of code points, whose
-- lower case is that of the ASCII letters. Float is float64 as an interface: comparison,
-- arithmetic, literals and rounding, with the laws of IEEE 754 that proofs need as a record of
-- hypotheses. It admits NaN and infinities. Float/Fixed meets the laws with numbers in thousandths, and
-- the examples run on it.
--
-- Bounds and fuel: the loop over the pages of a query runs on fuel, one for each page, since the service
-- says how many there are; as much fuel as there are pages is enough. The loop over the attempts of a
-- metadata request runs on the budget of attempts. All other loops are structural. A history of a run
-- is a list, so what holds at the end of every list holds at every moment of a run.
--
-- Not modelled: the start of goroutines, tickers, contexts and the scheduler's hooks; the text of error
-- messages, which are parameters where they are shown; the OCI SDK; the flag parser, the HTTP servers,
-- signals and timers. The float parser of the standard library, the YAML and JSON decoders, the verbs of
-- fmt and the file system are parameters. The tools under cmd/agentscheck and hack/tools are no part of
-- the program.
pub mod Base
pub mod Float
pub mod Shape
pub mod Adapt
pub mod Est
pub mod Oci
pub mod Runtime
pub mod Imds
pub mod Metrics
pub mod Cgroup
pub mod Status
pub mod Program
