-- ===== src/Shape/Hooks.antt =====
-- pkg/shape/pool.go, worker.go, pool_rootful.go and pool_worker_hook_rootful.go: the hook that puts a
-- worker under SCHED_IDLE, and the handler of its errors. The system calls are parameters; a rootful
-- build has the hook.
use oci_cpu_shaper.Base.{
  Bool, true, false, if◌then◌else◌, Option, none, some, Result, ok, err, List, [], ◌∷◌,
}
use oci_cpu_shaper.Base.Text.{Text, codes}

-- `trySchedIdle`: the error, if any. The setter may be nil; `capability` is whether the process has
-- CAP_SYS_NICE.
unfoldable pub try_sched_idle : Option (Option Text) → Result Text Bool → Option Text
try_sched_idle none capability = none
try_sched_idle (some (some e)) capability = some e
try_sched_idle (some none) (err e) = some e
try_sched_idle (some none) (ok true) = none
try_sched_idle (some none) (ok false) = some (codes "operation not permitted")

-- The fields of a pool that the hook concerns, and the errors that the installed handler, if it is not
-- the default, was called with, the latest first.
pub record Hooks : Type 0 where
  pub worker_start_hook : Bool
  pub handler_installed : Bool
  pub rootful_init_error : Option Text
  pub handled : List Text

-- `workerStartErrorHandler(err)`; the default handler does nothing.
unfoldable pub handle_start_error : Text → Hooks → Hooks
handle_start_error e h = if h.handler_installed then record h { handled = e ∷ h.handled } else h

-- The end of `NewPool`: the hook is tried, and installed in a rootful build where it did not fail.
unfoldable pub new_hooks : Bool → Option Text → Hooks
new_hooks rootful failure = record {
  worker_start_hook = elim failure [ some e ↦ false | none ↦ rootful ];
  handler_installed = false;
  rootful_init_error = failure;
  handled = [];
}

-- `SetWorkerStartErrorHandler`: whether the handler is not nil.
unfoldable pub set_worker_start_error_handler : Bool → Hooks → Hooks
unfolding handle_start_error
set_worker_start_error_handler given h =
    let installed = record h { handler_installed = given } in
    elim h.rootful_init_error [
      | none ↦ installed
      | some e ↦ record (handle_start_error e installed) { rootful_init_error = none }
    ]

-- The start of a worker, before its loop; `failure` is the error that the hook returns.
unfoldable pub start_worker : Option Text → Hooks → Hooks
unfolding handle_start_error
start_worker failure h =
    if h.worker_start_hook then elim failure [ none ↦ h | some e ↦ handle_start_error e h ] else h
