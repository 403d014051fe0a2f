-- ===== src/Status.antt =====
-- pkg/http/status/handler.go: the answer of /healthz. `json.Marshal` and the messages of errors are
-- parameters.
pub mod Agreement
mod Examples
use oci_cpu_shaper.Base.{ℕ, Bool, if◌then◌else◌, Option, none, some, Result, ok, err, or_else, []}
use oci_cpu_shaper.Base.Text.{Text, codes, trim_space, is_empty, is_space}
use oci_cpu_shaper.Cgroup.{CgroupError, Weight, Max, Cpu}
use oci_cpu_shaper.Adapt.Config.{noop_mode_label}
use oci_cpu_shaper.Adapt.Controller.{Controller, State, normal, state_string}

-- What the handler asks of a controller: the results of the interface's methods.
pub record ControllerStatus : Type 0 where
  pub mode : Text
  pub state : State
  pub last_error : Option Text
  pub last_estimator_error : Option Text

-- The adaptive controller and the one that does nothing.
unfoldable pub adaptive_status : {F : Type 0} → Controller F → ControllerStatus
adaptive_status c = record {
  mode = c.mode;
  state = c.state;
  last_error = c.last_err;
  last_estimator_error = c.last_est_err;
}

unfoldable pub noop_status : Text → ControllerStatus
unfolding trim_space is_empty
noop_status mode =
    let trimmed = trim_space mode in
    record {
      mode = if is_empty trimmed then noop_mode_label else trimmed;
      state = normal;
      last_error = none;
      last_estimator_error = none;
    }

pub record CgroupValue : Type 0 where
  pub value : Option ℕ
  pub error : Text

pub record CgroupMaxSnapshot : Type 0 where
  pub quota : Option ℕ
  pub period : Option ℕ
  pub unlimited : Option Bool
  pub error : Text

pub record CgroupSnapshot : Type 0 where
  pub path : Text
  pub cpu_weight : Option CgroupValue
  pub cpu_max : Option CgroupMaxSnapshot

pub record Snapshot : Type 0 where
  pub mode : Text
  pub state : Text
  pub last_oci_error : Text
  pub estimator_error : Text
  pub cgroup : Option CgroupSnapshot

-- What is written: a status, and the body of an error or of the answer.
pub data Answer : Type 0 where
  failed : ℕ → Text → Answer
  json : Text → Answer

module _ (describe : CgroupError → Text) where
  unfoldable pub weight_snapshot : Weight → Option CgroupValue
  weight_snapshot w = elim w.failure [
    | some e ↦ some (record { value = none; error = describe e })
    | none ↦ if w.available then some (record { value = some w.value; error = [] }) else none
  ]

  unfoldable pub max_snapshot : Max → Option CgroupMaxSnapshot
  max_snapshot m = elim m.failure [
    | some e ↦ some (record { quota = none; period = none; unlimited = none; error = describe e })
    | none ↦
        if m.available
        then some (record {
          quota = if m.unlimited then none else some m.quota;
          period = some m.period;
          unlimited = some m.unlimited;
          error = [];
        })
        else none
  ]

  unfoldable pub build_cgroup_snapshot : Option Cpu → Option CgroupSnapshot
  unfolding weight_snapshot max_snapshot trim_space
  build_cgroup_snapshot none = none
  build_cgroup_snapshot (some info) = some (record {
    path = trim_space info.path;
    cpu_weight = weight_snapshot info.weight;
    cpu_max = max_snapshot info.max;
  })

  unfoldable pub snapshot_of : ControllerStatus → Option Cpu → Snapshot
  unfolding build_cgroup_snapshot trim_space
  snapshot_of c info = record {
    mode = trim_space c.mode;
    state = state_string c.state;
    last_oci_error = or_else c.last_error [];
    estimator_error = or_else c.last_estimator_error [];
    cgroup = build_cgroup_snapshot info;
  }

  unfoldable pub serve_http :
      (Snapshot → Result Text Text) → Option ControllerStatus → Option Cpu → Answer
  unfolding snapshot_of
  serve_http marshal none info = failed 503 (codes "controller unavailable")
  serve_http marshal (some c) info = elim (marshal (snapshot_of c info)) [
    | err e ↦ failed 500 (codes "marshal status")
    | ok payload ↦ json payload
  ]
