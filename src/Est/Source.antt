-- ===== src/Est/Source.antt =====
-- pkg/est/sampler.go: the source that reads /proc/stat, and the sampler as it is made and started. The
-- file, the context and the clock are parameters; `describe` is the message of an error.
use oci_cpu_shaper.Base.{
  ℕ, Bool, true, false, if◌then◌else◌, Option, none, some, Result, ok, err, List, [],
}
use oci_cpu_shaper.Base.Int.{ℤ, pos, leb_ℤ}
use oci_cpu_shaper.Base.Text.{Text, codes, is_empty}
use oci_cpu_shaper.Float.{Float}
use oci_cpu_shaper.Est.Sampler.{
  Snapshot, Observation, StatError, SamplerEvent, parse_cpu_stat, error_observation, deliver,
  start_sampling,
}

pub data SourceError : Type 0 where
  context_done : Text → SourceError
  open_failed : Text → Text → SourceError
  parse_failed : Text → StatError → SourceError
  close_failed : Text → Text → SourceError

-- An open file: its lines, the error of the scanner and that of `Close`.
pub record StatFile : Type 0 where
  pub lines : List Text
  pub scan_error : Option Text
  pub close_error : Option Text

-- `FileSource.Snapshot` of a path, once the file is open.
unfoldable pub snapshot_of_file : Text → StatFile → Result SourceError Snapshot
unfolding parse_cpu_stat
snapshot_of_file path file = elim (parse_cpu_stat file.lines file.scan_error) [
  | err e ↦ err (parse_failed path e)
  | ok snapshot ↦ elim file.close_error [ some e ↦ err (close_failed path e) | none ↦ ok snapshot ]
]

unfoldable pub file_snapshot :
    Option Text → (Text → Result Text StatFile) → Text → Result SourceError Snapshot
unfolding is_empty snapshot_of_file
file_snapshot (some e) open_file path = err (context_done e)
file_snapshot none open_file path =
    let named = if is_empty path then codes "/proc/stat" else path in
    elim (open_file named) [
      | err e ↦ err (open_failed named e)
      | ok file ↦ snapshot_of_file named file
    ]

abbrev pub default_interval : ℤ
default_interval = pos 1_000_000_000

pub record SamplerState : Type 0 where
  pub interval : ℤ
  pub started : Bool

-- `NewSampler`.
unfoldable pub new_sampler : ℤ → SamplerState
new_sampler interval = record {
  interval = if leb_ℤ interval (pos 0) then default_interval else interval;
  started = false;
}

module _ {F : Type 0} ⦃d : Float F⦄ where
  -- `Run`: what is delivered on the channel before it is closed.
  unfoldable pub run_sampler :
      SamplerState
      → ℤ
      → ℕ
      → Result Text Snapshot
      → Bool
      → List SamplerEvent
      → List (Observation F) × SamplerState
  unfolding error_observation start_sampling
  run_sampler s cpus now first received events =
      if s.started
      then (deliver received (error_observation now (codes "est: sampler already started")) [], s)
      else (start_sampling cpus now first received events, record s { started = true })
