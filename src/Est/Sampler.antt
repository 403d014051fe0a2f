-- ===== src/Est/Sampler.antt =====
-- pkg/est/sampler.go: the parser of /proc/stat, the observation made of two snapshots, and the sampling
-- goroutine over the events that it selects on. A file is the lines that its scanner yields, with the
-- error that ends them, if any; a counter is a uint64.
use oci_cpu_shaper.Base.{
  ℕ, ◌+◌, ◌-◌, ◌%◌, ◌^◌, Bool, true, false, not, ◌&&◌, ◌||◌, if◌then◌else◌, Option, none, some,
  Result, ok, err, List, [], ◌∷◌, ltb, leb, ◌==◌, length,
}
use oci_cpu_shaper.Base.Int.{ℤ, pos, ltb_ℤ}
use oci_cpu_shaper.Base.Text.{Text, codes, text_eq, has_prefix, fields, NumError, parse_uint}
use oci_cpu_shaper.Float.{Float, nought, unity}

pub record Snapshot : Type 0 where
  pub idle : ℕ
  pub total : ℕ
  pub runnable : ℕ

pub record Observation (F : Type 0) : Type 0 where
  pub timestamp : ℕ
  pub utilisation : F
  pub runnable : F
  pub busy_jiffies : ℕ
  pub total_jiffies : ℕ
  pub failure : Option Text

pub data StatError : Type 0 where
  eof : StatError
  scan_failed : Text → StatError
  unexpected_format : StatError
  too_short : StatError
  bad_field : ℕ → NumError → StatError
  bad_runnable : NumError → StatError

abbrev pub minimum_cpu_fields : ℕ
minimum_cpu_fields = 5

abbrev pub idle_field_index : ℕ
idle_field_index = 3

abbrev pub io_wait_field_index : ℕ
io_wait_field_index = 4

abbrev pub add_u64 : ℕ → ℕ → ℕ
add_u64 a b = (a + b) % 2 ^ 64

-- The loop over `fields[1:]`, at `index` with the sums so far.
unfoldable pub sum_fields : ℕ → ℕ → ℕ → List Text → Result StatError (ℕ × ℕ)
sum_fields index idle total [] = ok (idle, total)
sum_fields index idle total (field ∷ rest) = elim (parse_uint field) [
  | err e ↦ err (bad_field (index + 1) e)
  | ok value ↦
      sum_fields (index + 1)
        (if index == idle_field_index || index == io_wait_field_index
          then add_u64 idle value
          else idle)
        (add_u64 total value) rest
]

abbrev pub drop_first : List Text → List Text
drop_first [] = []
drop_first (x ∷ xs) = xs

unfoldable pub parse_cpu_line : Text → Result StatError (ℕ × ℕ)
unfolding has_prefix
parse_cpu_line line =
    if not (has_prefix line (codes "cpu "))
    then err unexpected_format
    else if ltb (length (fields line)) minimum_cpu_fields
    then err too_short
    else sum_fields 0 0 0 (drop_first (fields line))

-- A line's number of runnable tasks, if it is the line for it: two fields, the first `procs_running`.
unfoldable pub runnable_field : List Text → Option Text
unfolding text_eq
runnable_field (name ∷ value ∷ []) =
    if text_eq name (codes "procs_running") then some value else none
runnable_field _ = none

unfoldable pub parse_runnable_count : List Text → Option Text → Result StatError ℕ
unfolding runnable_field fields parse_uint
parse_runnable_count [] none = ok 0
parse_runnable_count [] (some e) = err (scan_failed e)
parse_runnable_count (line ∷ rest) failure = elim (runnable_field (fields line)) [
  | none ↦ parse_runnable_count rest failure
  | some value ↦ elim (parse_uint value) [ err e ↦ err (bad_runnable e) | ok n ↦ ok n ]
]

unfoldable pub parse_cpu_stat : List Text → Option Text → Result StatError Snapshot
parse_cpu_stat [] none = err eof
parse_cpu_stat [] (some e) = err (scan_failed e)
parse_cpu_stat (line ∷ rest) failure = elim (parse_cpu_line line) [
  | err e ↦ err e
  | ok (idle, total) ↦ elim (parse_runnable_count rest failure) [
    | err e ↦ err e
    | ok n ↦ ok (record { idle = idle; total = total; runnable = n })
  ]
]

-- Both are uint64, so `-` on ℕ is exact.
unfoldable pub diff_counter : ℕ → ℕ → ℕ
diff_counter previous current = if leb previous current then current - previous else 0

-- What the loop selects on: the context, or a tick at a time with the snapshot that it takes. The flag
-- says whether the consumer receives the observation before the context is cancelled.
pub data SamplerEvent : Type 0 where
  done : SamplerEvent
  tick : ℕ → Result Text Snapshot → Bool → SamplerEvent

module _ {F : Type 0} ⦃d : Float F⦄ where
  open d use {lt, div, of_int}

  unfoldable pub clamp_utilisation : F → F
  clamp_utilisation u = if lt u nought then nought else if lt unity u then unity else u

  unfoldable pub build_observation : ℕ → Snapshot → Snapshot → ℤ → Observation F
  unfolding diff_counter
  build_observation timestamp previous current cpu_count =
      let total_delta = diff_counter previous.total current.total in
      let idle_delta = diff_counter previous.idle current.idle in
      let counted = ltb 0 total_delta && leb idle_delta total_delta in
      let busy_delta = if counted then total_delta - idle_delta else 0 in
      record {
        timestamp = timestamp;
        utilisation =
            if counted
            then clamp_utilisation (div (of_int (pos busy_delta)) (of_int (pos total_delta)))
            else nought;
        runnable =
            if ltb_ℤ (pos 0) cpu_count
            then div (of_int (pos current.runnable)) (of_int cpu_count)
            else nought;
        busy_jiffies = busy_delta;
        total_jiffies = total_delta;
        failure = none;
      }

  -- What `publishError` sends.
  unfoldable pub error_observation : ℕ → Text → Observation F
  error_observation timestamp e = record {
    timestamp = timestamp;
    utilisation = nought;
    runnable = nought;
    busy_jiffies = 0;
    total_jiffies = 0;
    failure = some e;
  }

  abbrev pub deliver : Bool → Observation F → List (Observation F) → List (Observation F)
  deliver true o rest = o ∷ rest
  deliver false o rest = rest

  -- The observations on the channel, in order; the list of events ends where the run is looked at.
  unfoldable pub sample_loop : ℤ → Snapshot → List SamplerEvent → List (Observation F)
  unfolding build_observation error_observation
  sample_loop cpus last [] = []
  sample_loop cpus last (done ∷ rest) = []
  sample_loop cpus last (tick now (err e) received ∷ rest) =
      deliver received (error_observation now e) (sample_loop cpus last rest)
  sample_loop cpus last (tick now (ok snap) received ∷ rest) =
      let after = sample_loop cpus snap rest in
      if received then build_observation now last snap cpus ∷ after else []

  -- `startSampling`: the first snapshot is the base of the first observation.
  unfoldable pub start_sampling :
      ℤ → ℕ → Result Text Snapshot → Bool → List SamplerEvent → List (Observation F)
  unfolding sample_loop
  start_sampling cpus now (err e) received events = deliver received (error_observation now e) []
  start_sampling cpus now (ok first) received events = sample_loop cpus first events
