-- ===== src/Shape/Pool.antt =====
-- pkg/shape/pool.go and pause.go: the pool's atomic fields and the functions that write them. A field
-- of bits holds the float itself. Tickers, callbacks and the scheduler hook are left out.
use oci_cpu_shaper.Base.{
  ℕ, Bool, true, false, ◌||◌, ◌&&◌, if◌then◌else◌, Option, none, some, Result, ok, err,
}
use oci_cpu_shaper.Base.Int.{ℤ, pos, leb_ℤ, ltb_ℤ}
use oci_cpu_shaper.Float.{Float, nought, unity, is_nan}

pub record Pool (F : Type 0) : Type 0 where
  pub workers : ℤ
  pub quantum : ℤ
  pub target : F
  pub pause_threshold : F
  pub resume_threshold : F
  pub runnable_guard : F
  pub paused : Bool

pub data PoolError : Type 0 where
  invalid_worker_count : PoolError

-- Nanoseconds.
abbrev pub default_quantum : ℕ
default_quantum = 1_000_000

abbrev pub min_quantum : ℕ
min_quantum = 1_000_000

abbrev pub max_quantum : ℕ
max_quantum = 5_000_000

unfoldable pub bound_quantum : ℤ → ℤ
bound_quantum quantum =
    let q = if leb_ℤ quantum (pos 0) then pos default_quantum else quantum in
    let q' = if ltb_ℤ q (pos min_quantum) then pos min_quantum else q in
    if ltb_ℤ (pos max_quantum) q' then pos max_quantum else q'

module _ {F : Type 0} ⦃d : Float F⦄ where
  open d use {lt, le, eq, is_inf}

  -- A value outside [0, 1] is moved to the nearer end.
  unfoldable pub clamp_unit : F → F
  clamp_unit x = if lt x nought then nought else if lt unity x then unity else x

  -- What the setters make of an argument: 0 for NaN, and a value in [0, 1].
  unfoldable pub clean : F → F
  clean x = clamp_unit (if is_nan x then nought else x)

  unfoldable pub set_target : F → Pool F → Pool F
  set_target target pool = record pool { target = clean target }

  unfoldable pub set_pause_thresholds : F → F → Pool F → Pool F
  set_pause_thresholds pause resume pool =
      let pause' = clean pause in
      let resume' = clean resume in
      if eq pause' nought
      then record pool { pause_threshold = pause'; resume_threshold = nought; paused = false }
      else record pool {
        pause_threshold = pause';
        resume_threshold = if lt pause' resume' then pause' else resume';
      }

  unfoldable pub set_runnable_guard : F → Pool F → Pool F
  set_runnable_guard threshold pool = record pool {
    runnable_guard =
        if is_nan threshold || is_inf threshold || lt threshold nought then nought else threshold;
  }

  unfoldable pub normalise_utilisation : F → Option F
  unfolding clamp_unit
  normalise_utilisation utilisation =
      if is_nan utilisation || is_inf utilisation then none else some (clamp_unit utilisation)

  unfoldable pub normalise_runnable : F → F
  normalise_runnable runnable =
      if is_nan runnable || is_inf runnable
      then nought
      else if lt runnable nought
      then nought
      else runnable

  unfoldable pub runnable_guard_hit : Pool F → F → Bool
  runnable_guard_hit pool runnable =
      lt nought pool.runnable_guard && le pool.runnable_guard runnable

  -- `observeHostLoad` once the utilisation is known to be a number.
  unfoldable pub observe_utilisation : F → F → Pool F → Pool F
  unfolding normalise_runnable runnable_guard_hit
  observe_utilisation utilisation runnable pool =
      if runnable_guard_hit pool (normalise_runnable runnable)
      then record pool { paused = true }
      else if le pool.pause_threshold nought
      then record pool { paused = false }
      else if le pool.pause_threshold utilisation
      then record pool { paused = true }
      else if le utilisation pool.resume_threshold
      then record pool { paused = false }
      else pool

  unfoldable pub observe_host_load : F → F → Pool F → Pool F
  unfolding normalise_utilisation observe_utilisation
  observe_host_load utilisation runnable pool = elim (normalise_utilisation utilisation) [
    | none ↦ pool
    | some u ↦ observe_utilisation u runnable pool
  ]

  -- The struct with its counts set; the zero value of a field of bits is the float 0.
  unfoldable pub blank_pool : ℤ → ℤ → Pool F
  blank_pool workers quantum = record {
    workers = workers;
    quantum = bound_quantum quantum;
    target = nought;
    pause_threshold = nought;
    resume_threshold = nought;
    runnable_guard = nought;
    paused = false;
  }

  unfoldable pub new_pool : ℤ → ℤ → Result PoolError (Pool F)
  new_pool workers quantum =
      if leb_ℤ workers (pos 0)
      then err invalid_worker_count
      else ok (set_pause_thresholds nought nought (set_target nought (blank_pool workers quantum)))
