-- ===== src/Shape/Bounds.antt =====
-- The ranges of the fields of the pool, whatever its callers pass, and the budget of a tick.
use oci_cpu_shaper.Base.{◌≡◌, inl, inr, arith, false, ok, List, [], ◌∷◌, if◌then◌else◌, Bool-cases}
use mathlib.Core.Path.{subst}
use oci_cpu_shaper.Base.Int.{ℤ, pos, ◌≤ℤ◌, ◌<ℤ◌, ◌+ℤ◌, leb_ℤ}
use oci_cpu_shaper.Float.{
  nought-le-of_int, Float, IsFloat, IsNumber, IsFinite, ◌≼◌, nought, unity, is_nan,
}
use oci_cpu_shaper.Shape.Pool.{
  Pool, min_quantum, max_quantum, bound_quantum, clamp_unit, clean, set_target,
  set_pause_thresholds, set_runnable_guard, observe_host_load, blank_pool, new_pool,
}
use oci_cpu_shaper.Shape.Worker.{Action, busy, sleep, busy_duration, worker_tick}

-- The calls that other goroutines make on a pool.
pub data Op (F : Type 0) : Type 0 where
  target_to : F → Op F
  thresholds_to : F → F → Op F
  guard_to : F → Op F
  load_seen : F → F → Op F

-- What the actions of a tick add up to.
abbrev pub busy_total : List Action → ℤ
busy_total [] = pos 0
busy_total (busy t ∷ rest) = t +ℤ busy_total rest
busy_total (_ ∷ rest) = busy_total rest

abbrev pub sleep_total : List Action → ℤ
sleep_total [] = pos 0
sleep_total (sleep t ∷ rest) = t +ℤ sleep_total rest
sleep_total (_ ∷ rest) = sleep_total rest

module _ {F : Type 0} ⦃d : Float F⦄ where
  unfoldable pub apply_op : Op F → Pool F → Pool F
  apply_op (target_to t) p = set_target t p
  apply_op (thresholds_to pause resume) p = set_pause_thresholds pause resume p
  apply_op (guard_to threshold) p = set_runnable_guard threshold p
  apply_op (load_seen u r) p = observe_host_load u r p

  unfoldable pub apply_ops : List (Op F) → Pool F → Pool F
  apply_ops [] p = p
  apply_ops (op ∷ ops) p = apply_ops ops (apply_op op p)

  pub record IsValid (p : Pool F) : Type 0 where
    pub workers_positive : pos 0 <ℤ p.workers
    pub quantum_range : (pos min_quantum ≤ℤ p.quantum) × (p.quantum ≤ℤ pos max_quantum)
    pub target_range : (nought ≼ p.target) × (p.target ≼ unity)
    pub pause_range : (nought ≼ p.pause_threshold) × (p.pause_threshold ≼ unity)
    pub resume_range : (nought ≼ p.resume_threshold) × (p.resume_threshold ≼ p.pause_threshold)
    pub guard_sign : nought ≼ p.runnable_guard

  module _ (laws : IsFloat F) where
    open laws use {
      refl_of_le, le_trans, le_total, lt-eq-not-le, le_of_lt, eq-eq-le, milli_le, milli_not_inf,
      not_inf_between, of_int_le, of_int_not_inf, mul_nonneg, mul-le, trunc_bounds,
    }

    zero_one :
        let zero : F = nought in let one : F = unity in (zero ≼ zero) × (zero ≼ one) × (one ≼ one)
    zero_one = (
      milli_le 0 0 (omega arith),
      milli_le 0 1000 (omega arith),
      milli_le 1000 1000 (omega arith),
    )

    IsNumber-is_nan : (x : F) → is_nan x ≡ false → IsNumber x
    IsNumber-is_nan x e = ground (arith, eq-eq-le x x)

    clamp_unit_range : (x : F) → IsNumber x → (nought ≼ clamp_unit x) × (clamp_unit x ≼ unity)
    unfolding clamp_unit
    clamp_unit_range x n =
        let (zero, unit, one) = zero_one in
        ground (
          arith,
          zero,
          unit,
          one,
          lt-eq-not-le x nought n zero,
          lt-eq-not-le unity x one n,
          le_total x nought n zero,
          le_total unity x one n,
        )

    pub clean_range : (x : F) → (nought ≼ clean x) × (clean x ≼ unity)
    unfolding clean
    clean_range x = elim (Bool-cases (is_nan x)) [
      | inl e ↦ rw e (clamp_unit_range nought zero_one.0)
      | inr e ↦ rw e (clamp_unit_range x (IsNumber-is_nan x e))
    ]

    set_target-IsValid : (t : F) (p : Pool F) → IsValid p → IsValid (set_target t p)
    unfolding set_target
    set_target-IsValid t p v = ground (arith, clean_range t)

    set_pause_thresholds-IsValid :
        (pause resume : F) (p : Pool F) → IsValid p → IsValid (set_pause_thresholds pause resume p)
    unfolding set_pause_thresholds
    set_pause_thresholds-IsValid pause resume p v =
        let (low, high) = clean_range pause in
        let (low', high') = clean_range resume in
        let number = (refl_of_le _ _ low).1 in
        let number' = (refl_of_le _ _ low').1 in
        ground (
          arith,
          number,
          zero_one,
          lt-eq-not-le (clean pause) (clean resume) number number',
          le_total (clean pause) (clean resume) number number',
        )

    set_runnable_guard-IsValid : (x : F) (p : Pool F) → IsValid p → IsValid (set_runnable_guard x p)
    unfolding set_runnable_guard
    set_runnable_guard-IsValid x p v =
        let zero = zero_one.0 in
        ground (arith, zero, IsNumber-is_nan x, lt-eq-not-le x nought, le_total x nought)

    observe_host_load-IsValid :
        (u r : F) (p : Pool F) → IsValid p → IsValid (observe_host_load u r p)
    unfolding observe_host_load
    observe_host_load-IsValid u r p v = ground arith

    apply_op-IsValid : (op : Op F) (p : Pool F) → IsValid p → IsValid (apply_op op p)
    unfolding apply_op
    apply_op-IsValid (target_to t) p v = set_target-IsValid t p v
    apply_op-IsValid (thresholds_to pause resume) p v =
        set_pause_thresholds-IsValid pause resume p v
    apply_op-IsValid (guard_to x) p v = set_runnable_guard-IsValid x p v
    apply_op-IsValid (load_seen u r) p v = observe_host_load-IsValid u r p v

    apply_ops-IsValid : (ops : List (Op F)) (p : Pool F) → IsValid p → IsValid (apply_ops ops p)
    unfolding apply_ops
    apply_ops-IsValid [] p v = v
    apply_ops-IsValid (op ∷ ops) p v =
        apply_ops-IsValid ops (apply_op op p) (apply_op-IsValid op p v)

    blank_pool-IsValid :
        (workers quantum : ℤ) → pos 0 <ℤ workers → IsValid (blank_pool workers quantum)
    unfolding blank_pool bound_quantum
    blank_pool-IsValid workers quantum positive = let zero = zero_one in ground (arith, zero)

    new_pool-IsValid :
        (workers quantum : ℤ) {p : Pool F} → new_pool workers quantum ≡ ok p → IsValid p
    unfolding new_pool
    new_pool-IsValid workers quantum {p} e = elim (Bool-cases (leb_ℤ workers (pos 0))) [
      | inl bad ↦ ground arith
      | inr good ↦
          let blank = blank_pool-IsValid workers quantum (ground arith) in
          let built =
            set_pause_thresholds-IsValid nought nought _ (set_target-IsValid nought _ blank) in
          subst IsValid (ground arith) built
    ]

    -- Whatever worker count and quantum a pool is built with and whatever its setters are then given,
    -- NaN and infinities included: it has a worker, its quantum is 1 to 5 ms, target and pause
    -- threshold lie in [0, 1], the resume threshold does not exceed the pause threshold, and no
    -- threshold is negative.
    pub new_pool_stays-IsValid :
        (workers quantum : ℤ) (ops : List (Op F)) {p : Pool F}
        → new_pool workers quantum ≡ ok p
        → IsValid (apply_ops ops p)
    new_pool_stays-IsValid workers quantum ops e =
        apply_ops-IsValid ops _ (new_pool-IsValid workers quantum e)

    unit-IsFinite : (x : F) → nought ≼ x → x ≼ unity → IsFinite x
    unit-IsFinite x low high = (
      (refl_of_le _ _ low).1,
      not_inf_between nought x unity (milli_not_inf 0 (omega arith))
          (milli_not_inf 1000 (omega arith)) low high,
    )

    zero_le_quantum : (p : Pool F) → IsValid p → nought ≼ d.of_int p.quantum
    zero_le_quantum p v = nought-le-of_int laws p.quantum (omega arith)

    -- `busyDuration` lies between 0 and the quantum.
    busy_duration_bounds :
        (p : Pool F) → IsValid p → (pos 0 ≤ℤ busy_duration p) × (busy_duration p ≤ℤ p.quantum)
    unfolding busy_duration
    busy_duration_bounds p v =
        let q : F = d.of_int p.quantum in
        let whole : nought ≼ q = zero_le_quantum p v in
        let product : F = d.mul p.target q in
        let finite = unit-IsFinite p.target v.target_range.0 v.target_range.1 in
        let low =
          mul_nonneg p.target q finite ((refl_of_le _ _ whole).1, of_int_not_inf p.quantum)
            v.target_range.0 whole in
        let high =
          mul-le p.target q ((refl_of_le _ _ whole).1, of_int_not_inf p.quantum) v.target_range.0
            v.target_range.1 whole in
        ground (arith, trunc_bounds product p.quantum low high)

    -- At each tick a pool that is not paused is busy for 0 to one quantum and asleep for the rest of
    -- it, and a paused one sleeps the whole quantum.
    pub worker_tick_budget :
        (p : Pool F)
        → IsValid p
        → let actions = worker_tick p in
          (pos 0 ≤ℤ busy_total actions)
          × (busy_total actions ≤ℤ (if p.paused then pos 0 else p.quantum))
          × (busy_total actions +ℤ sleep_total actions ≡ p.quantum)
    unfolding worker_tick
    worker_tick_budget p v = ground (arith, busy_duration_bounds p v)
