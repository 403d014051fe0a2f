-- ===== src/Program/Capacity.antt =====
-- cmd/shaper/pool_sizing.go: the worker pool that is sized from the shape of the instance.
use oci_cpu_shaper.Base.{
  ◌^◌, ◌≡◌, ◌⊎◌, inl, inr, refl, arith, Bool, true, false, Bool-cases, some, ok,
}
use oci_cpu_shaper.Base.Int.{ℤ, pos, ltb_ℤ, ◌≤ℤ◌}
use oci_cpu_shaper.Base.Text.{Text, text_eq, trim_space}
use oci_cpu_shaper.Float.{Float, IsFloat, ◌≼◌, ◌≺◌, nought}
use oci_cpu_shaper.Imds.Client.{ShapeConfig, Client}
use oci_cpu_shaper.Runtime.Settings.{RuntimeConfig}
use oci_cpu_shaper.Program.Options.{mode_noop}
use oci_cpu_shaper.Program.Sizing.{
  PoolSizingResult, derive_worker_count_from_ocpus, apply_pool_sizing_from_shape,
}

module _ {F : Type 0} ⦃d : Float F⦄ where
  -- Between 1 and 32 workers, as many as processors unless they are cut to 32.
  abbrev pub IsSized : F → ℤ × Bool × Bool → Type 0
  IsSized ocpus (workers, applied, capped) =
      (applied ≡ true)
      × (pos 1 ≤ℤ workers)
      × (workers ≤ℤ pos 32)
      × ((ocpus ≼ d.of_int workers) ⊎ ((workers ≡ pos 32) × (capped ≡ true)))

  module _ (laws : IsFloat F) where
    open laws use {refl_of_le, le_of_lt, lt-eq-not-le, of_int_le, ceil_bounds}

    derive-IsSized :
        (ocpus : F) (fallback : ℤ)
        → nought ≺ ocpus
        → ocpus ≼ d.of_int (pos (2 ^ 53))
        → IsSized ocpus (derive_worker_count_from_ocpus ocpus fallback)
    unfolding derive_worker_count_from_ocpus
    derive-IsSized ocpus fallback h k =
        let one : d.of_int (pos 1) ≼ d.of_int (pos 1) = of_int_le (pos 1) (pos 1) (omega arith) in
        let (zero_number, number) = refl_of_le nought ocpus (le_of_lt nought ocpus h) in
        let (one_number, _) = refl_of_le (d.of_int (pos 1)) (d.of_int (pos 1)) one in
        let below = lt-eq-not-le nought ocpus zero_number number in
        let small = lt-eq-not-le ocpus (d.of_int (pos 1)) number one_number in
        let positive : d.le ocpus nought ≡ false = ground (arith, below, h) in
        elim (Bool-cases (d.lt ocpus (d.of_int (pos 1)))) [
          | inl less ↦
              rw (derive_worker_count_from_ocpus, positive, less)
                (refl, omega arith, omega arith, inl (le_of_lt ocpus (d.of_int (pos 1)) less))
          | inr more ↦
              let least : d.of_int (pos 1) ≼ ocpus = ground (arith, small, more) in
              let (low, high) = ceil_bounds ocpus least k in
              elim (Bool-cases (ltb_ℤ (pos 32) (d.ceil ocpus))) [
                | inl cut ↦
                    rw (derive_worker_count_from_ocpus, positive, more, cut)
                      (refl, omega arith, omega arith, inr (refl, refl))
                | inr fits ↦
                    rw (derive_worker_count_from_ocpus, positive, more, fits)
                      (refl, low, ground arith, inl high)
              ]
        ]

    -- An online start that sizes its pool from a shape with a positive number of processors, up to
    -- 2^53, gives the pool between 1 and 32 workers: at least as many as processors, or 32 of them with
    -- the cap reported. Nothing else of the configuration changes.
    pub apply_pool_sizing-IsSized :
        {E : Type 0} (cfg : RuntimeConfig F) (mode : Text) (client : Client F E)
        (shape : ShapeConfig F)
        → cfg.pool.auto_size_from_shape ≡ true
        → text_eq (trim_space mode) mode_noop ≡ false
        → cfg.oci.offline ≡ false
        → client.shape_config ≡ ok shape
        → nought ≺ shape.ocpus
        → shape.ocpus ≼ d.of_int (pos (2 ^ 53))
        → (r : PoolSizingResult F) × (apply_pool_sizing_from_shape cfg mode (some client)
            ≡ ok (record cfg { pool = record (cfg.pool) { workers = r.workers } }, r))
          × IsSized shape.ocpus (r.workers, r.applied, r.capped)
    unfolding apply_pool_sizing_from_shape
    apply_pool_sizing-IsSized cfg mode client shape auto online live found h k =
        let derived = derive_worker_count_from_ocpus shape.ocpus cfg.pool.workers in
        let sized = derive-IsSized shape.ocpus cfg.pool.workers h k in
        (
          record {
            applied = derived.1;
            capped = derived.2;
            workers = derived.0;
            shape_ocpus = shape.ocpus;
          },
          simp (auto, online, live, found, sized.0),
          sized,
        )
