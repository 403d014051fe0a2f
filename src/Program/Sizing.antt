-- ===== src/Program/Sizing.antt =====
-- cmd/shaper/pool_sizing.go: the number of workers from the shape of the instance.
use oci_cpu_shaper.Base.{
  Bool, true, false, ◌||◌, if◌then◌else◌, Option, none, some, Result, ok, err, List, [], ◌∷◌,
}
use oci_cpu_shaper.Base.Int.{ℤ, pos, ltb_ℤ}
use oci_cpu_shaper.Base.Text.{Text, codes, text_eq, trim_space}
use oci_cpu_shaper.Float.{Float, nought}
use oci_cpu_shaper.Imds.Client.{Client}
use oci_cpu_shaper.Runtime.Settings.{RuntimeConfig}
use oci_cpu_shaper.Program.Options.{mode_noop}
use oci_cpu_shaper.Program.Log.{Entry, float, int, bool, info}

abbrev pub min_auto_sized_workers : ℤ
min_auto_sized_workers = pos 1

abbrev pub max_auto_sized_workers : ℤ
max_auto_sized_workers = pos 32

pub record PoolSizingResult (F : Type 0) : Type 0 where
  pub applied : Bool
  pub capped : Bool
  pub workers : ℤ
  pub shape_ocpus : F

pub data SizingError (E : Type 0) : Type 0 where
  imds_required : SizingError E
  shape_lookup : E → SizingError E

module _ {F : Type 0} ⦃d : Float F⦄ where
  open d use {lt, le, ceil, of_int}

  -- The number of workers, whether it is applied, and whether it is capped.
  unfoldable pub derive_worker_count_from_ocpus : F → ℤ → ℤ × Bool × Bool
  derive_worker_count_from_ocpus ocpus fallback =
      if le ocpus nought
      then (fallback, false, false)
      else let small = lt ocpus (of_int min_auto_sized_workers) in
        let workers = if small then min_auto_sized_workers else ceil ocpus in
        let large = ltb_ℤ max_auto_sized_workers workers in
        (if large then max_auto_sized_workers else workers, true, small || large)

  unfoldable pub apply_pool_sizing_from_shape :
      {E : Type 0}
      → RuntimeConfig F
      → Text
      → Option (Client F E)
      → Result (SizingError E) (RuntimeConfig F × PoolSizingResult F)
  unfolding derive_worker_count_from_ocpus text_eq trim_space
  apply_pool_sizing_from_shape cfg mode client =
      let pool = cfg.pool in
      let empty : PoolSizingResult F = record {
        applied = false;
        capped = false;
        workers = pool.workers;
        shape_ocpus = nought;
      } in
      if pool.auto_size_from_shape
      then if text_eq (trim_space mode) mode_noop || cfg.oci.offline
        then ok (cfg, empty)
        else elim client [
          | none ↦ err imds_required
          | some c ↦ elim c.shape_config [
            | err e ↦ err (shape_lookup e)
            | ok shape ↦
                let (workers, applied, capped) =
                  derive_worker_count_from_ocpus shape.ocpus pool.workers in
                ok (
                  if applied then record cfg { pool = record pool { workers = workers } } else cfg,
                  record {
                    applied = applied;
                    capped = capped;
                    workers = workers;
                    shape_ocpus = shape.ocpus;
                  },
                )
          ]
        ]
      else ok (cfg, empty)

  -- `logPoolSizing` with a logger.
  unfoldable pub log_pool_sizing : PoolSizingResult F → List (Entry F)
  log_pool_sizing r =
      if r.applied
      then record {
        level = info;
        message = codes "sized worker pool from shape config";
        fields =
            float (codes "shapeOCPUs") r.shape_ocpus
            ∷ int (codes "workerCount") r.workers
            ∷ int (codes "workerCapMin") min_auto_sized_workers
            ∷ int (codes "workerCapMax") max_auto_sized_workers
            ∷ (if r.capped then bool (codes "capped") true ∷ [] else []);
      }
        ∷ []
      else []
