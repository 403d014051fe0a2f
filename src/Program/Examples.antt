-- ===== src/Program/Examples.antt =====
-- Starts of the program: offline, with a shape of 48 processors, and with a logger.
use oci_cpu_shaper.Base.{ℕ, ◌≡◌, refl, true, none, some, Result, ok, err, List, [], ◌∷◌}
use oci_cpu_shaper.Base.Int.{pos}
use oci_cpu_shaper.Base.Text.{Text, codes, text_eq, trim_space}
use oci_cpu_shaper.Float.Fixed.{Fixed, fixed_float, Fixed-IsFloat}
use oci_cpu_shaper.Adapt.Controller.{Call, set_mode, set_last_error, observe_host_cpu}
use oci_cpu_shaper.Imds.Client.{ShapeConfig, Client}
use oci_cpu_shaper.Runtime.Settings.{RuntimeConfig, default_runtime}
use oci_cpu_shaper.Program.Startup.{prepare_controller}
use oci_cpu_shaper.Program.Offline.{prepare_controller-offline}
use oci_cpu_shaper.Program.Sizing.{PoolSizingResult, apply_pool_sizing_from_shape}
use oci_cpu_shaper.Program.Capacity.{IsSized, apply_pool_sizing-IsSized}
use oci_cpu_shaper.Program.Transparency.{Remembers, logged, unlogged, logged-Remembers}

abbrev flexible : ShapeConfig Fixed
flexible = record {
  ocpus = some (pos 48_000);
  memory_in_gbs = some (pos 64_000);
  baseline_ocpu_utilization = [];
  baseline_ocpus = some (pos 0);
  threads_per_core = pos 2;
  networking_bandwidth_in_gbps = some (pos 4000);
  max_vnic_attachments = pos 4;
}

abbrev answering : Client Fixed Text
answering = record {
  region = (codes "phx", none);
  canonical_region = (codes "us-phoenix-1", none);
  instance_id = (codes "ocid1.instance", none);
  compartment_id = (codes "ocid1.compartment", none);
  shape_config = ok flexible;
}

abbrev silent : Client Fixed Text
silent = record {
  region = ([], some (codes "timeout"));
  canonical_region = ([], some (codes "timeout"));
  instance_id = ([], some (codes "timeout"));
  compartment_id = ([], some (codes "timeout"));
  shape_config = err (codes "timeout");
}

abbrev reaching : Text → Text → Result Text Text
reaching compartment region = ok region

abbrev failing : Text → Text → Result Text Text
failing compartment region = err (codes "no principal")

abbrev offline : RuntimeConfig Fixed
unfolding default_runtime
offline = record default_runtime {
  oci = record { compartment_id = []; region = []; instance_id = []; offline = true };
}

stays_offline : offline.oci.offline ≡ true
unfolding offline
stays_offline = refl

prepare_controller-offline_example :
    prepare_controller reaching offline (some answering) (codes "enforce") none
    ≡ prepare_controller failing offline (some silent) (codes "enforce") none
prepare_controller-offline_example =
    prepare_controller-offline answering silent reaching failing offline (codes "enforce") none
      stays_offline

abbrev automatic : RuntimeConfig Fixed
unfolding default_runtime
automatic = record default_runtime {
  pool = record {
    workers = pos 2;
    auto_size_from_shape = true;
    quantum = pos 1_000_000;
    pause_threshold = some (pos 800);
    resume_threshold = some (pos 680);
    runnable_guard = some (pos 1200);
  };
}

apply_pool_sizing-IsSized_example :
    (r : PoolSizingResult Fixed) × (apply_pool_sizing_from_shape automatic
        (codes "enforce")
        (some answering)
      ≡ ok (record automatic { pool = record (automatic.pool) { workers = r.workers } }, r))
    × IsSized (some (pos 48_000)) (r.workers, r.applied, r.capped)
unfolding automatic default_runtime text_eq trim_space
apply_pool_sizing-IsSized_example =
    apply_pool_sizing-IsSized Fixed-IsFloat automatic (codes "enforce") answering flexible refl refl
      refl refl refl refl

abbrev calls : List (ℕ × Call Fixed)
calls =
    (9_000_000_000, observe_host_cpu (some (pos 250)))
    ∷ (8_000_000_000, set_last_error (some (codes " ")))
    ∷ (7_000_000_000, set_mode (codes " dry-run"))
    ∷ []

logged-Remembers_example : let (r, e) = logged calls in (e ≡ unlogged calls) × Remembers r e
logged-Remembers_example = logged-Remembers calls
