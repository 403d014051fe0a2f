-- ===== src/Cgroup/Examples.antt =====
-- A process in the slice of a container: one hierarchy of version 1, then version 2.
use oci_cpu_shaper.Base.{
  ◌≡◌, refl, arith, true, false, if◌then◌else◌, none, some, ok, err, [], ◌∷◌, ◌++◌,
}
use oci_cpu_shaper.Base.Text.{Text, codes, text_eq, is_space, is_empty, trim_space}
use oci_cpu_shaper.Base.Text.Words.{IsWord}
use oci_cpu_shaper.Cgroup.{
  FileSystem, Reader, Cpu, detect, build_controller_path, without_slash, or_default,
}
use oci_cpu_shaper.Cgroup.Contents.{weight_text, max_text}
use oci_cpu_shaper.Cgroup.Detection.{Entry, IsLegacy, detect-unified}
use oci_cpu_shaper.Cgroup.Soundness.{IsSoundWeight, IsSoundMax, detect-IsSound}

abbrev slice : Text
slice = codes "/app"

abbrev legacy : Entry
legacy = record { hierarchy = codes "3"; controllers = codes "cpu"; path = codes "/a" }

abbrev join : Text → Text → Text → Text
join root rel file = root ++ (b'/' ∷ (rel ++ (b'/' ∷ file)))

abbrev weight_file : Text
weight_file = codes "/sys/fs/cgroup/app/cpu.weight"

abbrev max_file : Text
max_file = codes "/sys/fs/cgroup/app/cpu.max"

abbrev files : FileSystem
unfolding text_eq
files = record {
  read_file = λ path.
      if text_eq path weight_file
      then ok (weight_text 100)
      else if text_eq path max_file
      then ok (max_text (some 50_000) 100_000)
      else err (codes "no such file");
  scan_lines = λ path. ok (codes "3:cpu:/a" ∷ (codes "0::/app" ∷ []), none);
  join = join;
}

abbrev reader : Reader
reader = record { proc_path = []; root_path = [] }

legacy-IsLegacy : IsLegacy legacy
unfolding is_space is_empty
legacy-IsLegacy = record {
  hierarchy_word = (refl, tt);
  hierarchy_apart = (refl, tt);
  controllers_word = (refl, (refl, (refl, tt)));
  controllers_apart = (refl, (refl, (refl, tt)));
  controllers_some = refl;
  path_word = (refl, (refl, tt));
}

slice-IsWord : IsWord slice
unfolding is_space
slice-IsWord = (refl, (refl, (refl, (refl, tt))))

slice-nonempty : is_empty slice ≡ false
unfolding is_empty
slice-nonempty = refl

abbrev found : Cpu
found = record {
  path = slice;
  weight = record { path = weight_file; value = 100; available = true; failure = none };
  max = record {
    path = max_file;
    quota = 50_000;
    period = 100_000;
    unlimited = false;
    available = true;
    failure = none;
  };
}

detect-unified_example : detect files reader ≡ ok found
unfolding files or_default build_controller_path without_slash trim_space is_empty text_eq
detect-unified_example =
    detect-unified files reader (legacy ∷ []) slice [] none 100 (some 50_000) 100_000
      (legacy-IsLegacy, tt) slice-IsWord slice-nonempty (omega arith) (omega arith) (omega arith)
      refl refl refl

detect-IsSound_example : IsSoundWeight found.weight × IsSoundMax found.max
detect-IsSound_example = detect-IsSound files reader detect-unified_example
