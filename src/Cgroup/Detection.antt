-- ===== src/Cgroup/Detection.antt =====
-- pkg/cgroup/cgroup.go: what `Detect` finds on a system with version 2 of the control groups.
use oci_cpu_shaper.Base.{
  ℕ, ◌^◌, ◌<◌, ◌≡◌, refl, true, false, Option, none, some, ok, List, [], ◌∷◌, ◌++◌, map, ◌==◌,
}
use oci_cpu_shaper.Base.Text.{Text, codes, is_empty, is_space}
use oci_cpu_shaper.Base.Text.Words.{IsWord}
use oci_cpu_shaper.Base.Text.Trimming.{append-IsWord, append-nonempty, trim_space-word}
use oci_cpu_shaper.Cgroup.{
  FileSystem, Reader, default_proc_self_cgroup, default_cgroup_root, cpu_weight_file, cpu_max_file,
  cut_colon, three_parts, line_path, first_path, or_default, read_self_cgroup,
  build_controller_path, detect,
}
use oci_cpu_shaper.Cgroup.Contents.{
  weight_text, max_text, IsLimit, max_record, read_weight-kernel, read_max-kernel,
}

-- A line of /proc/self/cgroup, as proc(5) describes it.
pub record Entry : Type 0 where
  pub hierarchy : Text
  pub controllers : Text
  pub path : Text

abbrev pub entry_line : Entry → Text
entry_line e = e.hierarchy ++ (b':' ∷ (e.controllers ++ (b':' ∷ e.path)))

abbrev pub NoColon : Text → Type 0
NoColon [] = Unit
NoColon (c ∷ s) = ((c == b':') ≡ false) × NoColon s

-- A version 1 hierarchy: its number, its controllers and a path.
pub record IsLegacy (e : Entry) : Type 0 where
  pub hierarchy_word : IsWord e.hierarchy
  pub hierarchy_apart : NoColon e.hierarchy
  pub controllers_word : IsWord e.controllers
  pub controllers_apart : NoColon e.controllers
  pub controllers_some : is_empty e.controllers ≡ false
  pub path_word : IsWord e.path

abbrev pub AreLegacy : List Entry → Type 0
AreLegacy [] = Unit
AreLegacy (e ∷ rest) = IsLegacy e × AreLegacy rest

-- The entry of version 2.
abbrev pub unified : Text → Entry
unified path = record { hierarchy = codes "0"; controllers = []; path = path }

cut_colon-apart : (s t : Text) → NoColon s → cut_colon (s ++ (b':' ∷ t)) ≡ some (s, t)
unfolding cut_colon
cut_colon-apart [] t h = refl
cut_colon-apart (c ∷ s) t h = rw (h.0, cut_colon-apart s t h.1) refl

three_parts-entry :
    (e : Entry)
    → NoColon e.hierarchy
    → NoColon e.controllers
    → three_parts (entry_line e) ≡ some (e.hierarchy, e.controllers, e.path)
unfolding three_parts
three_parts-entry e h c =
    rw
      (
        three_parts,
        cut_colon-apart e.hierarchy (e.controllers ++ (b':' ∷ e.path)) h,
        cut_colon-apart e.controllers e.path c,
      )
      refl

colon-IsWord : (s : Text) → IsWord s → IsWord (b':' ∷ s)
unfolding is_space
colon-IsWord s w = (refl, w)

entry_line-IsWord :
    (e : Entry) → IsWord e.hierarchy → IsWord e.controllers → IsWord e.path → IsWord (entry_line e)
entry_line-IsWord e h c p =
    append-IsWord e.hierarchy (b':' ∷ (e.controllers ++ (b':' ∷ e.path))) h (
      colon-IsWord (e.controllers ++ (b':' ∷ e.path))
        (append-IsWord e.controllers (b':' ∷ e.path) c (colon-IsWord e.path p)))

colon-nonempty : (s : Text) → is_empty (b':' ∷ s) ≡ false
unfolding is_empty
colon-nonempty s = refl

entry_line-nonempty : (e : Entry) → is_empty (entry_line e) ≡ false
entry_line-nonempty e =
    append-nonempty e.hierarchy (b':' ∷ (e.controllers ++ (b':' ∷ e.path)))
      (colon-nonempty (e.controllers ++ (b':' ∷ e.path)))

zero-IsWord : IsWord (codes "0")
unfolding is_space
zero-IsWord = (refl, tt)

legacy_line : (e : Entry) → IsLegacy e → line_path (entry_line e) ≡ none
unfolding line_path
legacy_line e l =
    rw
      (
        line_path,
        trim_space-word (entry_line e)
            (entry_line-IsWord e l.hierarchy_word l.controllers_word l.path_word),
        entry_line-nonempty e,
        three_parts-entry e l.hierarchy_apart l.controllers_apart,
        trim_space-word e.controllers l.controllers_word,
        l.controllers_some,
      )
      refl

unified_line :
    (path : Text)
    → IsWord path
    → is_empty path ≡ false
    → line_path (entry_line (unified path)) ≡ some path
unfolding line_path
unified_line path w ne =
    let e = unified path in
    rw
      (
        line_path,
        trim_space-word (entry_line e) (entry_line-IsWord e zero-IsWord tt w),
        trim_space-word path w,
        ne,
      )
      refl

first_path-legacy :
    (legacy : List Entry) (path : Text) (rest : List Text)
    → AreLegacy legacy
    → IsWord path
    → is_empty path ≡ false
    → first_path (map entry_line legacy ++ (entry_line (unified path) ∷ rest)) ≡ some path
unfolding first_path
first_path-legacy [] path rest l w ne = rw (first_path, unified_line path w ne) refl
first_path-legacy (e ∷ legacy) path rest l w ne =
    rw (first_path, legacy_line e l.0) (first_path-legacy legacy path rest l.1 w ne)

module _ (fs : FileSystem) where
  -- On a system with the hierarchy of version 2, behind any hierarchies of version 1 and in front of
  -- any other lines, `Detect` returns the path of version 2, and the weight, quota and period that the
  -- kernel's cpu.weight and cpu.max below that path state.
  pub detect-unified :
      (r : Reader) (legacy : List Entry) (path : Text) (rest : List Text) (scan_error : Option Text)
      → (weight : ℕ) (limit : Option ℕ) (period : ℕ) → AreLegacy legacy
      → IsWord path
      → is_empty path ≡ false
      → weight < 2 ^ 64
      → IsLimit limit
      → period < 2 ^ 64
      → fs.scan_lines (or_default r.proc_path default_proc_self_cgroup)
        ≡ ok (map entry_line legacy ++ (entry_line (unified path) ∷ rest), scan_error)
      → let root = or_default r.root_path default_cgroup_root in
        let weight_path = build_controller_path fs root path cpu_weight_file in
        let max_path = build_controller_path fs root path cpu_max_file in
        fs.read_file weight_path ≡ ok (weight_text weight)
        → fs.read_file max_path ≡ ok (max_text limit period)
        → detect fs r
          ≡ ok (record {
            path = path;
            weight = record {
              path = weight_path;
              value = weight;
              available = true;
              failure = none;
            };
            max = max_record max_path limit period;
          })
  unfolding detect read_self_cgroup
  detect-unified r legacy path rest scan_error weight limit period l w ne b c d scanned e f =
      let root = or_default r.root_path default_cgroup_root in
      let weight_path = build_controller_path fs root path cpu_weight_file in
      let max_path = build_controller_path fs root path cpu_max_file in
      rw
        (
          detect,
          read_self_cgroup,
          scanned,
          first_path-legacy legacy path rest l w ne,
          read_weight-kernel fs weight_path weight b e,
          read_max-kernel fs max_path limit period c d f,
        )
        refl
