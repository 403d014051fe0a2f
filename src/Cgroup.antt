-- ===== src/Cgroup.antt =====
-- pkg/cgroup/cgroup.go: finding and reading the CPU controls of the process. The files, the scanner and
-- `filepath.Join` are parameters; a file's bytes are its code points. An error is the chain that
-- `fmt.Errorf` wraps.
pub mod Contents
pub mod Detection
pub mod Soundness
mod Examples
use oci_cpu_shaper.Base.{
  ℕ, Bool, true, false, not, if◌then◌else◌, Option, none, some, Result, ok, err, List, [], ◌∷◌,
  ◌==◌,
}
use oci_cpu_shaper.Base.Text.{
  Text, codes, text_eq, trim_space, to_lower, is_empty, fields, NumError, parse_uint,
}

abbrev pub default_proc_self_cgroup : Text
default_proc_self_cgroup = codes "/proc/self/cgroup"

abbrev pub default_cgroup_root : Text
default_cgroup_root = codes "/sys/fs/cgroup"

abbrev pub cpu_weight_file : Text
cpu_weight_file = codes "cpu.weight"

abbrev pub cpu_max_file : Text
cpu_max_file = codes "cpu.max"

pub data CgroupError : Type 0 where
  read_failed : Text → Text → CgroupError
  scan_failed : Text → Text → CgroupError
  path_not_found : CgroupError
  empty_value : Text → CgroupError
  expected_two_fields : Text → CgroupError
  bad_weight : Text → NumError → CgroupError
  bad_period : Text → NumError → CgroupError
  bad_quota : Text → NumError → CgroupError

-- What the code asks of the operating system: `os.ReadFile`, `os.Open` with the lines that a scanner
-- gives and its error, and the file names.
pub record FileSystem : Type 0 where
  pub read_file : Text → Result Text Text
  pub scan_lines : Text → Result Text (List Text × Option Text)
  pub join : Text → Text → Text → Text

pub record Reader : Type 0 where
  pub proc_path : Text
  pub root_path : Text

pub record Weight : Type 0 where
  pub path : Text
  pub value : ℕ
  pub available : Bool
  pub failure : Option CgroupError

pub record Max : Type 0 where
  pub path : Text
  pub quota : ℕ
  pub period : ℕ
  pub unlimited : Bool
  pub available : Bool
  pub failure : Option CgroupError

pub record Cpu : Type 0 where
  pub path : Text
  pub weight : Weight
  pub max : Max

-- A string up to its first ':', and what follows.
unfoldable pub cut_colon : Text → Option (Text × Text)
cut_colon [] = none
cut_colon (c ∷ s) =
    let rest = cut_colon s in
    if c == b':'
    then some ([], s)
    else elim rest [ none ↦ none | some (before, after) ↦ some (c ∷ before, after) ]

-- `strings.SplitN(line, ":", 3)`, where it has three parts.
unfoldable pub three_parts : Text → Option (Text × Text × Text)
unfolding cut_colon
three_parts line = elim (cut_colon line) [
  | none ↦ none
  | some (first, more) ↦ elim (cut_colon more) [
    | none ↦ none
    | some (second_part, third) ↦ some (first, second_part, third)
  ]
]

-- The path that a line of /proc/self/cgroup gives: one round of the loop.
unfoldable pub line_path : Text → Option Text
unfolding three_parts trim_space is_empty
line_path text =
    let line = trim_space text in
    if is_empty line then none else elim (three_parts line) [
      | none ↦ none
      | some (hierarchy, controllers, rest) ↦
          let path = trim_space rest in
          if not (is_empty (trim_space controllers))
          then none
          else if is_empty path
          then none
          else some path
    ]

unfoldable pub first_path : List Text → Option Text
unfolding line_path
first_path [] = none
first_path (line ∷ rest) = elim (line_path line) [ some path ↦ some path | none ↦ first_path rest ]

-- `strings.TrimPrefix(rel, "/")`.
unfoldable pub without_slash : Text → Text
without_slash [] = []
without_slash (c ∷ s) = if c == b'/' then s else c ∷ s

unfoldable pub or_default : Text → Text → Text
unfolding trim_space is_empty
or_default s fallback = if is_empty (trim_space s) then fallback else s

-- The `Weight` of an error.
unfoldable pub new_weight_error : Text → CgroupError → Weight
new_weight_error path e = record { path = path; value = 0; available = false; failure = some e }

unfoldable pub weight_of_word : Text → Text → Weight
unfolding parse_uint new_weight_error
weight_of_word path word = elim (parse_uint word) [
  | err e ↦ new_weight_error path (bad_weight path e)
  | ok value ↦ record { path = path; value = value; available = true; failure = none }
]

unfoldable pub new_max_error : Text → CgroupError → Max
new_max_error path e = record {
  path = path;
  quota = 0;
  period = 0;
  unlimited = false;
  available = false;
  failure = some e;
}

unfoldable pub max_of_fields : Text → Text → Text → Max
unfolding parse_uint text_eq to_lower new_max_error
max_of_fields path limit length = elim (parse_uint length) [
  | err e ↦ new_max_error path (bad_period path e)
  | ok period ↦
      if text_eq (to_lower limit) (codes "max")
      then record {
        path = path;
        quota = 0;
        period = period;
        unlimited = true;
        available = true;
        failure = none;
      }
      else elim (parse_uint limit) [
        | err e ↦ new_max_error path (bad_quota path e)
        | ok quota ↦ record {
          path = path;
          quota = quota;
          period = period;
          unlimited = false;
          available = true;
          failure = none;
        }
      ]
]

unfoldable pub max_of_words : Text → List Text → Max
unfolding max_of_fields new_max_error
max_of_words path (limit ∷ (length ∷ [])) = max_of_fields path limit length
max_of_words path _ = new_max_error path (expected_two_fields path)

module _ (fs : FileSystem) where
  unfoldable pub read_self_cgroup : Text → Result CgroupError Text
  unfolding first_path
  read_self_cgroup proc_path = elim (fs.scan_lines proc_path) [
    | err e ↦ err (read_failed proc_path e)
    | ok (lines, scan_error) ↦ elim (first_path lines) [
      | some path ↦ ok path
      | none ↦ elim scan_error [
        | some e ↦ err (scan_failed proc_path e)
        | none ↦ err path_not_found
      ]
    ]
  ]

  unfoldable pub build_controller_path : Text → Text → Text → Text
  unfolding without_slash trim_space is_empty
  build_controller_path root rel_path filename =
      let trimmed = trim_space root in
      let root' = if is_empty trimmed then default_cgroup_root else trimmed in
      fs.join root' (without_slash (trim_space rel_path)) filename

  unfoldable pub read_weight : Text → Weight
  unfolding trim_space is_empty weight_of_word new_weight_error
  read_weight path = elim (fs.read_file path) [
    | err e ↦ new_weight_error path (read_failed path e)
    | ok content ↦
        let trimmed = trim_space content in
        if is_empty trimmed
        then new_weight_error path (empty_value path)
        else weight_of_word path trimmed
  ]

  unfoldable pub read_max : Text → Max
  unfolding trim_space is_empty fields max_of_words new_max_error
  read_max path = elim (fs.read_file path) [
    | err e ↦ new_max_error path (read_failed path e)
    | ok content ↦
        let trimmed = trim_space content in
        if is_empty trimmed
        then new_max_error path (empty_value path)
        else max_of_words path (fields trimmed)
  ]

  unfoldable pub detect : Reader → Result CgroupError Cpu
  unfolding or_default read_self_cgroup build_controller_path read_weight read_max
  detect r =
      let proc_path = or_default r.proc_path default_proc_self_cgroup in
      let root_path = or_default r.root_path default_cgroup_root in
      elim (read_self_cgroup proc_path) [
        | err e ↦ err e
        | ok path ↦ ok (record {
          path = path;
          weight = read_weight (build_controller_path root_path path cpu_weight_file);
          max = read_max (build_controller_path root_path path cpu_max_file);
        })
      ]
