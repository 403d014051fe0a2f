-- ===== src/Cgroup/Soundness.antt =====
-- pkg/cgroup/cgroup.go: what holds of every weight and maximum that is read.
use mathlib.Core.Path.{subst}
use oci_cpu_shaper.Base.{
  ℕ, ◌^◌, ◌<◌, ◌≡◌, ◌↔◌, ◌⊎◌, refl, arith, true, false, Bool-cases, inl, inr, none, Result,
  Result-cases, ok, err, List, [], ◌∷◌,
}
use oci_cpu_shaper.Base.Text.{
  Text, codes, trim_space, is_empty, parse_uint, text_eq, to_lower, fields,
}
use oci_cpu_shaper.Cgroup.{
  CgroupError, FileSystem, Reader, Weight, Max, Cpu, default_proc_self_cgroup, default_cgroup_root,
  cpu_weight_file, cpu_max_file, or_default, read_self_cgroup, build_controller_path, read_weight,
  weight_of_word, new_weight_error, new_max_error, max_of_fields, max_of_words, read_max, detect,
}

-- What holds of each weight and each maximum: it is available exactly if it has no error, all else is
-- zero where it is not available, and the numbers fit uint64.
pub record IsSoundWeight (w : Weight) : Type 0 where
  pub available_iff : (w.available ≡ true) ↔ (w.failure ≡ none)
  pub zero_value : (w.available ≡ true) ⊎ (w.value ≡ 0)
  pub value_small : w.value < 2 ^ 64

pub record IsSoundMax (m : Max) : Type 0 where
  pub available_iff : (m.available ≡ true) ↔ (m.failure ≡ none)
  pub zero_numbers : (m.available ≡ true) ⊎ ((m.quota ≡ 0) × (m.period ≡ 0) × (m.unlimited ≡ false))
  pub zero_quota : (m.unlimited ≡ false) ⊎ (m.quota ≡ 0)
  pub quota_small : m.quota < 2 ^ 64
  pub period_small : m.period < 2 ^ 64

parse_uint-small : (s : Text) {n : ℕ} → parse_uint s ≡ ok n → n < 2 ^ 64
unfolding parse_uint
parse_uint-small s {n} e = ground arith

weight_error-IsSoundWeight :
    (path : Text) (e : CgroupError) → IsSoundWeight (new_weight_error path e)
unfolding new_weight_error
weight_error-IsSoundWeight path e = record {
  available_iff = (λ h. absurd (ground arith), λ h. absurd (ground arith));
  zero_value = inr refl;
  value_small = omega arith;
}

max_error-IsSoundMax : (path : Text) (e : CgroupError) → IsSoundMax (new_max_error path e)
unfolding new_max_error
max_error-IsSoundMax path e = record {
  available_iff = (λ h. absurd (ground arith), λ h. absurd (ground arith));
  zero_numbers = inr (refl, refl, refl);
  zero_quota = inr refl;
  quota_small = omega arith;
  period_small = omega arith;
}

weight_of_word-IsSoundWeight : (path word : Text) → IsSoundWeight (weight_of_word path word)
unfolding weight_of_word
weight_of_word-IsSoundWeight path word = elim (Result-cases (parse_uint word)) [
  | inl (e, h) ↦ rw (weight_of_word, h) (weight_error-IsSoundWeight path _)
  | inr (n, h) ↦
      rw (weight_of_word, h)
        (record {
          available_iff = (λ _. refl, λ _. refl);
          zero_value = inl refl;
          value_small = parse_uint-small word h;
        })
]

max_of_fields-IsSoundMax : (path limit length : Text) → IsSoundMax (max_of_fields path limit length)
unfolding max_of_fields
max_of_fields-IsSoundMax path limit length = elim (Result-cases (parse_uint length)) [
  | inl (e, h) ↦ rw (max_of_fields, h) (max_error-IsSoundMax path _)
  | inr (period, h) ↦ elim (Bool-cases (text_eq (to_lower limit) (codes "max"))) [
    | inl b ↦
        rw (max_of_fields, h, b)
          (record {
            available_iff = (λ _. refl, λ _. refl);
            zero_numbers = inl refl;
            zero_quota = inr refl;
            quota_small = omega arith;
            period_small = parse_uint-small length h;
          })
    | inr b ↦ elim (Result-cases (parse_uint limit)) [
      | inl (e, k) ↦ rw (max_of_fields, h, b, k) (max_error-IsSoundMax path _)
      | inr (quota, k) ↦
          rw (max_of_fields, h, b, k)
            (record {
              available_iff = (λ _. refl, λ _. refl);
              zero_numbers = inl refl;
              zero_quota = inl refl;
              quota_small = parse_uint-small limit k;
              period_small = parse_uint-small length h;
            })
    ]
  ]
]

max_of_words-IsSoundMax : (path : Text) (words : List Text) → IsSoundMax (max_of_words path words)
unfolding max_of_words
max_of_words-IsSoundMax path [] = max_error-IsSoundMax path _
max_of_words-IsSoundMax path (limit ∷ []) = max_error-IsSoundMax path _
max_of_words-IsSoundMax path (limit ∷ (length ∷ [])) = max_of_fields-IsSoundMax path limit length
max_of_words-IsSoundMax path (a ∷ (b ∷ (c ∷ rest))) = max_error-IsSoundMax path _

module _ (fs : FileSystem) where
  read_weight-IsSoundWeight : (path : Text) → IsSoundWeight (read_weight fs path)
  unfolding read_weight
  read_weight-IsSoundWeight path = elim (Result-cases (fs.read_file path)) [
    | inl (e, h) ↦ rw (read_weight, h) (weight_error-IsSoundWeight path _)
    | inr (content, h) ↦ elim (Bool-cases (is_empty (trim_space content))) [
      | inl b ↦ rw (read_weight, h, b) (weight_error-IsSoundWeight path _)
      | inr b ↦ rw (read_weight, h, b) (weight_of_word-IsSoundWeight path (trim_space content))
    ]
  ]

  read_max-IsSoundMax : (path : Text) → IsSoundMax (read_max fs path)
  unfolding read_max
  read_max-IsSoundMax path = elim (Result-cases (fs.read_file path)) [
    | inl (e, h) ↦ rw (read_max, h) (max_error-IsSoundMax path _)
    | inr (content, h) ↦ elim (Bool-cases (is_empty (trim_space content))) [
      | inl b ↦ rw (read_max, h, b) (max_error-IsSoundMax path _)
      | inr b ↦ rw (read_max, h, b) (max_of_words-IsSoundMax path (fields (trim_space content)))
    ]
  ]

  -- Every weight and maximum that `Detect` returns is available exactly if it has no error, has zeros
  -- where it is not available, and numbers below 2^64; an unlimited maximum has the quota 0.
  pub detect-IsSound :
      (r : Reader) {cpu : Cpu}
      → detect fs r ≡ ok cpu
      → IsSoundWeight cpu.weight × IsSoundMax cpu.max
  unfolding detect
  detect-IsSound r {cpu} h =
      split (read_self_cgroup fs (or_default r.proc_path default_proc_self_cgroup)) h
    where
      root : Text
      root = or_default r.root_path default_cgroup_root

      built : Text → Cpu
      built path = record {
        path = path;
        weight = read_weight fs (build_controller_path fs root path cpu_weight_file);
        max = read_max fs (build_controller_path fs root path cpu_max_file);
      }

      split :
          (found : Result CgroupError Text)
          → ◌≡◌ {A = Result CgroupError Cpu}
              (elim found [ err e ↦ err e | ok path ↦ ok (built path) ])
              (ok cpu)
          → IsSoundWeight cpu.weight × IsSoundMax cpu.max
      split (err e) k = absurd (ground arith)
      split (ok path) k =
          let same : built path ≡ cpu = ground arith in
          subst (λ (c : Cpu). IsSoundWeight c.weight × IsSoundMax c.max) same
            (
              read_weight-IsSoundWeight (build_controller_path fs root path cpu_weight_file),
              read_max-IsSoundMax (build_controller_path fs root path cpu_max_file),
            )
