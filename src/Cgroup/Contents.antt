-- ===== src/Cgroup/Contents.antt =====
-- pkg/cgroup/cgroup.go: what `readWeight` and `readMax` make of the files as the kernel writes them.
use mathlib.Core.List.{append-nil, append_assoc}
use oci_cpu_shaper.Base.{
  ℕ, ◌^◌, ◌<◌, ◌≡◌, ◌∙◌, ap, sym, refl, arith, true, false, Option, none, some, ok, [], ◌∷◌, ◌++◌,
}
use oci_cpu_shaper.Base.Text.{
  Text, codes, text_eq, trim_space, to_lower, lower, is_empty, fields, digits_value, is_space,
}
use oci_cpu_shaper.Base.Text.Words.{
  IsCounter, IsWord, digits-IsWord, parse_uint-IsCounter, spaced, fields_from-word,
  fields_from-spaced,
}
use oci_cpu_shaper.Base.Text.Decimal.{decimal, decimal-IsCounter}
use oci_cpu_shaper.Base.Text.Trimming.{newline, trim_space-line}
use oci_cpu_shaper.Cgroup.{
  FileSystem, Max, read_weight, weight_of_word, max_of_fields, max_of_words, read_max,
}

-- The kernel's text of cpu.weight: the number and a newline.
abbrev pub weight_text : ℕ → Text
weight_text n = decimal n ++ newline

-- The first word of cpu.max: `max` where there is no quota.
abbrev pub limit_word : Option ℕ → Text
limit_word none = codes "max"
limit_word (some quota) = decimal quota

-- The kernel's text of cpu.max: quota, a space, period and a newline.
abbrev pub max_text : Option ℕ → ℕ → Text
max_text limit period = (limit_word limit ++ spaced (decimal period ∷ [])) ++ newline

abbrev pub IsLimit : Option ℕ → Type 0
IsLimit none = Unit
IsLimit (some quota) = quota < 2 ^ 64

counter-IsWord : (word : Text) (value : ℕ) → IsCounter word value → IsWord word
counter-IsWord word value c = digits-IsWord 0 word value c.digits

decimal-IsWord : (n : ℕ) → n < 2 ^ 64 → IsWord (decimal n)
decimal-IsWord n h = counter-IsWord (decimal n) n (decimal-IsCounter n h)

trim-weight_text : (n : ℕ) → n < 2 ^ 64 → trim_space (weight_text n) ≡ decimal n
trim-weight_text n h =
    let c = decimal-IsCounter n h in
    let w = decimal-IsWord n h in
    trim_space-line (decimal n) [] [] (decimal n) (decimal n) w c.nonempty w c.nonempty
      (sym (append-nil (decimal n))) refl

max-IsWord : IsWord (codes "max")
unfolding is_space
max-IsWord = (refl, (refl, (refl, tt)))

max-nonempty : is_empty (codes "max") ≡ false
unfolding is_empty
max-nonempty = refl

limit_word-IsWord : (limit : Option ℕ) → IsLimit limit → IsWord (limit_word limit)
limit_word-IsWord none h = max-IsWord
limit_word-IsWord (some quota) h = decimal-IsWord quota h

limit_word-nonempty : (limit : Option ℕ) → IsLimit limit → is_empty (limit_word limit) ≡ false
limit_word-nonempty none h = max-nonempty
limit_word-nonempty (some quota) h = (decimal-IsCounter quota h).nonempty

append-nonempty : (s t : Text) → is_empty s ≡ false → is_empty (s ++ t) ≡ false
unfolding is_empty
append-nonempty [] t h = cc
append-nonempty (c ∷ s) t h = refl

-- What is left of cpu.max when its newline is cut off, and its two words.
trim-max_text :
    (limit : Option ℕ) (period : ℕ)
    → IsLimit limit
    → period < 2 ^ 64
    → trim_space (max_text limit period) ≡ limit_word limit ++ spaced (decimal period ∷ [])
trim-max_text limit period l p =
    let c = decimal-IsCounter period p in
    let word = limit_word limit in
    trim_space-line word (spaced (decimal period ∷ [])) (word ++ (32 ∷ [])) (decimal period)
      (word ++ spaced (decimal period ∷ [])) (limit_word-IsWord limit l)
      (limit_word-nonempty limit l) (decimal-IsWord period p) c.nonempty refl
      (ap (λ s. word ++ (32 ∷ s)) (append-nil (decimal period))
        ∙ sym (append_assoc word (32 ∷ []) (decimal period)))

fields-max_text :
    (limit : Option ℕ) (period : ℕ)
    → IsLimit limit
    → period < 2 ^ 64
    → fields (limit_word limit ++ spaced (decimal period ∷ []))
      ≡ limit_word limit ∷ (decimal period ∷ [])
unfolding fields
fields-max_text limit period l p =
    let c = decimal-IsCounter period p in
    let word = limit_word limit in
    fields_from-word [] word (spaced (decimal period ∷ [])) (limit_word-IsWord limit l)
    ∙ fields_from-spaced word (decimal period ∷ []) (limit_word-nonempty limit l)
        (decimal-IsWord period p, c.nonempty, tt)

-- No number is spelled like `max`.
digits-not_max :
    (acc : ℕ) (word : Text) (value : ℕ)
    → digits_value acc word ≡ some value
    → text_eq (to_lower word) (codes "max") ≡ false
unfolding digits_value text_eq to_lower lower
digits-not_max acc [] value e = refl
digits-not_max acc (c ∷ s) value e = ground arith

-- The record that cpu.max stands for.
abbrev pub max_record : Text → Option ℕ → ℕ → Max
max_record path none period = record {
  path = path;
  quota = 0;
  period = period;
  unlimited = true;
  available = true;
  failure = none;
}
max_record path (some quota) period = record {
  path = path;
  quota = quota;
  period = period;
  unlimited = false;
  available = true;
  failure = none;
}

max_of_fields-kernel :
    (path : Text) (limit : Option ℕ) (period : ℕ)
    → IsLimit limit
    → period < 2 ^ 64
    → max_of_fields path (limit_word limit) (decimal period) ≡ max_record path limit period
unfolding max_of_fields
max_of_fields-kernel path none period l p =
    rw (max_of_fields, parse_uint-IsCounter (decimal period) period (decimal-IsCounter period p))
      refl
max_of_fields-kernel path (some quota) period l p =
    let c = decimal-IsCounter quota l in
    rw
      (
        max_of_fields,
        parse_uint-IsCounter (decimal period) period (decimal-IsCounter period p),
        parse_uint-IsCounter (decimal quota) quota c,
        digits-not_max 0 (decimal quota) quota c.digits,
      )
      refl

module _ (fs : FileSystem) where
  -- The kernel's cpu.weight is read back as its number.
  pub read_weight-kernel :
      (path : Text) (n : ℕ)
      → n < 2 ^ 64
      → fs.read_file path ≡ ok (weight_text n)
      → read_weight fs path ≡ record { path = path; value = n; available = true; failure = none }
  unfolding read_weight weight_of_word
  read_weight-kernel path n h e =
      let c = decimal-IsCounter n h in
      rw (read_weight, e, trim-weight_text n h, c.nonempty)
        (rw (weight_of_word, parse_uint-IsCounter (decimal n) n c) refl)

  -- The kernel's cpu.max is read back as its quota, or as unlimited, and its period.
  pub read_max-kernel :
      (path : Text) (limit : Option ℕ) (period : ℕ)
      → IsLimit limit
      → period < 2 ^ 64
      → fs.read_file path ≡ ok (max_text limit period)
      → read_max fs path ≡ max_record path limit period
  unfolding read_max max_of_words
  read_max-kernel path limit period l p e =
      let ne =
        append-nonempty (limit_word limit) (spaced (decimal period ∷ []))
          (limit_word-nonempty limit l) in
      rw (read_max, e, trim-max_text limit period l p, ne, fields-max_text limit period l p)
        (max_of_fields-kernel path limit period l p)
