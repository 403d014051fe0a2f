-- ===== src/Est/Parsing.antt =====
-- What pkg/est/sampler.go reads from a line that the kernel writes: "cpu", then counters.
use oci_cpu_shaper.Base.{
  ℕ, suc, ◌+◌, ◌%◌, ◌^◌, ◌<◌, ◌≡◌, refl, arith, false, ◌||◌, if◌then◌else◌, ok, List, [], ◌∷◌, ◌++◌,
  ◌==◌, length, ap, ◌∙◌,
}
use mathlib.Core.Path.{ap₂}
use oci_cpu_shaper.Base.Text.{Text, codes, is_empty, fields}
use oci_cpu_shaper.Est.Sampler.{
  add_u64, sum_fields, parse_cpu_line, idle_field_index, io_wait_field_index,
}
use oci_cpu_shaper.Base.Text.Words.{
  IsCounter, AreWords, spaced, digits-IsWord, fields_from-start, parse_uint-IsCounter,
}

-- Words that stand for counters.
abbrev pub AreCounters : List Text → List ℕ → Type 0
AreCounters [] [] = Unit
AreCounters (word ∷ words) (value ∷ values) = IsCounter word value × AreCounters words values
AreCounters _ _ = ⊥

AreCounters-AreWords :
    (words : List Text) (values : List ℕ) → AreCounters words values → AreWords words
AreCounters-AreWords [] [] c = tt
AreCounters-AreWords [] (value ∷ values) c = absurd c
AreCounters-AreWords (word ∷ words) [] c = absurd c
AreCounters-AreWords (word ∷ words) (value ∷ values) c =
    (digits-IsWord 0 word value c.0.digits, c.0.nonempty, AreCounters-AreWords words values c.1)

abbrev pub sum : List ℕ → ℕ
sum [] = 0
sum (x ∷ xs) = x + sum xs

-- One round of the loop.
sum_fields-cons :
    (index idle total : ℕ) (word : Text) (words : List Text) (value : ℕ)
    → IsCounter word value
    → sum_fields index idle total (word ∷ words)
      ≡ sum_fields
          (index + 1)
          (if index == idle_field_index || index == io_wait_field_index
            then add_u64 idle value
            else idle)
          (add_u64 total value)
          words
unfolding sum_fields
sum_fields-cons index idle total word words value c =
    rw (parse_uint-IsCounter word value c, sum_fields)

-- The fields behind the two idle ones.
sum_fields-rest :
    (index idle total : ℕ) (words : List Text) (values : List ℕ)
    → 4 < index
    → AreCounters words values
    → total < 2 ^ 64
    → sum_fields index idle total words ≡ ok (idle, (total + sum values) % 2 ^ 64)
unfolding sum_fields
sum_fields-rest index idle total [] [] h c s =
    let e : total ≡ (total + 0) % 2 ^ 64 = omega arith in ap (λ t. ok (idle, t)) e
sum_fields-rest index idle total [] (value ∷ values) h c s = absurd c
sum_fields-rest index idle total (word ∷ words) [] h c s = absurd c
sum_fields-rest index idle total (word ∷ words) (value ∷ values) h c s =
    let other : (index == idle_field_index || index == io_wait_field_index) ≡ false =
      ground arith in
    let added : (add_u64 total value + sum values) % 2 ^ 64
        ≡ (total + (value + sum values)) % 2 ^ 64 =
      omega arith in
    let ih =
      sum_fields-rest (index + 1) idle (add_u64 total value) words values (omega arith) c.1
        (omega arith) in
    sum_fields-cons index idle total word words value c.0 ∙ rw (other, ← added) ih

-- The first five fields are user, nice, system, idle and iowait time.
sum_fields_lem :
    (words : List Text) (u n s i w : ℕ) (more : List ℕ)
    → AreCounters words (u ∷ n ∷ s ∷ i ∷ w ∷ more)
    → sum_fields 0 0 0 words ≡ ok ((i + w) % 2 ^ 64, sum (u ∷ n ∷ s ∷ i ∷ w ∷ more) % 2 ^ 64)
sum_fields_lem (a ∷ b ∷ c ∷ e ∷ f ∷ rest) u n s i w more h =
    let t₁ : ℕ = add_u64 0 u in
    let t₂ : ℕ = add_u64 t₁ n in
    let t₃ : ℕ = add_u64 t₂ s in
    let t₄ : ℕ = add_u64 t₃ i in
    let t₅ : ℕ = add_u64 t₄ w in
    let idle : ℕ = add_u64 (add_u64 0 i) w in
    sum_fields-cons 0 0 0 a (b ∷ c ∷ e ∷ f ∷ rest) u h.0
    ∙ sum_fields-cons 1 0 t₁ b (c ∷ e ∷ f ∷ rest) n h.1.0
    ∙ sum_fields-cons 2 0 t₂ c (e ∷ f ∷ rest) s h.1.1.0
    ∙ sum_fields-cons 3 0 t₃ e (f ∷ rest) i h.1.1.1.0
    ∙ sum_fields-cons 4 (add_u64 0 i) t₄ f rest w h.1.1.1.1.0
    ∙ sum_fields-rest 5 idle t₅ rest more (omega arith) h.1.1.1.1.1 (omega arith)
    ∙ ap₂ (λ x y. ok (x, y)) (omega arith) (omega arith)
sum_fields_lem [] u n s i w more h = absurd h
sum_fields_lem (_ ∷ []) u n s i w more h = absurd h.1
sum_fields_lem (_ ∷ _ ∷ []) u n s i w more h = absurd h.1.1
sum_fields_lem (_ ∷ _ ∷ _ ∷ []) u n s i w more h = absurd h.1.1.1
sum_fields_lem (_ ∷ _ ∷ _ ∷ _ ∷ []) u n s i w more h = absurd h.1.1.1.1

length-AreCounters :
    (words : List Text) (values : List ℕ) → AreCounters words values → length words ≡ length values
length-AreCounters [] [] c = refl
length-AreCounters [] (value ∷ values) c = absurd c
length-AreCounters (word ∷ words) [] c = absurd c
length-AreCounters (word ∷ words) (value ∷ values) c = ap suc (length-AreCounters words values c.1)

fields-line :
    (words : List Text)
    → AreWords words
    → fields (codes "cpu " ++ spaced words) ≡ codes "cpu" ∷ words
unfolding fields is_empty
fields-line words w = ap (◌∷◌ (codes "cpu")) (fields_from-start words w)

-- From the line that the kernel writes, `cpu` and at least five counters in decimal, each after a
-- space, the parser takes the sum of the fourth and the fifth as the idle time and the sum of all as
-- the total, both as a uint64.
pub parse_cpu_line_lem :
    (words : List Text) (u n s i w : ℕ) (more : List ℕ)
    → AreCounters words (u ∷ n ∷ s ∷ i ∷ w ∷ more)
    → parse_cpu_line (codes "cpu " ++ spaced words)
      ≡ ok ((i + w) % 2 ^ 64, sum (u ∷ n ∷ s ∷ i ∷ w ∷ more) % 2 ^ 64)
unfolding parse_cpu_line
parse_cpu_line_lem words u n s i w more h =
    let count = length-AreCounters words (u ∷ n ∷ s ∷ i ∷ w ∷ more) h in
    let split = fields-line words (AreCounters-AreWords words (u ∷ n ∷ s ∷ i ∷ w ∷ more) h) in
    ground (arith, split, count, sum_fields_lem words u n s i w more h)
