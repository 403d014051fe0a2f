-- ===== src/Oci/Percentile.antt =====
-- The percentile of pkg/oci/query.go is the order statistic of its rank.
use oci_cpu_shaper.Base.{
  ℕ, zero, suc, ◌+◌, ◌≤◌, ◌<◌, ◌≡◌, inl, inr, refl, arith, Bool, true, not, ◌&&◌, if◌then◌else◌,
  some, List, [], ◌∷◌, length, Bool-cases,
}
use mathlib.Core.Path.{subst}
use oci_cpu_shaper.Float.{Float, IsFloat, IsNumber, ◌≼◌}
use oci_cpu_shaper.Oci.Query.{
  get_elem?, before, insert_sorted, sort_floats, percentile_index, percentile,
}

-- How many elements pass a test.
abbrev pub count_by : {A : Type 0} → (A → Bool) → List A → ℕ
count_by p [] = 0
count_by p (x ∷ xs) = (if p x then 1 else 0) + count_by p xs

abbrev pub All : {A : Type 0} → (A → Type 0) → List A → Type 0
All P [] = Unit
All P (x ∷ xs) = P x × All P xs

module _ {F : Type 0} ⦃d : Float F⦄ where
  count_by-insert_sorted :
      (p : F → Bool) (x : F) (xs : List F)
      → count_by p (insert_sorted x xs) ≡ (if p x then 1 else 0) + count_by p xs
  unfolding insert_sorted
  count_by-insert_sorted p x [] = refl
  count_by-insert_sorted p x (y ∷ ys) = ground (arith, count_by-insert_sorted p x ys)

  -- Sorting keeps the values, as often as they occur.
  count_by-sort_floats : (p : F → Bool) (xs : List F) → count_by p (sort_floats xs) ≡ count_by p xs
  unfolding sort_floats
  count_by-sort_floats p [] = refl
  count_by-sort_floats p (x ∷ xs) =
      ground (arith, count_by-insert_sorted p x (sort_floats xs), count_by-sort_floats p xs)

  length-insert_sorted : (x : F) (xs : List F) → length (insert_sorted x xs) ≡ suc (length xs)
  unfolding insert_sorted
  length-insert_sorted x [] = refl
  length-insert_sorted x (y ∷ ys) = ground (arith, length-insert_sorted x ys)

  length-sort_floats : (xs : List F) → length (sort_floats xs) ≡ length xs
  unfolding sort_floats
  length-sort_floats [] = refl
  length-sort_floats (x ∷ xs) =
      ground (arith, length-insert_sorted x (sort_floats xs), length-sort_floats xs)

  get_elem?-lt : (xs : List F) (i : ℕ) → i < length xs → (v : F) × (get_elem? xs i ≡ some v)
  get_elem?-lt [] i h = absurd (omega arith)
  get_elem?-lt (x ∷ xs) zero h = (x, refl)
  get_elem?-lt (x ∷ xs) (suc i) h = get_elem?-lt xs i (omega arith)

  All-get_elem? :
      (P : F → Type 0) (xs : List F) (i : ℕ) (v : F) → All P xs → get_elem? xs i ≡ some v → P v
  All-get_elem? P [] i v a e = ground arith
  All-get_elem? P (x ∷ xs) zero v a e = subst P (ground arith) a.0
  All-get_elem? P (x ∷ xs) (suc i) v a e = All-get_elem? P xs i v a.1 e

  count_by-get_elem? :
      (p : F → Bool) (xs : List F) (i : ℕ) (v : F)
      → get_elem? xs i ≡ some v
      → p v ≡ true
      → 0 < count_by p xs
  count_by-get_elem? p [] i v e h = ground arith
  count_by-get_elem? p (x ∷ xs) zero v e h = ground arith
  count_by-get_elem? p (x ∷ xs) (suc i) v e h = ground (arith, count_by-get_elem? p xs i v e h)

  -- Each value is a lower bound of what follows it.
  abbrev IsSorted : List F → Type 0
  IsSorted [] = Unit
  IsSorted (x ∷ xs) = All (λ y. x ≼ y) xs × IsSorted xs

  All-insert_sorted :
      (P : F → Type 0) (x : F) (xs : List F) → P x → All P xs → All P (insert_sorted x xs)
  unfolding insert_sorted
  All-insert_sorted P x [] h hs = (h, tt)
  All-insert_sorted P x (y ∷ ys) h hs = elim (Bool-cases (before y x)) [
    | inl e ↦ rw e (hs.0, All-insert_sorted P x ys h hs.1)
    | inr e ↦ rw e (h, hs)
  ]

  All-sort_floats : (P : F → Type 0) (xs : List F) → All P xs → All P (sort_floats xs)
  unfolding sort_floats
  All-sort_floats P [] a = tt
  All-sort_floats P (x ∷ xs) a =
      All-insert_sorted P x (sort_floats xs) a.0 (All-sort_floats P xs a.1)

  module _ (laws : IsFloat F) where
    open laws use {refl_of_le, le_trans, le_total, lt-eq-not-le, le_of_lt, eq-eq-le}

    All-le_trans : (x y : F) (ys : List F) → x ≼ y → All (λ z. y ≼ z) ys → All (λ z. x ≼ z) ys
    All-le_trans x y [] h a = tt
    All-le_trans x y (z ∷ zs) h a = (le_trans x y z h a.0, All-le_trans x y zs h a.1)

    before_lt : (x y : F) → IsNumber x → IsNumber y → before x y ≡ not (d.le y x)
    before_lt x y nx ny = ground (arith, lt-eq-not-le x y nx ny, eq-eq-le x x, eq-eq-le y y)

    insert_sorted-IsSorted :
        (x : F) (xs : List F)
        → IsNumber x
        → All IsNumber xs
        → IsSorted xs
        → IsSorted (insert_sorted x xs)
    unfolding insert_sorted
    insert_sorted-IsSorted x [] nx ns s = (tt, tt)
    insert_sorted-IsSorted x (y ∷ ys) nx ns s = elim (Bool-cases (before y x)) [
      | inl e ↦
          let below : y ≼ x = ground (arith, before_lt y x ns.0 nx, le_total x y nx ns.0) in
          rw e
            (All-insert_sorted (λ z. y ≼ z) x ys below s.0, insert_sorted-IsSorted x ys nx ns.1 s.1)
      | inr e ↦
          let below : x ≼ y = ground (arith, before_lt y x ns.0 nx) in
          rw e ((below, All-le_trans x y ys below s.0), s)
    ]

    sort_floats-IsSorted : (xs : List F) → All IsNumber xs → IsSorted (sort_floats xs)
    unfolding sort_floats
    sort_floats-IsSorted [] ns = tt
    sort_floats-IsSorted (x ∷ xs) ns =
        insert_sorted-IsSorted x (sort_floats xs) ns.0 (All-sort_floats IsNumber xs ns.1)
          (sort_floats-IsSorted xs ns.1)

    none_below : (v : F) (ys : List F) → All (λ y. v ≼ y) ys → count_by (λ y. d.lt y v) ys ≡ 0
    none_below v [] a = refl
    none_below v (y ∷ ys) a =
        let (nv, ny) = refl_of_le v y a.0 in
        ground (arith, lt-eq-not-le y v ny nv, a.0, none_below v ys a.1)

    -- In a sorted list more than `i` values are at most the one at index `i`, and at most `i` are less.
    rank_in_sorted :
        (xs : List F) (i : ℕ) (v : F)
        → All IsNumber xs
        → IsSorted xs
        → get_elem? xs i ≡ some v
        → (i < count_by (λ y. d.le y v) xs) × (count_by (λ y. d.lt y v) xs ≤ i)
    rank_in_sorted [] i v ns s e = ground arith
    rank_in_sorted (x ∷ xs) zero v ns s e =
        ground (arith, ns.0, none_below x xs s.0, lt-eq-not-le x x ns.0 ns.0)
    rank_in_sorted (x ∷ xs) (suc i) v ns s e =
        let ih = rank_in_sorted xs i v ns.1 s.1 e in
        ground (arith, ih, All-get_elem? (λ y. x ≼ y) xs i v s.0 e)

  percentile_index-lt : (target : F) (n : ℕ) → 0 < n → percentile_index target n < n
  unfolding percentile_index
  percentile_index-lt target n positive = ground arith

  -- Where a value stands among the values that it was sorted from.
  abbrev pub IsRank : List F → ℕ → F → Type 0
  IsRank values i v =
      (0 < count_by (λ y. d.le v y && d.le y v) values)
      × (i < count_by (λ y. d.le y v) values)
      × (count_by (λ y. d.lt y v) values ≤ i)

  sorted-IsRank :
      (laws : IsFloat F) (values : List F) (i : ℕ) (v : F)
      → All IsNumber values
      → get_elem? (sort_floats values) i ≡ some v
      → IsRank values i v
  sorted-IsRank laws values i v ns e =
      let sorted = sort_floats values in
      let numbers = All-sort_floats IsNumber values ns in
      let number = All-get_elem? IsNumber sorted i v numbers e in
      let (low, high) =
        rank_in_sorted laws sorted i v numbers (sort_floats-IsSorted laws values ns) e in
      let here = count_by-get_elem? (λ y. d.le v y && d.le y v) sorted i v e (ground arith) in
      (
        rw (← count_by-sort_floats (λ y. d.le v y && d.le y v) values) here,
        rw (← count_by-sort_floats (λ y. d.le y v) values) low,
        rw (← count_by-sort_floats (λ y. d.lt y v) values) high,
      )

  -- For values that are numbers, at least one: `percentile` returns one of them, at most
  -- `percentile_index` of the values are less than it, and more than that many are at most it.
  pub percentile_lem :
      (laws : IsFloat F) (values : List F) (target : F)
      → All IsNumber values
      → 0 < length values
      → (v : F) × (percentile values target ≡ some v)
        × IsRank values (percentile_index target (length values)) v
  unfolding percentile
  percentile_lem laws values target ns h =
      let i = percentile_index target (length values) in
      let short : i < length (sort_floats values) =
        rw (length-sort_floats values) (percentile_index-lt target (length values) h) in
      let (v, e) = get_elem?-lt (sort_floats values) i short in
      (v, e, sorted-IsRank laws values i v ns e)
