-- ===== src/Est/Telescope.antt =====
-- The observations of a run of pkg/est/sampler.go's loop against its snapshots.
use oci_cpu_shaper.Base.{ℕ, ◌+◌, ◌≤◌, ◌≡◌, arith, true, ok, err, List, [], ◌∷◌}
use oci_cpu_shaper.Base.Int.{ℤ}
use oci_cpu_shaper.Float.{Float}
use oci_cpu_shaper.Est.Sampler.{
  Snapshot, Observation, SamplerEvent, done, tick, build_observation, sample_loop,
}

-- Every tick is received, the context is not cancelled, and the totals of the snapshots do not fall.
abbrev pub Steady : ℕ → List SamplerEvent → Type 0
Steady total [] = Unit
Steady total (done ∷ rest) = ⊥
Steady total (tick now (err e) received ∷ rest) = (received ≡ true) × Steady total rest
Steady total (tick now (ok snap) received ∷ rest) =
    (received ≡ true) × (total ≤ snap.total) × Steady snap.total rest

-- The total of the last snapshot that was taken.
abbrev pub last_total : ℕ → List SamplerEvent → ℕ
last_total total [] = total
last_total total (done ∷ rest) = total
last_total total (tick now (err e) received ∷ rest) = last_total total rest
last_total total (tick now (ok snap) received ∷ rest) = last_total snap.total rest

abbrev pub sum_total : {F : Type 0} → List (Observation F) → ℕ
sum_total [] = 0
sum_total (o ∷ rest) = o.total_jiffies + sum_total rest

module _ (F : Type 0) ⦃d : Float F⦄ where
  total_jiffies_lem :
      (now : ℕ) (previous current : Snapshot) (cpus : ℤ)
      → previous.total ≤ current.total
      → (build_observation {F = F} now previous current cpus).total_jiffies + previous.total
        ≡ current.total
  unfolding build_observation
  total_jiffies_lem now previous current cpus h = ground arith

  -- Over a run in which the totals do not fall and every observation is received, the observed totals
  -- add up to the time between the first snapshot and the last: a failed snapshot loses no time, and
  -- none is counted twice.
  pub sum_total-sample_loop :
      (cpus : ℤ) (first : Snapshot) (events : List SamplerEvent)
      → Steady first.total events
      → sum_total (sample_loop {F = F} cpus first events) + first.total
        ≡ last_total first.total events
  unfolding sample_loop
  sum_total-sample_loop cpus first [] s = omega arith
  sum_total-sample_loop cpus first (done ∷ rest) s = absurd s
  sum_total-sample_loop cpus first (tick now (err e) received ∷ rest) s =
      ground (arith, sum_total-sample_loop cpus first rest s.1)
  sum_total-sample_loop cpus first (tick now (ok snap) received ∷ rest) s =
      ground
        (arith, total_jiffies_lem now first snap cpus s.1, sum_total-sample_loop cpus snap rest s.2)
