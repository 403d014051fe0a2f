-- ===== src/Program/Log.antt =====
-- The structured log of cmd/shaper: what is passed to a `zap.Logger`. A time is in nanoseconds.
use oci_cpu_shaper.Base.{ℕ, Bool, List}
use oci_cpu_shaper.Base.Int.{ℤ}
use oci_cpu_shaper.Base.Text.{Text}

pub data Level : Type 0 where
  debug info warn error : Level

pub data Field (F : Type 0) : Type 0 where
  string : Text → Text → Field F
  int : Text → ℤ → Field F
  uint : Text → ℕ → Field F
  bool : Text → Bool → Field F
  float : Text → F → Field F
  duration : Text → ℤ → Field F
  time : Text → ℕ → Field F

pub record Entry (F : Type 0) : Type 0 where
  pub level : Level
  pub message : Text
  pub fields : List (Field F)
