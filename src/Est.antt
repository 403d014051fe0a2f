-- ===== src/Est.antt =====
-- pkg/est: the fast estimator.
pub mod Sampler
pub mod Source
pub mod Ranges
pub mod Telescope
pub mod Parsing
mod Examples
