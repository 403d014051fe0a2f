-- ===== src/Shape.antt =====
-- pkg/shape: the worker pool.
pub mod Pool
pub mod Worker
pub mod Hooks
pub mod Bounds
pub mod Pausing
mod Examples
