-- ===== src/Adapt.antt =====
-- pkg/adapt: the adaptive controller.
pub mod Config
pub mod Normalize
pub mod Validate
pub mod DutyCycler
pub mod Controller
pub mod Clamp
pub mod Validity
pub mod Invariant
pub mod Coercion
pub mod Construction
pub mod Shaper
pub mod Feedback
pub mod Hysteresis
pub mod Suppressed
pub mod Relaxation
pub mod Samples
mod Examples
