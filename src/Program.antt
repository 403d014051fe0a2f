-- ===== src/Program.antt =====
-- cmd/shaper: the program around the packages.
pub mod Log
pub mod Inspection
pub mod Options
pub mod Metadata
pub mod Sizing
pub mod Startup
pub mod Offline
pub mod Launch
pub mod Capacity
pub mod Recorder
pub mod Transparency
pub mod Logging
pub mod Server
pub mod Main
pub mod Refusal
pub mod ExitCodes
mod Examples
