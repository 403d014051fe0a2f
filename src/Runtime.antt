-- ===== src/Runtime.antt =====
-- pkg/runtimeconfig: the configuration of the program, from its defaults, a file and the environment.
pub mod Settings
pub mod Sources
pub mod Load
pub mod Checks
pub mod Build
pub mod Layered
pub mod Precedence
pub mod Layers
pub mod Accepted
mod Examples
