-- ===== src/Imds.antt =====
-- pkg/imds: the client of the metadata service.
pub mod Transport
pub mod Retry
pub mod Client
mod Examples
