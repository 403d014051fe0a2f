-- ===== src/Oci.antt =====
-- pkg/oci: the queries to the Monitoring service.
pub mod Query
pub mod Client
pub mod Percentile
pub mod Rank
pub mod Paging
pub mod Weekly
mod Examples
