-- ===== src/Metrics.antt =====
-- pkg/http/metrics: the exporter of the program's gauges.
pub mod Exporter
pub mod Ranges
pub mod Reported
pub mod Mirror
pub mod Stale
pub mod Rendering
pub mod Lines
pub mod Scrape
mod Examples
