-- ===== src/Laps.antt =====
-- internal/laps: completed laps, their telemetry gaps, and what is stored of them.
pub mod Lap
pub mod Extract
pub mod Gap
pub mod Sample
pub mod Sampling
pub mod Build
pub mod Repository
pub mod Examples
