-- ===== src/Telemetry.antt =====
-- internal/telemetry: frames, batches and what is kept of them.
pub mod Rejection
pub mod Frame
pub mod Ranges
pub mod Batch
pub mod WellFormed
pub mod Intake
pub mod Summary
pub mod Store
pub mod Examples
