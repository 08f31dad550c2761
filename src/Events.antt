-- ===== src/Events.antt =====
-- internal/events: engineer events, their deduplication and their store.
pub mod Event
pub mod Dedup
pub mod Identity
pub mod Producer
pub mod Regression
pub mod Rules
pub mod FrameEvents
pub mod Store
pub mod Examples
