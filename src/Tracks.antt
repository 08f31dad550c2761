-- ===== src/Tracks.antt =====
-- internal/tracks: the catalog of tracks, what it says of a layout, and which layout was driven.
pub mod Types
pub mod Sources
pub mod Ranges
pub mod Validation
pub mod Production
pub mod Approved
pub mod Capabilities
pub mod Selectable
pub mod Detection
mod Examples
