-- ===== src/Geometry.antt =====
-- internal/geometry: the centerline of a track, and how a car goes along it.
pub mod Centerline
pub mod Continuity
mod Examples
