-- ===== src/Corners.antt =====
-- internal/corners: the corner at a place of a layout, and what a lap did in a corner.
pub mod Resolver
pub mod Analysis
mod Examples
