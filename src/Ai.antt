-- ===== src/Ai.antt =====
-- internal/ai: the controls around calls of an AI provider.
pub mod Error
pub mod Budget
pub mod Input
pub mod Context
pub mod Fallback
pub mod Retry
pub mod Controller
pub mod Service
pub mod Examples
