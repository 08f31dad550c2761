-- ===== src/Sessions.antt =====
-- internal/sessions: driving sessions and their life cycle.
pub mod Session
pub mod Id
pub mod Repository
pub mod Summaries
pub mod Examples
