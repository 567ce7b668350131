-- ===== src/Searchers.antt =====
-- src/agent/searchers.
pub mod Word
pub mod Boolean
