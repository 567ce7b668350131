-- ===== src/Indexer.antt =====
-- src/agent/indexer.hpp and indexer.cpp.
pub mod Info
pub mod Txt
pub mod Gzip
pub mod Files
pub mod Cache
pub mod Scan
pub mod Timestamp
