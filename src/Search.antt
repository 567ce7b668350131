-- ===== src/Search.antt =====
-- src/agent/searcher.hpp and searcher.cpp.
pub mod Context
pub mod Exec
pub mod Lines
pub mod Window
pub mod Carry
pub mod Txt
pub mod Gzip
pub mod Run
