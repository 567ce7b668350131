-- ===== src/Util.antt =====
-- src/util/util.cpp.
pub mod Hash
pub mod Url
pub mod Split
pub mod Igzip
pub mod Gzip
