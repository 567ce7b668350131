-- ===== src/Indexer/Info.antt =====
-- The records of src/agent/indexer.hpp.
use drlog_search.Base.{ℕ, Option, List, Bytes}

pub record TimeIndex : Type 0 where
  pub timestamp : ℕ
  pub offset : ℕ

pub record FileIndex : Type 0 where
  pub index_etag : Bytes
  pub last_index_time : ℕ
  pub time_indexes : List TimeIndex

-- The regular expressions of a root are in `RootPath` as their texts.
pub record RootPath : Type 0 where
  pub path : Bytes
  pub prefix_pattern : Bytes
  pub path_pattern : Bytes
  pub filename_pattern : Bytes
  pub time_format_pattern : Bytes
  pub max_days : ℕ

pub record FileInfo : Type 0 where
  pub name : Bytes
  pub dir : Bytes
  pub fullpath : Bytes
  pub size : ℕ
  pub mtime : ℕ
  pub file_type : Bytes
  pub etag : Bytes
  pub inode : ℕ
  pub file_index : Option FileIndex
  pub root_path : RootPath
