-- ===== src/Indexer/Scan.antt =====
-- The scan of src/agent/indexer.cpp: `add_root`, `scan_root`, and the rounds of `init_indexes` and
-- `scan_loop`. A directory is the list of its entries, as the iterator gives them.
pub mod Current
pub mod Round
pub mod Loop
use drlog_search.Base.{
  ℕ, ◌+◌, ◌-◌, Bool, true, false, not, ◌&&◌, ◌||◌, Option, none, some, List, [], ◌∷◌, ◌++◌, Bytes,
  codes, ◌==◌, leb, if◌then◌else◌, is_empty, map, eqb, length, drop,
}
use drlog_search.Util.Hash.{etag_from_size_mtime}
use drlog_search.Json.{Json}
use drlog_search.Indexer.Info.{TimeIndex, RootPath, FileInfo}
use drlog_search.Indexer.Files.{Files, scan_file, update_file_index, remove_unused_indexes}
use drlog_search.Indexer.Cache.{save_index_to_cache, load_index_from_cache}

-- An entry of a directory with what the calls on it answer; `none` is a failure or an exception.
pub record Entry : Type 0 where
  pub path : Bytes
  pub filename : Bytes
  pub parent : Bytes
  pub is_symlink : Bool
  pub inode : Option ℕ
  pub is_regular : Bool
  pub size : Option ℕ
  pub mtime : Option ℕ

-- The patterns are kept as texts, also those that do not compile.
unfoldable pub add_root : Bytes → Bytes → Bytes → Bytes → Bytes → ℕ → List RootPath → List RootPath
add_root root_path filename_pattern time_format_pattern path_pattern prefix_pattern max_days roots =
    roots
    ++ record {
      path = root_path;
      prefix_pattern = prefix_pattern;
      path_pattern = path_pattern;
      filename_pattern = filename_pattern;
      time_format_pattern = time_format_pattern;
      max_days = max_days;
    }
      ∷ []

-- `std::tolower` in the C locale.
unfoldable pub to_lower : ℕ → ℕ
to_lower c = if leb b'A' c && leb c b'Z' then c + 32 else c

unfoldable pub file_type_of : Bytes → Bytes
unfolding to_lower
file_type_of filename =
    let lower = map to_lower filename in
    if leb 3 (length lower) && eqb (drop (length lower - 3) lower) (codes ".gz")
    then codes "gzip"
    else codes "text"

unfoldable pub holds : Option Bool → Bool
holds none = false
holds (some b) = b

-- A pattern, where there is one, matches; `none` is an exception of the match.
unfoldable pub passes : (Bytes → Bytes → Option Bool) → Bytes → Bytes → Bool
unfolding holds
passes regex_match pattern text = is_empty pattern || holds (regex_match pattern text)

unfoldable pub seen : RootPath → Entry → Option ℕ → Option ℕ → Option ℕ → Option FileInfo
unfolding file_type_of etag_from_size_mtime
seen rp entry (some inode) (some size) (some mtime) = some (record {
  name = entry.filename;
  dir = entry.parent;
  fullpath = entry.path;
  size = size;
  mtime = mtime;
  file_type = file_type_of entry.filename;
  etag = etag_from_size_mtime size mtime;
  inode = inode;
  file_index = none;
  root_path = rp;
})
seen rp entry _ _ _ = none

-- What the round of the loop sees of an entry; `none` is that it is skipped.
unfoldable pub info_of : (Bytes → Bytes → Option Bool) → RootPath → Entry → Option FileInfo
unfolding seen passes
info_of regex_match rp entry =
    if entry.is_symlink || not entry.is_regular
    then none
    else if passes regex_match rp.path_pattern entry.path
        && passes regex_match rp.filename_pattern entry.filename
    then seen rp entry entry.inode entry.size entry.mtime
    else none

unfoldable pub scan_seen : Option FileInfo → Files → Files
unfolding scan_file
scan_seen none files = files
scan_seen (some info) files = scan_file info files

unfoldable pub scan_entries : (Bytes → Bytes → Option Bool) → RootPath → List Entry → Files → Files
unfolding scan_seen info_of
scan_entries regex_match rp [] files = files
scan_entries regex_match rp (entry ∷ entries) files =
    scan_entries regex_match rp entries (scan_seen (info_of regex_match rp entry) files)

-- `none` is a root that does not exist or is no directory.
unfoldable pub scan_root :
    (Bytes → Bytes → Option Bool) → RootPath → Option (List Entry) → Files → Files
unfolding scan_entries
scan_root regex_match rp none files = files
scan_root regex_match rp (some entries) files = scan_entries regex_match rp entries files

unfoldable pub scan_roots :
    (Bytes → Bytes → Option Bool) → (Bytes → Option (List Entry)) → List RootPath → Files → Files
unfolding scan_root
scan_roots regex_match directory [] files = files
scan_roots regex_match directory (rp ∷ roots) files =
    scan_roots regex_match directory roots (scan_root regex_match rp (directory rp.path) files)

-- What a round meets outside: the clock, the directories, what the handlers of a file's type give
-- (`none` is an exception), and what exists when unused indexes are removed (`none` is an
-- exception).
pub record Outside : Type 0 where
  pub now : ℕ
  pub directory : Bytes → Option (List Entry)
  pub handler : Bytes → FileInfo → Option (List TimeIndex)
  pub exists : Bytes → Option Bool

module _ (json : Json) (regex_match : Bytes → Bytes → Option Bool) (order : Files → Files) where
  -- The last step of a round, which an exception of the step before leaves out: the new text of the
  -- cache file if it is written. The flag says that there is an exception.
  unfoldable pub cached : ℕ → Bool × Files → Bool × Files × Option Bytes
  unfolding save_index_to_cache
  cached updated_index_count (true, files) = (true, files, none)
  cached updated_index_count (false, files) =
      (false, files, save_index_to_cache json order updated_index_count files)

  -- The steps behind the scan.
  unfoldable pub index_files : Outside → Files → Bool × Files × Option Bytes
  unfolding update_file_index remove_unused_indexes cached
  index_files outside files =
      let (updated_index_count, updated) = update_file_index outside.now outside.handler files in
      cached updated_index_count (remove_unused_indexes order outside.exists updated)

  -- One round of `scan_loop`, which catches the exception.
  unfoldable pub scan_round : Outside → List RootPath → Files → Files × Option Bytes
  unfolding index_files scan_roots
  scan_round outside roots files =
      let r = index_files outside (scan_roots regex_match outside.directory roots files) in
      (r.1, r.2)

  -- `none` is the exception, which ends the program.
  unfoldable pub initialised : Bool × Files × Option Bytes → Option (Files × Option Bytes)
  initialised (true, files, text) = none
  initialised (false, files, text) = some (files, text)

  unfoldable pub init_indexes :
      (Bytes → Bool)
      → Outside
      → List RootPath
      → Option Bytes
      → Files
      → Option (Files × Option Bytes)
  unfolding index_files scan_roots load_index_from_cache initialised
  init_indexes compiles outside roots cache files = initialised (
      index_files outside (
        load_index_from_cache json compiles roots
          (scan_roots regex_match outside.directory roots files) cache))

  -- The loop, as long as `running_` is true, over what its rounds meet.
  unfoldable pub scan_loop : List Outside → List RootPath → Files → Files
  unfolding scan_round
  scan_loop [] roots files = files
  scan_loop (outside ∷ rounds) roots files =
      scan_loop rounds roots (scan_round outside roots files).0
