-- ===== src/Indexer/Files.antt =====
-- The table of indexed files in src/agent/indexer.cpp: what a scan puts into it, the update of the
-- indexes, and the queries. The table is by path; its locks make each operation one step.
pub mod Current
use drlog_search.Base.{
  ℕ, ◌+◌, Bool, true, false, not, ◌&&◌, ◌||◌, Option, none, some, List, [], ◌∷◌, Bytes, ◌==◌,
  if◌then◌else◌, is_empty, eqb,
}
use drlog_search.Table.{lookup, insert, erase}
use drlog_search.Text.{find}
use drlog_search.Indexer.Info.{TimeIndex, FileIndex, FileInfo}

-- `index_`
abbrev pub Files : Type 0
Files = List (Bytes × FileInfo)

unfoldable pub scanned : FileInfo → Files → Option FileInfo → Files
scanned info files none = insert info.fullpath info files
scanned info files (some known) =
    if not (known.inode == info.inode)
    then insert info.fullpath info files
    else if not (known.size == info.size) || not (known.mtime == info.mtime)
    then insert info.fullpath (record info { file_index = known.file_index }) files
    else files

-- `scan_root`, for a file that it finds and that passes the filters.
unfoldable pub scan_file : FileInfo → Files → Files
unfolding scanned
scan_file info files = scanned info files (lookup info.fullpath files)

-- `need_update`
unfoldable pub is_stale : FileInfo → Option FileIndex → Bool
is_stale info none = true
is_stale info (some index) = not (eqb index.index_etag info.etag)

-- What the handler of a file's type leaves in `outputs` is put into the index; `none` is an
-- exception of the handler, which is caught and leaves the index as it was.
unfoldable pub reindexed : ℕ → FileInfo → Option (List TimeIndex) → FileInfo
reindexed now info none = info
reindexed now info (some outputs) = record info {
  file_index =
      some (record { index_etag = info.etag; last_index_time = now; time_indexes = outputs });
}

-- One round of `update_file_index`, with what the handlers give for a path.
unfoldable pub update_file :
    ℕ → (Bytes → FileInfo → Option (List TimeIndex)) → Bytes → FileInfo → FileInfo
unfolding is_stale reindexed
update_file now handler path info =
    if is_stale info info.file_index then reindexed now info (handler path info) else info

unfoldable pub has_outputs : Option (List TimeIndex) → Bool
has_outputs none = false
has_outputs (some outputs) = true

-- `update_file_index`: the number of updated indexes, and the table.
unfoldable pub update_file_index :
    ℕ → (Bytes → FileInfo → Option (List TimeIndex)) → Files → ℕ × Files
unfolding update_file has_outputs
update_file_index now handler [] = (0, [])
update_file_index now handler ((path, info) ∷ files) =
    let rest = update_file_index now handler files in
    (
      (if is_stale info info.file_index && has_outputs (handler path info)
          then rest.0 + 1
          else rest.0),
      (path, update_file now handler path info) ∷ rest.1,
    )

-- A file without entries in its index.
unfoldable pub is_unindexed : Option FileIndex → Bool
is_unindexed none = true
is_unindexed (some index) = is_empty index.time_indexes

-- What `fs::exists` says of a path, `none` for an exception: the loop goes on, or erases the entry
-- and goes on, or ends with the exception, which the flag says.
unfoldable pub remove_step : Bytes → Option Bool → (Files → Bool × Files) → Files → Bool × Files
remove_step path none next index = (true, index)
remove_step path (some true) next index = next index
remove_step path (some false) next index = next (erase path index)

-- The loop over the entries that are left.
unfoldable pub remove_loop : (Bytes → Option Bool) → Files → Files → Bool × Files
unfolding is_unindexed remove_step
remove_loop exists [] index = (false, index)
remove_loop exists ((path, info) ∷ entries) index =
    if is_unindexed info.file_index
    then remove_loop exists entries index
    else remove_step path (exists path) (remove_loop exists entries) index

-- `order` is the order in which the entries of the unordered map are run through.
unfoldable pub remove_unused_indexes :
    (Files → Files) → (Bytes → Option Bool) → Files → Bool × Files
unfolding remove_loop
remove_unused_indexes order exists files = remove_loop exists (order files) files

-- `find(prefix) != 0` fails.
unfoldable pub begins_with : Option ℕ → Bool
begins_with none = false
begins_with (some i) = i == 0

unfoldable pub is_listed :
    (Bytes → Bytes → Option Bool) → Bytes → Bytes → FileInfo → Option Bool → Bool
unfolding begins_with
is_listed regex_match prefix path info none = false
is_listed regex_match prefix path info (some false) = false
is_listed regex_match prefix path info (some true) =
    begins_with (find prefix info.root_path.path) && begins_with (find path prefix)

-- `regex_match` answers whether a pattern matches the whole of a text; `none` is a `regex_error`,
-- which is caught.
unfoldable pub list_prefix : (Bytes → Bytes → Option Bool) → Bytes → Files → List FileInfo
unfolding is_listed
list_prefix regex_match prefix [] = []
list_prefix regex_match prefix ((path, info) ∷ files) =
    let rest = list_prefix regex_match prefix files in
    if is_listed regex_match prefix path info (regex_match info.root_path.prefix_pattern prefix)
    then info ∷ rest
    else rest

-- `get_file_index_by_path`: `none` is the answer false.
unfoldable pub get_file_index_by_path : Bytes → Files → Option FileInfo
get_file_index_by_path path files = lookup path files
