-- ===== src/Indexer/Scan/Round.antt =====
-- After a round of `scan_loop` (src/agent/indexer.cpp) the files that are found are in the table,
-- and their indexes are those of the files as they are.
use drlog_search.Base.{
  eqb_iff, ℕ, Bool, true, false, Option, none, some, List, [], ◌∷◌, Bytes, eqb, ◌≡◌, refl, ap, ◌∙◌,
  inl, inr, arith, Bool-cases,
}
use drlog_search.Json.{Json}
use drlog_search.Table.{lookup, Sorted, Above, insert-Sorted}
use drlog_search.Indexer.Info.{TimeIndex, RootPath, FileInfo}
use drlog_search.Indexer.Files.{
  Files, reindexed, scanned, scan_file, is_stale, update_file, update_file_index,
  remove_unused_indexes,
}
use drlog_search.Indexer.Files.Current.{update_file-fresh, remove_loop-keeps}
use drlog_search.Indexer.Scan.{
  Entry, info_of, scan_seen, scan_entries, scan_root, scan_roots, Outside, cached, index_files,
  scan_round,
}
use drlog_search.Indexer.Scan.Current.{Stat, Shown, Snapshots, FoundIn, scan_roots-Shown}

abbrev updated :
    ℕ → (Bytes → FileInfo → Option (List TimeIndex)) → Bytes → Option FileInfo → Option FileInfo
updated now handler path none = none
updated now handler path (some info) = some (update_file now handler path info)

lookup-update :
    (now : ℕ) (handler : Bytes → FileInfo → Option (List TimeIndex)) (path : Bytes) (files : Files)
    → lookup path (update_file_index now handler files).1
      ≡ updated now handler path (lookup path files)
unfolding update_file_index lookup
lookup-update now handler path [] = refl
lookup-update now handler path ((k, info) ∷ files) = elim (Bool-cases (eqb path k)) [
  | inl y ↦ let e = (eqb_iff path k).0 y in rw y (rw e refl)
  | inr n ↦ rw n (lookup-update now handler path files)
]

update-Above :
    (now : ℕ) (handler : Bytes → FileInfo → Option (List TimeIndex)) (low : Bytes) (files : Files)
    → Above low files
    → Above low (update_file_index now handler files).1
unfolding update_file_index
update-Above now handler low [] h = tt
update-Above now handler low ((k, info) ∷ files) h = (h.0, update-Above now handler low files h.1)

pub update-Sorted :
    (now : ℕ) (handler : Bytes → FileInfo → Option (List TimeIndex)) (files : Files)
    → Sorted files
    → Sorted (update_file_index now handler files).1
unfolding update_file_index
update-Sorted now handler [] h = tt
update-Sorted now handler ((k, info) ∷ files) h =
    (update-Above now handler k files h.0, update-Sorted now handler files h.1)

scanned-Sorted :
    (info : FileInfo) (files : Files) (o : Option FileInfo)
    → Sorted files
    → Sorted (scanned info files o)
unfolding scanned
scanned-Sorted info files none s = insert-Sorted info.fullpath info files s
scanned-Sorted info files (some known) s = ground (
  arith,
  s,
  insert-Sorted info.fullpath info files s,
  insert-Sorted info.fullpath (record info { file_index = known.file_index }) files s,
)

module _ (regex_match : Bytes → Bytes → Option Bool) where
  scan_seen-Sorted :
      (o : Option FileInfo) (files : Files) → Sorted files → Sorted (scan_seen o files)
  unfolding scan_seen scan_file
  scan_seen-Sorted none files s = s
  scan_seen-Sorted (some info) files s = scanned-Sorted info files (lookup info.fullpath files) s

  scan_entries-Sorted :
      (rp : RootPath) (entries : List Entry) (files : Files)
      → Sorted files
      → Sorted (scan_entries regex_match rp entries files)
  unfolding scan_entries
  scan_entries-Sorted rp [] files s = s
  scan_entries-Sorted rp (e ∷ entries) files s =
      scan_entries-Sorted rp entries (scan_seen (info_of regex_match rp e) files)
        (scan_seen-Sorted (info_of regex_match rp e) files s)

  scan_root-Sorted :
      (rp : RootPath) (o : Option (List Entry)) (files : Files)
      → Sorted files
      → Sorted (scan_root regex_match rp o files)
  unfolding scan_root
  scan_root-Sorted rp none files s = s
  scan_root-Sorted rp (some entries) files s = scan_entries-Sorted rp entries files s

  pub scan_roots-Sorted :
      (directory : Bytes → Option (List Entry)) (roots : List RootPath) (files : Files)
      → Sorted files
      → Sorted (scan_roots regex_match directory roots files)
  unfolding scan_roots
  scan_roots-Sorted directory [] files s = s
  scan_roots-Sorted directory (rp ∷ roots) files s =
      scan_roots-Sorted directory roots (scan_root regex_match rp (directory rp.path) files)
        (scan_root-Sorted rp (directory rp.path) files s)

-- A file is in the table as the file system says, and its index is not out of date.
pub record Indexed (stat : Stat) (o : Option FileInfo) : Type 0 where
  pub shown : Shown stat o
  pub fresh : is_stale shown.entry shown.entry.file_index ≡ false

reindexed-keeps :
    (now : ℕ) (info : FileInfo) (o : Option (List TimeIndex))
    → ((reindexed now info o).inode ≡ info.inode)
      × ((reindexed now info o).size ≡ info.size)
      × ((reindexed now info o).mtime ≡ info.mtime)
unfolding reindexed
reindexed-keeps now info none = (refl, refl, refl)
reindexed-keeps now info (some outputs) = (refl, refl, refl)

update_file-keeps :
    (now : ℕ) (handler : Bytes → FileInfo → Option (List TimeIndex)) (path : Bytes)
    (info : FileInfo)
    → ((update_file now handler path info).inode ≡ info.inode)
      × ((update_file now handler path info).size ≡ info.size)
      × ((update_file now handler path info).mtime ≡ info.mtime)
unfolding update_file
update_file-keeps now handler path info = elim (Bool-cases (is_stale info info.file_index)) [
  | inl y ↦ rw y (reindexed-keeps now info (handler path info))
  | inr n ↦ rw n (refl, refl, refl)
]

-- What is known of a path behind the step of the cache.
lookup-cached :
    (json : Json) (regex_match : Bytes → Bytes → Option Bool) (order : Files → Files) (path : Bytes)
    (count : ℕ) (r : Bool × Files)
    → lookup path (cached json regex_match order count r).1 ≡ lookup path r.1
unfolding cached
lookup-cached json regex_match order path count (true, files) = refl
lookup-cached json regex_match order path count (false, files) = refl

-- The handler of a file's type gives outputs for a path.
abbrev pub Handles : Outside → Bytes → Type 0
Handles outside path =
    (info : FileInfo) → (outputs : List TimeIndex) × (outside.handler path info ≡ some outputs)

indexed :
    (outside : Outside) (order : Files → Files) (path : Bytes) (files : Files) (stat : Stat)
    → outside.exists path ≡ some true
    → Handles outside path
    → Shown stat (lookup path files)
    → Indexed stat (
        lookup path
          (remove_unused_indexes order outside.exists
            (update_file_index outside.now outside.handler files).1).1)
unfolding remove_unused_indexes
indexed outside order path files stat e handles shown =
    let now = outside.now in
    let handler = outside.handler in
    let table = (update_file_index now handler files).1 in
    let up = lookup-update now handler path files ∙ ap (updated now handler path) shown.present in
    let keeps = update_file-keeps now handler path shown.entry in
    let (outputs, o) = handles shown.entry in
    record {
      shown = record {
        entry = update_file now handler path shown.entry;
        present = remove_loop-keeps outside.exists (order table) table path e ∙ up;
        inode_shown = keeps.0 ∙ shown.inode_shown;
        size_shown = keeps.1 ∙ shown.size_shown;
        mtime_shown = keeps.2 ∙ shown.mtime_shown;
      };
      fresh = update_file-fresh now handler path shown.entry outputs o;
    }

-- After a round on a table with one entry for each path, where the directories are a snapshot of
-- what the file system says: each file that some root's scan does not skip, that still exists and
-- that is read with no exception is in the table, with the inode, the size and the time of change
-- that the file system says, and with an index whose tag is the file's.
pub scan_round-Indexed :
    (json : Json) (regex_match : Bytes → Bytes → Option Bool) (order : Files → Files)
    (outside : Outside) (roots : List RootPath) (files : Files) (stat : Bytes → Stat) (path : Bytes)
    → Snapshots regex_match stat outside.directory roots
    → FoundIn regex_match stat outside.directory roots path
    → outside.exists path ≡ some true
    → Handles outside path
    → Indexed (stat path) (lookup path (scan_round json regex_match order outside roots files).0)
unfolding scan_round index_files
scan_round-Indexed json regex_match order outside roots files stat path h f e handles =
    rw (lookup-cached json regex_match order path _ _) (
      indexed outside order path (scan_roots regex_match outside.directory roots files) (stat path)
        e handles (scan_roots-Shown regex_match stat outside.directory path roots files h f))
