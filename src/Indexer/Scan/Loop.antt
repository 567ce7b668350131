-- ===== src/Indexer/Scan/Loop.antt =====
-- `scan_loop` of src/agent/indexer.cpp over several rounds.
use drlog_search.Base.{ℕ, some, true, false, Bool, Option, List, [], ◌∷◌, ◌++◌, Bytes, ◌≡◌}
use drlog_search.Json.{Json}
use drlog_search.Table.{lookup, Sorted}
use drlog_search.Indexer.Info.{RootPath}
use drlog_search.Indexer.Files.{Files, update_file_index, remove_unused_indexes}
use drlog_search.Indexer.Files.Current.{remove_loop-Sorted}
use drlog_search.Indexer.Scan.{Outside, cached, index_files, scan_roots, scan_round, scan_loop}
use drlog_search.Indexer.Scan.Current.{Stat, Snapshots, FoundIn}
use drlog_search.Indexer.Scan.Round.{
  update-Sorted, scan_roots-Sorted, Handles, Indexed, scan_round-Indexed,
}

cached-Sorted :
    (json : Json) (regex_match : Bytes → Bytes → Option Bool) (order : Files → Files) (count : ℕ)
    (r : Bool × Files)
    → Sorted r.1
    → Sorted (cached json regex_match order count r).1
unfolding cached
cached-Sorted json regex_match order count (true, files) s = s
cached-Sorted json regex_match order count (false, files) s = s

module _ (json : Json) (regex_match : Bytes → Bytes → Option Bool) (order : Files → Files) where
  scan_round-Sorted :
      (outside : Outside) (roots : List RootPath) (files : Files)
      → Sorted files
      → Sorted (scan_round json regex_match order outside roots files).0
  unfolding scan_round index_files remove_unused_indexes
  scan_round-Sorted outside roots files s =
      let scanned_table = scan_roots regex_match outside.directory roots files in
      let updated = update_file_index outside.now outside.handler scanned_table in
      cached-Sorted json regex_match order updated.0
        (remove_unused_indexes order outside.exists updated.1)
        (remove_loop-Sorted outside.exists (order updated.1) updated.1 (
          update-Sorted outside.now outside.handler scanned_table
            (scan_roots-Sorted regex_match outside.directory roots files s)))

  -- After however many rounds on a table with one entry for each path, where in the last round the
  -- directories are a snapshot of what the file system says: the table has one entry for each path,
  -- and each file that some root's scan does not skip, that still exists and that its handler reads
  -- with no exception is in it, with the inode, the size and the time of change that the file
  -- system says, and with an index whose tag is the file's.
  pub scan_loop-Indexed :
      (rounds : List Outside) (last : Outside) (roots : List RootPath) (files : Files)
      (stat : Bytes → Stat) (path : Bytes)
      → Sorted files
      → Snapshots regex_match stat last.directory roots
      → FoundIn regex_match stat last.directory roots path
      → last.exists path ≡ some true
      → Handles last path
      → Sorted (scan_loop json regex_match order (rounds ++ last ∷ []) roots files)
        × Indexed
            (stat path)
            (lookup path (scan_loop json regex_match order (rounds ++ last ∷ []) roots files))
  unfolding scan_loop
  scan_loop-Indexed [] last roots files stat path s h f e handles = (
    scan_round-Sorted last roots files s,
    scan_round-Indexed json regex_match order last roots files stat path h f e handles,
  )
  scan_loop-Indexed (outside ∷ rounds) last roots files stat path s h f e handles =
      scan_loop-Indexed rounds last roots (scan_round json regex_match order outside roots files).0
        stat path (scan_round-Sorted outside roots files s) h f e handles
