-- ===== src/Tests/Scan.antt =====
-- The scan and the cache of src/agent/indexer.cpp on small inputs.
use drlog_search.Base.{
  Bool, true, false, Option, some, [], ◌∷◌, Bytes, codes, ◌≡◌, refl, inl, eqb, Permᴰ_refl,
}
use drlog_search.Table.{Sorted, lookup, insert}
use drlog_search.Indexer.Files.{Files}
use drlog_search.Indexer.Cache.{
  map_roots, emplace, emplaced, file_entries, save_index_to_cache, load_index_from_cache,
  compiled_all,
}
use drlog_search.Indexer.Cache.RoundTrip.{Kept, load_index_from_cache-save}
use drlog_search.Indexer.Scan.{Entry, Outside, scan_loop, info_of, passes, seen}
use drlog_search.Indexer.Scan.Current.{Stat}
use drlog_search.Indexer.Scan.Round.{Indexed}
use drlog_search.Indexer.Scan.Loop.{scan_loop-Indexed}
use drlog_search.Tests.Json.{texts, texts-laws}
use drlog_search.Tests.Exchange.{root, log_file}

abbrev one_file : Files
one_file = (codes "/x", log_file) ∷ []

log_file-Kept :
    Kept texts texts-laws
      (λ pattern. true)
      (map_roots [] (root ∷ []))
      one_file
      (codes "/x", log_file)
unfolding map_roots emplace emplaced lookup insert eqb compiled_all
log_file-Kept = record {
  by_path = refl;
  has_path = λ e. cc;
  root_known = refl;
  compiled = refl;
  scanned = log_file;
  is_scanned = refl;
}

abbrev cache_text : Bytes
cache_text = texts.array (file_entries texts one_file)

load_index_from_cache-save_example :
    load_index_from_cache texts (λ pattern. true) (root ∷ []) one_file (some cache_text) ≡ one_file
unfolding save_index_to_cache
load_index_from_cache-save_example =
    load_index_from_cache-save texts texts-laws (λ pattern. true) (root ∷ []) (λ table. table) 1
      one_file one_file cache_text (λ table. Permᴰ_refl table) (tt, tt) (log_file-Kept, tt) refl

abbrev found_entry : Entry
found_entry = record {
  path = codes "/x.gz";
  filename = codes "x.gz";
  parent = codes "/";
  is_symlink = false;
  inode = some 7;
  is_regular = true;
  size = some 3;
  mtime = some 5;
}

abbrev outside : Outside
outside = record {
  now = 9;
  directory = λ path. some (found_entry ∷ []);
  handler = λ path info. some [];
  exists = λ path. some true;
}

abbrev one_stat : Stat
one_stat = record { inode = 7; size = 3; mtime = 5 }

abbrev any_match : Bytes → Bytes → Option Bool
any_match pattern text = some true

scan_loop-Indexed_example :
    Sorted
      (scan_loop texts any_match (λ table. table) (outside ∷ outside ∷ []) (root ∷ []) one_file)
    × Indexed one_stat (
        lookup (codes "/x.gz") (
          scan_loop texts any_match (λ table. table) (outside ∷ outside ∷ []) (root ∷ []) one_file))
unfolding info_of passes seen
scan_loop-Indexed_example =
    scan_loop-Indexed texts any_match (λ table. table) (outside ∷ []) outside (root ∷ []) one_file
      (λ path. one_stat) (codes "/x.gz") (tt, tt)
      ((record { inode_right = refl; size_right = refl; mtime_right = refl }, tt), tt)
      (inl (inl (refl, (_, refl)))) refl (λ info. ([], refl))
