-- ===== src/Search/Run.antt =====
-- `build_searchers`, `search_file` and `search` of src/agent/searcher.cpp.
pub mod Queries
pub mod Paths
use drlog_search.Base.{
  ℕ, ◌+◌, not, Option, none, some, List, [], ◌∷◌, ◌++◌, Bytes, codes, if◌then◌else◌, is_empty, eqb,
}
use drlog_search.Indexer.Info.{FileInfo, FileIndex}
use drlog_search.Table.{lookup}
use drlog_search.Searchers.Boolean.{Node}
use drlog_search.Searchers.Boolean.Failure.{Failure, Result, ok, throw}
use drlog_search.Searchers.Boolean.Build.{build_pattern}
use drlog_search.Util.Igzip.{ReadResult}
use drlog_search.Search.Context.{
  RegexEngine, Searcher, simple, boolean, regex, LogLine, Progress, SearchContext, QueryString,
  SearchRequest, FileMatches,
}
use drlog_search.Search.Window.{Window, find_index_pos}
use drlog_search.Search.Txt.{search_file_txt}
use drlog_search.Search.Gzip.{search_file_igzip}

-- `SearchResult`
pub record SearchResult : Type 0 where
  pub matches : List FileMatches
  pub status : ℕ
  pub error_msg : Bytes

-- The end of `build_searchers`: the answer true with the searchers, the answer false, or the
-- exception of a boolean pattern.
pub data Built (A : Type 0) : Type 0 where
  built : A → Built A
  refused : Built A
  thrown : Failure → Built A

module _ (e : RegexEngine) where
  unfoldable pub build_boolean : Result Node → Built (Searcher e.Regex)
  build_boolean (ok root) = built (boolean root)
  build_boolean (throw why) = thrown why

  unfoldable pub build_regex : Option e.Regex → Built (Searcher e.Regex)
  build_regex none = refused
  build_regex (some pattern) = built (regex pattern)

  unfoldable pub build_searcher : QueryString → Built (Searcher e.Regex)
  unfolding build_boolean build_regex
  build_searcher q =
      if is_empty q.query
      then refused
      else if eqb q.type (codes "simple")
      then built (simple q.query)
      else if eqb q.type (codes "boolean")
      then build_boolean (build_pattern q.query)
      else if eqb q.type (codes "regex")
      then build_regex (e.compile q.query)
      else refused

  unfoldable pub add_searcher :
      Built (Searcher e.Regex) → Built (List (Searcher e.Regex)) → Built (List (Searcher e.Regex))
  add_searcher refused later = refused
  add_searcher (thrown why) later = thrown why
  add_searcher (built s) refused = refused
  add_searcher (built s) (thrown why) = thrown why
  add_searcher (built s) (built ss) = built (s ∷ ss)

  unfoldable pub build_searchers : List QueryString → Built (List (Searcher e.Regex))
  unfolding build_searcher add_searcher
  build_searchers [] = built []
  build_searchers (q ∷ queries) = add_searcher (build_searcher q) (build_searchers queries)

  -- The files: a text by its path, `none` where it cannot be opened, and a gzip stream with its
  -- reads.
  module _ {Stream : Type 0} (igzread : Stream → ReadResult × Stream)
      (open_text : Bytes → Option Bytes) (igzopen : Bytes → Option Stream)
      (timestamp_of : Bytes → ℕ) where
    unfoldable pub search_file : Bytes → Bytes → SearchContext e.Regex → Progress
    search_file file_type path ctx =
        if eqb file_type (codes "gzip")
        then search_file_igzip igzread e timestamp_of ctx (igzopen path)
        else search_file_txt e timestamp_of ctx (open_text path)

    abbrev pub failed_match : Bytes → Bytes → FileMatches
    failed_match path message = record { path = path; lines = []; status = 1; error_msg = message }

    unfoldable pub search_window :
        SearchRequest → List (Searcher e.Regex) → Bytes → FileInfo → Option Window → FileMatches
    unfolding search_file
    search_window req searchers p fi none = failed_match p (codes "Time range not covered by index")
    search_window req searchers p fi (some w) =
        let ctx : SearchContext e.Regex = record {
          start_time = req.start_time;
          end_time = req.end_time;
          max_results = req.max_results;
          index_start_pos = w.index_start_pos;
          index_end_pos = w.index_end_pos;
          searchers = searchers;
        } in
        let r = search_file fi.file_type p ctx in
        record { path = p; lines = r.matched_lines; status = r.status; error_msg = r.error_msg }

    unfoldable pub search_indexed :
        SearchRequest → List (Searcher e.Regex) → Bytes → FileInfo → Option FileIndex → FileMatches
    unfolding search_window
    search_indexed req searchers p fi none = failed_match p (codes "File not found in index list")
    search_indexed req searchers p fi (some index) =
        search_window req searchers p fi
          (find_index_pos req.start_time req.end_time index.time_indexes)

    -- What is done with the answer of `get_file_index_by_path`.
    unfoldable pub search_known :
        SearchRequest → List (Searcher e.Regex) → Bytes → Option FileInfo → FileMatches
    unfolding search_indexed
    search_known req searchers p none = failed_match p (codes "File not found in index list")
    search_known req searchers p (some fi) = search_indexed req searchers p fi fi.file_index

    unfoldable pub search_path :
        SearchRequest → List (Searcher e.Regex) → List (Bytes × FileInfo) → Bytes → FileMatches
    unfolding search_known
    search_path req searchers index p = search_known req searchers p (lookup p index)

    -- The searchers are built anew for each path.
    unfoldable pub search_one :
        SearchRequest
        → List (Bytes × FileInfo)
        → SearchResult
        → Bytes
        → Built (List (Searcher e.Regex))
        → (SearchResult → Result SearchResult)
        → Result SearchResult
    unfolding search_path
    search_one req index result p refused next =
        ok (record result { status = 1; error_msg = codes "Failed to build searchers patterns" })
    search_one req index result p (thrown why) next = throw why
    search_one req index result p (built searchers) next =
        next (record result { matches = result.matches ++ search_path req searchers index p ∷ [] })

    unfoldable pub search_paths :
        SearchRequest → List (Bytes × FileInfo) → List Bytes → SearchResult → Result SearchResult
    unfolding search_one
    search_paths req index [] result = ok result
    search_paths req index (p ∷ paths) result =
        search_one req index result p (build_searchers req.queries) (search_paths req index paths)

    -- The exception of a boolean pattern leaves `result` as it was: it is thrown for the first
    -- path.
    unfoldable pub search :
        SearchRequest → List (Bytes × FileInfo) → SearchResult → Result SearchResult
    unfolding search_paths
    search req index result =
        if is_empty req.queries
        then ok (record result { status = 1; error_msg = codes "No queries specified" })
        else if is_empty req.paths
        then ok (record result { status = 1; error_msg = codes "No target paths specified" })
        else search_paths req index req.paths result
