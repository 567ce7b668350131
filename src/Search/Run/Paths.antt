-- ===== src/Search/Run/Paths.antt =====
-- The answer of a search has one entry for each path, in their order.
use drlog_search.Base.{
  ℕ, Option, none, some, List, [], ◌∷◌, ◌++◌, append-nil, append_assoc, Bytes, codes, ◌≡◌, refl,
  ◌∙◌, ◌≢◌, is_empty-ne,
}
use drlog_search.Indexer.Info.{FileInfo, FileIndex}
use drlog_search.Table.{lookup}
use drlog_search.Searchers.Boolean.Failure.{Failure, ok, throw}
use drlog_search.Util.Igzip.{ReadResult}
use drlog_search.Search.Context.{RegexEngine, Searcher, SearchRequest, FileMatches}
use drlog_search.Search.Window.{Window}
use drlog_search.Search.Run.{
  SearchResult, built, refused, thrown, build_searchers, search_window, search_indexed,
  search_known, search_path, search_paths, search,
}

module _ (e : RegexEngine) {Stream : Type 0} (igzread : Stream → ReadResult × Stream)
    (open_text : Bytes → Option Bytes) (igzopen : Bytes → Option Stream)
    (timestamp_of : Bytes → ℕ) where
  search_window-path :
      (req : SearchRequest) (ss : List (Searcher e.Regex)) (p : Bytes) (fi : FileInfo)
      (w : Option Window)
      → (search_window e igzread open_text igzopen timestamp_of req ss p fi w).path ≡ p
  unfolding search_window
  search_window-path req ss p fi none = refl
  search_window-path req ss p fi (some w) = refl

  search_indexed-path :
      (req : SearchRequest) (ss : List (Searcher e.Regex)) (p : Bytes) (fi : FileInfo)
      (i : Option FileIndex)
      → (search_indexed e igzread open_text igzopen timestamp_of req ss p fi i).path ≡ p
  unfolding search_indexed
  search_indexed-path req ss p fi none = refl
  search_indexed-path req ss p fi (some i) = search_window-path req ss p fi _

  search_known-path :
      (req : SearchRequest) (ss : List (Searcher e.Regex)) (p : Bytes) (fi : Option FileInfo)
      → (search_known e igzread open_text igzopen timestamp_of req ss p fi).path ≡ p
  unfolding search_known
  search_known-path req ss p none = refl
  search_known-path req ss p (some fi) = search_indexed-path req ss p fi fi.file_index

  search_path-path :
      (req : SearchRequest) (ss : List (Searcher e.Regex)) (index : List (Bytes × FileInfo))
      (p : Bytes)
      → (search_path e igzread open_text igzopen timestamp_of req ss index p).path ≡ p
  unfolding search_path
  search_path-path req ss index p = search_known-path req ss p (lookup p index)

  abbrev pub paths_of : List FileMatches → List Bytes
  paths_of [] = []
  paths_of (m ∷ ms) = m.path ∷ paths_of ms

  abbrev entries :
      SearchRequest
      → List (Searcher e.Regex)
      → List (Bytes × FileInfo)
      → List Bytes
      → List FileMatches
  entries req ss index [] = []
  entries req ss index (p ∷ ps) =
      search_path e igzread open_text igzopen timestamp_of req ss index p ∷ entries req ss index ps

  search_paths-entries :
      (req : SearchRequest) (ss : List (Searcher e.Regex)) (index : List (Bytes × FileInfo))
      (ps : List Bytes) (result : SearchResult)
      → build_searchers e req.queries ≡ built ss
      → search_paths e igzread open_text igzopen timestamp_of req index ps result
        ≡ ok (record result { matches = result.matches ++ entries req ss index ps })
  unfolding search_paths
  search_paths-entries req ss index [] result b = rw (append-nil result.matches)
  search_paths-entries req ss index (p ∷ ps) result b = rw b (
      search_paths-entries req ss index ps _ b
      ∙ rw (
          append_assoc result.matches
            (search_path e igzread open_text igzopen timestamp_of req ss index p ∷ [])
            (entries req ss index ps)))

  paths_of-entries :
      (req : SearchRequest) (ss : List (Searcher e.Regex)) (index : List (Bytes × FileInfo))
      (ps : List Bytes)
      → paths_of (entries req ss index ps) ≡ ps
  paths_of-entries req ss index [] = refl
  paths_of-entries req ss index (p ∷ ps) =
      rw (search_path-path req ss index p, paths_of-entries req ss index ps)

  search_paths-refused :
      (req : SearchRequest) (index : List (Bytes × FileInfo)) (p : Bytes) (ps : List Bytes)
      (result : SearchResult)
      → build_searchers e req.queries ≡ refused
      → search_paths e igzread open_text igzopen timestamp_of req index (p ∷ ps) result
        ≡ ok (record result { status = 1; error_msg = codes "Failed to build searchers patterns" })
  unfolding search_paths
  search_paths-refused req index p ps result b = rw b

  search_paths-thrown :
      (req : SearchRequest) (index : List (Bytes × FileInfo)) (p : Bytes) (ps : List Bytes)
      (result : SearchResult) (why : Failure)
      → build_searchers e req.queries ≡ thrown why
      → search_paths e igzread open_text igzopen timestamp_of req index (p ∷ ps) result ≡ throw why
  unfolding search_paths
  search_paths-thrown req index p ps result why b = rw b

  -- A search with queries and paths, whatever the files and the index: if the searchers are built,
  -- one entry for each path is added to the matches, in the order of the paths, and nothing else of
  -- the result changes; if a query is refused, the status is 1 and the matches stay as they were;
  -- if a boolean query throws, the search does.
  pub search_lem :
      (req : SearchRequest) (index : List (Bytes × FileInfo)) (result : SearchResult)
      → req.queries ≢ []
      → req.paths ≢ []
      → ((ss : List (Searcher e.Regex))
          → build_searchers e req.queries ≡ built ss
          → (ms : List FileMatches) × (search e igzread open_text igzopen timestamp_of req index
                result
              ≡ ok (record result { matches = result.matches ++ ms }))
            × (paths_of ms ≡ req.paths))
        × (build_searchers e req.queries ≡ refused
            → search e igzread open_text igzopen timestamp_of req index result
              ≡ ok (record result {
                status = 1;
                error_msg = codes "Failed to build searchers patterns";
              }))
        × ((why : Failure)
            → build_searchers e req.queries ≡ thrown why
            → search e igzread open_text igzopen timestamp_of req index result ≡ throw why)
  unfolding search
  search_lem req index result nq np = (
    λ ss b. (
      entries req ss index req.paths,
      rw (is_empty-ne req.queries nq, is_empty-ne req.paths np)
          (search_paths-entries req ss index req.paths result b),
      paths_of-entries req ss index req.paths,
    ),
    λ b. rw (is_empty-ne req.queries nq, is_empty-ne req.paths np) (first_refused req.paths np b),
    λ why b.
        rw (is_empty-ne req.queries nq, is_empty-ne req.paths np) (first_thrown req.paths why np b),
  )
    where
      first_refused :
          (ps : List Bytes)
          → ps ≢ []
          → build_searchers e req.queries ≡ refused
          → search_paths e igzread open_text igzopen timestamp_of req index ps result
            ≡ ok (record result {
              status = 1;
              error_msg = codes "Failed to build searchers patterns";
            })
      first_refused [] n b = absurd (n refl)
      first_refused (p ∷ ps) n b = search_paths-refused req index p ps result b

      first_thrown :
          (ps : List Bytes) (why : Failure)
          → ps ≢ []
          → build_searchers e req.queries ≡ thrown why
          → search_paths e igzread open_text igzopen timestamp_of req index ps result ≡ throw why
      first_thrown [] why n b = absurd (n refl)
      first_thrown (p ∷ ps) why n b = search_paths-thrown req index p ps result why b
