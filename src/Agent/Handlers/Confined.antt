-- ===== src/Agent/Handlers/Confined.antt =====
-- A search sees nothing outside its prefix (`search` of src/agent/agent_handler.cpp).
use drlog_search.Base.{
  Bool, true, false, Option, none, some, List, [], ◌∷◌, Bytes, codes, if◌then◌else◌, eqb, eqb_iff,
  ◌≡◌, refl, sym, subst, inl, inr, arith, Bool-cases, Option-cases, All,
}
use drlog_search.Table.{lookup}
use drlog_search.Text.{find}
use drlog_search.Util.Url.{url_decode}
use drlog_search.Searchers.Boolean.Failure.{Result}
use drlog_search.Http.{Returns-then, bind-ext, returned, Returns, Request, Response}
use drlog_search.Indexer.Info.{FileInfo}
use drlog_search.Indexer.Files.{Files, list_prefix, is_listed, begins_with}
use drlog_search.Search.Context.{SearchRequest, Searcher}
use drlog_search.Search.Run
use drlog_search.Search.Run.{
  SearchResult, Built, built, build_searchers, search_paths, search_one, search_path,
}
use drlog_search.Agent.Handlers.{Platform}
use drlog_search.Agent.Handlers.Query
use drlog_search.Agent.Handlers.Query.{
  add_path, read_paths, read_rest, search_request, searched, search_body, search,
}

-- The files under a prefix.
abbrev pub under : Bytes → Files → Files
under prefix [] = []
under prefix ((path, fi) ∷ files) =
    if begins_with (find path prefix) then (path, fi) ∷ under prefix files else under prefix files

lookup-under :
    (prefix path : Bytes) (files : Files)
    → begins_with (find path prefix) ≡ true
    → lookup path (under prefix files) ≡ lookup path files
unfolding lookup
lookup-under prefix path [] h = refl
lookup-under prefix path ((k, fi) ∷ files) h = elim (Bool-cases (eqb path k)) [
  | inl y ↦
      let e = (eqb_iff path k).0 y in
      let t : begins_with (find k prefix) ≡ true = rw (← e) h in rw (t, y) refl
  | inr n ↦ elim (Bool-cases (begins_with (find k prefix))) [
    | inl t ↦ rw (t, n) (lookup-under prefix path files h)
    | inr t ↦ rw (t, n) (lookup-under prefix path files h)
  ]
]

is_listed-outside :
    (regex_match : Bytes → Bytes → Option Bool) (prefix path : Bytes) (fi : FileInfo)
    (o : Option Bool)
    → begins_with (find path prefix) ≡ false
    → is_listed regex_match prefix path fi o ≡ false
unfolding is_listed
is_listed-outside regex_match prefix path fi none h = refl
is_listed-outside regex_match prefix path fi (some false) h = refl
is_listed-outside regex_match prefix path fi (some true) h = ground (arith, h)

list_prefix-under :
    (regex_match : Bytes → Bytes → Option Bool) (prefix : Bytes) (files : Files)
    → list_prefix regex_match prefix (under prefix files) ≡ list_prefix regex_match prefix files
unfolding list_prefix
list_prefix-under regex_match prefix [] = refl
list_prefix-under regex_match prefix ((path, fi) ∷ files) =
    elim (Bool-cases (begins_with (find path prefix))) [
      | inl y ↦ rw (y, list_prefix-under regex_match prefix files) refl
      | inr n ↦
          rw
            (
              n,
              is_listed-outside regex_match prefix path fi
                  (regex_match fi.root_path.prefix_pattern prefix) n,
            )
            (list_prefix-under regex_match prefix files)
    ]

abbrev Under : Bytes → Bytes → Type 0
Under prefix path = begins_with (find path prefix) ≡ true

-- Of the paths that were read, if they were.
abbrev PathsUnder : Bytes → Option (List Bytes) → Type 0
PathsUnder prefix none = Unit
PathsUnder prefix (some paths) = All (Under prefix) paths

module _ (platform : Platform) where
  open platform use {json}
  open json use {Value}

  add_path-Under :
      (prefix path : Bytes)
      → Under prefix path
      → (paths : Option (List Bytes)) → PathsUnder prefix paths
      → PathsUnder prefix (add_path platform path true paths)
  unfolding add_path
  add_path-Under prefix path y none h = tt
  add_path-Under prefix path y (some paths) h = (y, h)

  read_paths-under :
      (prefix : Bytes) (items : List Value)
      → Returns (PathsUnder prefix) (read_paths platform prefix items)
  unfolding read_paths
  read_paths-under prefix [] = tt
  read_paths-under prefix (item ∷ items) = elim (Option-cases (json.get_string item)) [
    | inl e ↦ rw e tt
    | inr (path, e) ↦ rw e (elim (Bool-cases (begins_with (find path prefix))) [
      | inl y ↦ rw y (
          Returns-then (PathsUnder prefix) (PathsUnder prefix) (read_paths platform prefix items)
            (λ paths. returned (add_path platform path true paths)) (read_paths-under prefix items)
            (add_path-Under prefix path y))
      | inr n ↦ rw n tt
    ])
  ]

  read_rest-paths :
      (jbody : Value) (paths : List Bytes)
      → Returns (λ search_req. search_req.paths ≡ paths) (read_rest platform jbody paths)
  unfolding read_rest
  read_rest-paths jbody paths = ground arith

  abbrev paths_searched : SearchRequest → Files → List Bytes → SearchResult → Result SearchResult
  paths_searched =
      search_paths platform.engine platform.igzread platform.open_text platform.igzopen
        platform.timestamp_of

  abbrev one_searched :
      SearchRequest
      → Files
      → SearchResult
      → Bytes
      → Built (List (Searcher (platform.engine).Regex))
      → (SearchResult → Result SearchResult)
      → Result SearchResult
  one_searched =
      search_one platform.engine platform.igzread platform.open_text platform.igzopen
        platform.timestamp_of

  search_one-under :
      (req : SearchRequest) (prefix path : Bytes) (files : Files) (result : SearchResult)
      (b : Built (List (Searcher (platform.engine).Regex)))
      (next next' : SearchResult → Result SearchResult)
      → Under prefix path
      → ((r : SearchResult) → next r ≡ next' r)
      → one_searched req (under prefix files) result path b next
        ≡ one_searched req files result path b next'
  unfolding search_one search_path
  search_one-under req prefix path files result (built ss) next next' u h =
      rw (lookup-under prefix path files u) (h _)
  search_one-under req prefix path files result Built.refused next next' u h = refl
  search_one-under req prefix path files result (Built.thrown why) next next' u h = refl

  search_paths-under :
      (req : SearchRequest) (prefix : Bytes) (files : Files) (paths : List Bytes)
      (result : SearchResult)
      → All (Under prefix) paths
      → paths_searched req (under prefix files) paths result ≡ paths_searched req files paths result
  unfolding search_paths
  search_paths-under req prefix files [] result h = refl
  search_paths-under req prefix files (path ∷ paths) result h =
      search_one-under req prefix path files result (build_searchers platform.engine req.queries)
        (paths_searched req (under prefix files) paths) (paths_searched req files paths) h.0
        (λ r. search_paths-under req prefix files paths r h.1)

  search_request-under :
      (req : Request) (res : Response) (prefix : Bytes) (files : Files) (search_req : SearchRequest)
      → All (Under prefix) search_req.paths
      → search_request platform req res (under prefix files) search_req
        ≡ search_request platform req res files search_req
  unfolding search_request Run.search
  search_request-under req res prefix files search_req h =
      rw
        (search_paths-under search_req prefix files search_req.paths
          (record { matches = []; status = 0; error_msg = [] }) h)
        refl

  search_paths_of-under :
      (req : Request) (res : Response) (prefix : Bytes) (files : Files) (jbody : Value)
      (paths : Option (List Bytes))
      → PathsUnder prefix paths
      → Query.search_paths platform req res (under prefix files) jbody paths
        ≡ Query.search_paths platform req res files jbody paths
  unfolding Query.search_paths
  search_paths_of-under req res prefix files jbody none h = refl
  search_paths_of-under req res prefix files jbody (some paths) h =
      bind-ext (λ search_req. search_req.paths ≡ paths) (read_rest platform jbody paths)
        (search_request platform req res (under prefix files))
        (search_request platform req res files) (read_rest-paths jbody paths)
        (λ search_req e.
          search_request-under req res prefix files search_req
            (subst (All (Under prefix)) (sym e) h))

  search_body-under :
      (req : Request) (res : Response) (prefix : Bytes) (files : Files) (o : Option Value)
      → search_body platform req res (under prefix files) prefix o
        ≡ search_body platform req res files prefix o
  unfolding search_body
  search_body-under req res prefix files none = refl
  search_body-under req res prefix files (some jbody) =
      elim (Option-cases (json.subscript (codes "paths") jbody)) [
        | inl e ↦ rw e refl
        | inr (items, e) ↦ rw e (
            bind-ext (PathsUnder prefix) (read_paths platform prefix (json.elements items))
              (Query.search_paths platform req res (under prefix files) jbody)
              (Query.search_paths platform req res files jbody)
              (read_paths-under prefix (json.elements items))
              (search_paths_of-under req res prefix files jbody))
      ]

  -- A search is confined to its prefix: the answer is the same, whatever the request is, as if the
  -- agent knew no other file than those under the prefix of the request.
  pub search-under :
      (req : Request) (res : Response) (files : Files)
      → search platform req res
          (under (url_decode platform.junk (req.param (codes "prefix"))) files)
        ≡ search platform req res files
  unfolding search
  search-under req res files =
      let prefix = url_decode platform.junk (req.param (codes "prefix")) in
      rw
        (
          list_prefix-under platform.regex_match prefix files,
          search_body-under req res prefix files (json.parse req.body),
        )
        refl
