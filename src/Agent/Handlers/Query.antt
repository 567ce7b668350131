-- ===== src/Agent/Handlers/Query.antt =====
-- `search` of src/agent/agent_handler.cpp.
use drlog_search.Base.{
  ℕ, Bool, true, false, not, ◌||◌, Option, none, some, List, [], ◌∷◌, ◌++◌, Bytes, codes, ◌==◌,
  if◌then◌else◌, is_empty, map, eqb,
}
use drlog_search.Text.{find}
use drlog_search.Util.Url.{url_decode}
use drlog_search.Searchers.Boolean.Failure.{Result, ok, throw}
use drlog_search.Http.{
  Outcome, called, returned, thrown, ◌>>=◌, is_post, Request, Response, caught, packed,
  const_subscript,
}
use drlog_search.Indexer.Files.{Files, list_prefix, begins_with}
use drlog_search.Search.Context.{LogLine, QueryString, SearchRequest, FileMatches}
use drlog_search.Search.Run
use drlog_search.Search.Run.{SearchResult}
use drlog_search.Agent.Utf8.{ensure_utf8}
use drlog_search.Agent.Handlers.{Platform, refused}

module _ (platform : Platform) where
  open platform use {json, zlib, junk, regex_match}
  open json use {Value}

  -- The loop over the paths; `none` is the return of a 400.
  unfoldable pub add_path : Bytes → Bool → Option (List Bytes) → Option (List Bytes)
  add_path path false later = none
  add_path path true none = none
  add_path path true (some paths) = some (path ∷ paths)

  unfoldable pub read_paths : Bytes → List Value → Outcome (Option (List Bytes))
  unfolding begins_with
  read_paths prefix [] = returned (some [])
  read_paths prefix (item ∷ items) = do
    path ← called (json.get_string item)
    let later = read_paths prefix items
    if begins_with (find path prefix)
        then (later >>= λ paths. returned (add_path path true paths))
        else returned none

  unfoldable pub read_query : Value → Outcome QueryString
  unfolding const_subscript
  read_query item = do
    query_value ← const_subscript json (codes "query") item
    query ← called (json.get_string query_value)
    type_value ← const_subscript json (codes "type") item
    type ← called (json.get_string type_value)
    returned (record { query = query; type = type })

  unfoldable pub read_queries : List Value → Outcome (List QueryString)
  unfolding read_query
  read_queries [] = returned []
  read_queries (item ∷ items) = do
    query ← read_query item
    queries ← read_queries items
    returned (query ∷ queries)

  unfoldable pub read_number : Bytes → Value → Outcome ℕ
  read_number key jbody = called (json.subscript key jbody) >>= λ v. called (json.get_uint64 v)

  -- 500 unless the request says otherwise.
  unfoldable pub read_max_results : Option Value → Outcome ℕ
  read_max_results none = returned 500
  read_max_results (some v) = called (json.get_uint64 v)

  -- The rest of the request, behind the paths.
  unfoldable pub read_rest : Value → List Bytes → Outcome SearchRequest
  unfolding read_queries read_number read_max_results
  read_rest jbody paths = do
    querys ← called (json.subscript (codes "querys") jbody)
    queries ← read_queries (json.elements querys)
    start_time ← read_number (codes "start_time") jbody
    end_time ← read_number (codes "end_time") jbody
    max_results ← read_max_results (json.member (codes "max_results") jbody)
    returned (record {
      queries = queries;
      start_time = start_time;
      end_time = end_time;
      paths = paths;
      max_results = max_results;
    })

  unfoldable pub line_item : LogLine → Value
  unfolding ensure_utf8
  line_item logline = json.object (
      (codes "line", json.string (ensure_utf8 logline.line))
      ∷ (codes "time", json.number logline.timestamp)
      ∷ [])

  abbrev pub last_line : LogLine → List LogLine → LogLine
  last_line l [] = l
  last_line l (m ∷ ls) = last_line m ls

  -- The record of a file with these lines; there is none for a file that failed or has no lines.
  unfoldable pub record_item : FileMatches → List LogLine → List Value
  unfolding line_item
  record_item fm [] = []
  record_item fm (front ∷ lines) =
      json.object (
        (codes "path", json.string fm.path)
        ∷ (codes "status", json.signed fm.status)
        ∷ (codes "error_msg", json.string fm.error_msg)
        ∷ (codes "lines", json.array (map line_item (front ∷ lines)))
        ∷ (codes "start_time", json.number front.timestamp)
        ∷ (codes "end_time", json.number (last_line front lines).timestamp)
        ∷ [])
      ∷ []

  unfoldable pub record_items : List FileMatches → List Value
  unfolding record_item
  record_items [] = []
  record_items (fm ∷ matches) =
      (if fm.status == 0 then record_item fm fm.lines else []) ++ record_items matches

  unfoldable pub results : SearchResult → Value
  unfolding record_items
  results result = json.object (
      (codes "status", json.signed result.status)
      ∷ (codes "error_msg", json.string result.error_msg)
      ∷ (codes "records", json.array (record_items result.matches))
      ∷ [])

  unfoldable pub respond : Request → Response → SearchResult → Outcome Response
  unfolding results packed
  respond req res result =
      if not (result.status == 0)
      then returned (refused res 500)
      else (called (json.dump_replace (results result)) >>= λ res_body_j.
          (let (body, content_encoding) = packed zlib res_body_j req.accept_encoding in
            returned (record res {
              body = body;
              content_encoding =
                  if eqb content_encoding (codes "gzip")
                  then content_encoding
                  else res.content_encoding;
              content_type = codes "application/json";
              is_prepared = true;
            })))

  unfoldable pub searched : Request → Response → Result SearchResult → Outcome Response
  unfolding respond
  searched req res (ok result) = respond req res result
  searched req res (throw why) = thrown

  unfoldable pub search_request : Request → Response → Files → SearchRequest → Outcome Response
  unfolding searched Run.search
  search_request req res files search_req =
      if is_empty search_req.paths || is_empty search_req.queries
      then returned (refused res 400)
      else searched req res (
          Run.search platform.engine platform.igzread platform.open_text platform.igzopen
            platform.timestamp_of search_req files
            (record { matches = []; status = 0; error_msg = [] }))

  unfoldable pub search_paths :
      Request → Response → Files → Value → Option (List Bytes) → Outcome Response
  unfolding search_request read_rest
  search_paths req res files jbody none = returned (refused res 400)
  search_paths req res files jbody (some paths) =
      read_rest jbody paths >>= λ search_req. search_request req res files search_req

  unfoldable pub search_body : Request → Response → Files → Bytes → Option Value → Outcome Response
  unfolding search_paths read_paths
  search_body req res files prefix none = returned (refused res 400)
  search_body req res files prefix (some jbody) = do
    items ← called (json.subscript (codes "paths") jbody)
    paths ← read_paths prefix (json.elements items)
    search_paths req res files jbody paths

  unfoldable pub search : Request → Response → Files → Option Response
  unfolding caught search_body list_prefix
  search req res files =
      let prefix = url_decode junk (req.param (codes "prefix")) in
      caught res (
        if not (is_post req.verb)
        then returned (refused res 405)
        else if is_empty prefix
        then returned (refused res 400)
        else if is_empty (list_prefix regex_match prefix files)
        then returned (refused res 404)
        else search_body req res files prefix (json.parse req.body))
