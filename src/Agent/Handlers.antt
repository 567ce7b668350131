-- ===== src/Agent/Handlers.antt =====
-- `list` of src/agent/agent_handler.cpp; `search` is in Query.
pub mod Query
pub mod Confined
use drlog_search.Base.{
  ℕ, ◌+◌, Bool, true, false, not, ◌||◌, ◌&&◌, Option, none, some, List, [], ◌∷◌, ◌++◌, Bytes, codes,
  ◌==◌, if◌then◌else◌, is_empty, map, eqb,
}
use drlog_search.Json.{Json}
use drlog_search.Table.{lookup}
use drlog_search.Text.{find}
use drlog_search.Util.Url.{url_decode}
use drlog_search.Util.Gzip.{Zlib}
use drlog_search.Util.Igzip.{ReadResult}
use drlog_search.Searchers.Boolean.Failure.{Failure, Result, ok, throw}
use drlog_search.Http.{
  Outcome, called, returned, thrown, stuck, ◌>>=◌, is_get, is_post, Request, Response, caught,
  packed, const_subscript,
}
use drlog_search.Indexer.Info.{TimeIndex, FileIndex, FileInfo}
use drlog_search.Indexer.Files.{Files, list_prefix, begins_with}
use drlog_search.Search.Context.{RegexEngine, LogLine, QueryString, SearchRequest, FileMatches}
use drlog_search.Search.Run
use drlog_search.Search.Run.{SearchResult}
use drlog_search.Agent.Utf8.{ensure_utf8}

-- What the handlers run on: the libraries, and the files of the host behind the search.
pub record Platform : Type 1 where
  pub json : Json
  pub zlib : Zlib
  pub junk : ℕ
  pub regex_match : Bytes → Bytes → Option Bool
  pub engine : RegexEngine
  pub Stream : Type 0
  pub igzread : Stream → ReadResult × Stream
  pub open_text : Bytes → Option Bytes
  pub igzopen : Bytes → Option Stream
  pub timestamp_of : Bytes → ℕ

-- The first and the last entry of an index, if it has any.
abbrev pub last_of : TimeIndex → List TimeIndex → TimeIndex
last_of t [] = t
last_of t (u ∷ ts) = last_of u ts

unfoldable pub ends_of : List TimeIndex → Option (TimeIndex × TimeIndex)
ends_of [] = none
ends_of (t ∷ ts) = some (t, last_of t ts)

unfoldable pub time_range : Option FileIndex → Option (TimeIndex × TimeIndex)
unfolding ends_of
time_range none = none
time_range (some index) = ends_of index.time_indexes

unfoldable pub hello : Response → Response
hello res = record res { body = codes "Hello!!!" }

abbrev pub refused : Response → ℕ → Response
refused res status = record res { result = status }

module _ (platform : Platform) where
  open platform use {json, zlib, junk, regex_match}
  open json use {Value}

  unfoldable pub range_entries : Option (TimeIndex × TimeIndex) → List (Bytes × Value)
  range_entries none = []
  range_entries (some (front, back)) =
      (codes "start_time", json.number front.timestamp)
      ∷ (codes "end_time", json.number back.timestamp)
      ∷ []

  unfoldable pub file_item : FileInfo → Value
  unfolding range_entries time_range
  file_item fi = json.object (
      (codes "path", json.string fi.fullpath)
        ∷ (codes "size", json.number fi.size)
        ∷ (codes "mtime", json.signed fi.mtime)
        ∷ (if is_empty fi.etag then [] else (codes "etag", json.string fi.etag) ∷ [])
      ++ range_entries (time_range fi.file_index))

  unfoldable pub listed : Response → List FileInfo → Outcome Response
  unfolding file_item
  listed res [] = returned (refused res 404)
  listed res (fi ∷ results) =
      called (json.dump (json.array (map file_item (fi ∷ results)))) >>= λ body.
      returned
        (record res { body = body; content_type = codes "application/json"; is_prepared = true })

  unfoldable pub list : Request → Response → Files → Option Response
  unfolding caught listed list_prefix
  list req res files =
      let prefix = url_decode junk (req.param (codes "prefix")) in
      caught res (
        if not (is_get req.verb)
        then returned (refused res 405)
        else if is_empty prefix
        then returned (refused res 400)
        else listed res (list_prefix regex_match prefix files))
