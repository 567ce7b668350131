-- ===== src/Tests/Exchange.antt =====
-- An agent and the gateway together on small inputs.
use drlog_search.Base.{ℕ, true, none, some, [], ◌∷◌, ◌++◌, Bytes, codes, ◌≡◌, refl, arith, map}
use drlog_search.Util.Igzip.{read}
use drlog_search.Util.Url.{url_decode}
use drlog_search.Http.{returned, ◌>>=◌, Response}
use drlog_search.Indexer.Info.{FileInfo, RootPath}
use drlog_search.Search.Context.{RegexEngine, no_match}
use drlog_search.Search.Run.{SearchResult}
use drlog_search.Gateway.Dispatch.{record_of}
use drlog_search.Gateway.Handlers.Query.{merge}
use drlog_search.Gateway.Listing.{replied_list}
use drlog_search.Agent.Handlers.{Platform, file_item, listed}
use drlog_search.Agent.Handlers.Query.{search, results, respond}
use drlog_search.Agent.Handlers.Confined.{under, search-under}
use drlog_search.Exchange.{transmitted}
use drlog_search.Exchange.Records.{agent_of, all_sent, respond-merge}
use drlog_search.Exchange.Items.{Fits, known_of}
use drlog_search.Exchange.Lists.{listed-known_of}
use drlog_search.Tests.Json.{texts, texts-laws}
use drlog_search.Tests.Util.{stored, stored-IsLossless}
use drlog_search.Tests.Dispatch.{host, request, response}

abbrev no_regex : RegexEngine
no_regex = record {
  Regex = Unit;
  compile = λ pattern. none;
  regex_search = λ pattern line. no_match;
}

abbrev platform : Platform
platform = record {
  json = texts;
  zlib = stored;
  junk = 0;
  regex_match = λ pattern text. some true;
  engine = no_regex;
  Stream = Unit;
  igzread = λ s. (read [], tt);
  open_text = λ path. none;
  igzopen = λ path. none;
  timestamp_of = λ line. 0;
}

abbrev pub root : RootPath
root = record {
  path = codes "/";
  prefix_pattern = codes ".*";
  path_pattern = [];
  filename_pattern = [];
  time_format_pattern = [];
  max_days = 30;
}

abbrev pub log_file : FileInfo
log_file = record {
  name = codes "x";
  dir = codes "/";
  fullpath = codes "/x";
  size = 3;
  mtime = 5;
  file_type = codes "text";
  etag = codes "ab";
  inode = 7;
  file_index = some (record {
    index_etag = codes "ab";
    last_index_time = 6;
    time_indexes = record { timestamp = 1; offset = 0 } ∷ record { timestamp = 9; offset = 3 } ∷ [];
  });
  root_path = root;
}

log_file-Fits : Fits log_file
log_file-Fits = record {
  size_fits = omega arith;
  mtime_fits = omega arith;
  first_fits = omega arith;
  last_fits = omega arith;
}

abbrev agent : Platform
agent = agent_of host platform

abbrev files_text : Bytes
files_text = texts.array (map (file_item agent) (log_file ∷ []))

listed-known_of_example :
    (r : Response) × (listed agent response (log_file ∷ []) ≡ returned r)
    × (replied_list texts (codes "1") (some (transmitted r))
        ≡ map (known_of (codes "1")) (log_file ∷ []))
listed-known_of_example =
    listed-known_of host platform texts-laws response log_file [] (codes "1") files_text
      (log_file-Fits, tt) refl refl refl

abbrev one_result : SearchResult
one_result = record {
  matches =
      record {
        path = codes "/x";
        lines = record { timestamp = 1; line = codes "a" } ∷ [];
        status = 0;
        error_msg = [];
      }
      ∷ record { path = codes "/y"; lines = []; status = 1; error_msg = codes "e" }
      ∷ [];
  status = 0;
  error_msg = [];
}

abbrev results_text : Bytes
results_text = results agent one_result

respond-merge_example :
    (r : Response) × (respond agent request response one_result ≡ returned r)
    × ((calls : ℕ) × (record_of stored calls (codes "1") (transmitted r)
          ≡ returned ((codes "1", results_text) ∷ [])))
    × (merge host ((codes "1", results_text) ∷ []) ≡ (
        merge host [] >>= λ later.
        returned (all_sent host platform texts-laws (codes "1") one_result.matches ++ later)))
unfolding results
respond-merge_example =
    respond-merge host platform texts-laws stored-IsLossless request response one_result (codes "1")
      results_text [] refl refl refl refl

search-under_example :
    search platform request response
      (under (url_decode 0 (codes "/")) ((codes "/x", log_file) ∷ (codes "y", log_file) ∷ []))
    ≡ search platform request response ((codes "/x", log_file) ∷ (codes "y", log_file) ∷ [])
search-under_example =
    search-under platform request response ((codes "/x", log_file) ∷ (codes "y", log_file) ∷ [])
