-- ===== src/Tests/Run.antt =====
-- The search of gzip files and of several paths (src/agent/searcher.cpp) on small inputs.
use drlog_search.Base.{
  All, inr, ℕ, ◌-◌, true, ◌&&◌, none, some, List, [], ◌∷◌, ◌++◌, Bytes, codes, leb, if◌then◌else◌,
  ◌≡◌, refl, ◌↔◌, arith, eqb_refl,
}
use drlog_search.Text.{find, starts_with}
use drlog_search.Util.Igzip.{ReadResult, read}
use drlog_search.Searchers.Word.{search_simple}
use drlog_search.Searchers.Boolean.Failure.{Failure, ok, throw}
use drlog_search.Search.Context.{
  RegexEngine, no_match, simple, Searcher, SearchContext, QueryString, SearchRequest, FileMatches,
  search_line,
}
use drlog_search.Search.Exec.{finds, simple-Calm, hits, line_matches}
use drlog_search.Search.Lines.{records, records_in_range}
use drlog_search.Search.Carry.{get_lines_gzip}
use drlog_search.Search.Gzip.{positioned, skip_loop, search_file_igzip, is_short}
use drlog_search.Search.Gzip.Reads.{Reads, at_end, next_chunk}
use drlog_search.Search.Gzip.Position.{Passes, arrived, chunk}
use drlog_search.Util.Split.{terminated}
use drlog_search.Search.Carry.Chunks.{LacksNewline}
use drlog_search.Search.Gzip.Whole.{search_file_igzip-records}
use drlog_search.Search.Run.{SearchResult, built, refused, thrown, build_searchers, search}
use drlog_search.Search.Run.Queries.{AreTrueOf, build_searchers_lem}
use drlog_search.Search.Run.Paths.{paths_of, search_lem}

-- A stream is the chunks that it has yet to give.
abbrev igzread : List Bytes → ReadResult × List Bytes
igzread [] = (read [], [])
igzread (c ∷ cs) = (read c, cs)

abbrev engine : RegexEngine
engine = record { Regex = Bytes; compile = λ p. some p; regex_search = λ p line. no_match }

abbrev first_digit : Bytes → ℕ
first_digit [] = 0
first_digit (c ∷ s) = if leb b'1' c && leb c b'9' then c - b'0' else 0

abbrev chunks : List Bytes
chunks = codes "1 err\n2 o" ∷ codes "k\n3 err\n" ∷ []

abbrev ctx : SearchContext engine.Regex
ctx = record {
  start_time = 2;
  end_time = 4;
  max_results = 10;
  index_start_pos = 6;
  index_end_pos = 12;
  searchers = simple (codes "err") ∷ [];
}

Passes-chunks : Passes igzread 6 0 chunks (codes "1 err\n2 o") (codes "k\n3 err\n" ∷ [])
Passes-chunks =
    chunk (codes "1 err\n2 o") [] (omega arith) refl (λ e. cc) (inr (omega arith))
      (arrived (omega arith))

Reads-chunks :
    Reads igzread 12 9
      (codes "2 o")
      (codes "k\n3 err\n" ∷ [])
      (codes "2 ok" ∷ codes "3 err" ∷ [])
      (codes "k\n3 err\n")
      []
unfolding get_lines_gzip
Reads-chunks =
    next_chunk (omega arith) refl (λ e. absurd (ground arith)) (omega arith) (at_end (omega arith))

search_file_igzip-records_example :
    (terminated b'\n' (codes "2 ok" ∷ codes "3 err" ∷ []) ++ [] ≡ codes "2 ok\n3 err\n")
    × All LacksNewline (codes "2 ok" ∷ codes "3 err" ∷ [])
    × ((search_file_igzip igzread engine first_digit ctx (some chunks)).matched_lines
        ≡ record { timestamp = 3; line = codes "3 err" } ∷ [])
    × ((search_file_igzip igzread engine first_digit ctx (some chunks)).status ≡ 0)
unfolding hits records_in_range records find starts_with finds line_matches search_simple
    search_line
search_file_igzip-records_example =
    search_file_igzip-records igzread engine first_digit ctx chunks (codes "k\n3 err\n" ∷ [])
      (codes "1 err\n2 o") (codes "k\n3 err\n") [] (codes "2 ok" ∷ codes "3 err" ∷ []) Passes-chunks
      Reads-chunks (λ e. absurd (ground arith)) refl (λ _. omega arith, (λ _. omega arith, tt))
      (
        simple-Calm engine (codes "err") (record { timestamp = 2; line = codes "2 ok" }),
        (simple-Calm engine (codes "err") (record { timestamp = 3; line = codes "3 err" }), tt),
      )
      (omega arith)

-- The bytes behind the start position are carried over.
skips_to_position :
    skip_loop igzread 6 6 0 chunks ≡ positioned 9 (codes "2 o") (codes "k\n3 err\n" ∷ [])
unfolding skip_loop is_short
skips_to_position = refl

abbrev queries : List QueryString
queries = record { query = codes "err"; type = codes "simple" } ∷ []

builds : build_searchers engine queries ≡ built (simple (codes "err") ∷ [])
unfolding build_searchers
builds = rw (eqb_refl (codes "simple"))

build_searchers_lem_example :
    (line_matches engine (simple (codes "err") ∷ []) (codes "3 err") ≡ some true)
    ↔ AreTrueOf engine (codes "3 err") queries
build_searchers_lem_example =
    build_searchers_lem engine queries (simple (codes "err") ∷ []) (codes "3 err") builds

abbrev request : SearchRequest
request = record {
  queries = queries;
  start_time = 2;
  end_time = 4;
  paths = codes "/l/a" ∷ codes "/l/b" ∷ [];
  max_results = 10;
}

abbrev nothing_yet : SearchResult
nothing_yet = record { matches = []; status = 0; error_msg = [] }

search_lem_example :
    ((ss : List (Searcher engine.Regex))
      → build_searchers engine queries ≡ built ss
      → (ms : List FileMatches) × (search engine igzread
            (λ _. none)
            (λ _. none)
            first_digit
            request
            []
            nothing_yet
          ≡ ok (record nothing_yet { matches = [] ++ ms }))
        × (paths_of engine igzread (λ _. none) (λ _. none) first_digit ms
            ≡ codes "/l/a" ∷ codes "/l/b" ∷ []))
    × (build_searchers engine queries ≡ refused
        → search engine igzread (λ _. none) (λ _. none) first_digit request [] nothing_yet
          ≡ ok (record nothing_yet {
            status = 1;
            error_msg = codes "Failed to build searchers patterns";
          }))
    × ((why : Failure)
        → build_searchers engine queries ≡ thrown why
        → search engine igzread (λ _. none) (λ _. none) first_digit request [] nothing_yet
          ≡ throw why)
search_lem_example =
    search_lem engine igzread (λ _. none) (λ _. none) first_digit request [] nothing_yet
      (λ e. absurd (ground arith)) (λ e. absurd (ground arith))
