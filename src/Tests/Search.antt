-- ===== src/Tests/Search.antt =====
-- The search of a file (src/agent/searcher.cpp) on small texts.
use drlog_search.Base.{
  false, All, ℕ, ◌-◌, ◌≤◌, ◌&&◌, none, some, List, [], ◌∷◌, ◌++◌, Bytes, codes, leb, if◌then◌else◌,
  ◌≡◌, refl, ◌⊎◌, arith, length,
}
use drlog_search.Text.{find, cut_at, getline, starts_with}
use drlog_search.Indexer.Info.{TimeIndex}
use drlog_search.Searchers.Word.{search_simple}
use drlog_search.Search.Context.{
  RegexEngine, no_match, failure, groups, simple, regex, LogLine, SearchContext, started,
  search_line,
}
use drlog_search.Search.Exec.{exec_searchers, exec_loop, finds, simple-Calm, hits, line_matches}
use drlog_search.Search.Lines.{
  parse_line, parse_lines, flushed, records, records_in_range, parse_lines-records,
}
use drlog_search.Search.Window.{find_index_pos, Window}
use drlog_search.Search.Window.Bounds.{Covers}
use drlog_search.Search.Window.Spans.{Spans, find_index_pos-Spans}
use drlog_search.Search.Carry.{get_lines_gzip}
use drlog_search.Search.Carry.Chunks.{get_lines_gzip_chunks, get_lines_gzip_sound, LacksNewline}
use drlog_search.Util.Split.{terminated}
use drlog_search.Search.Txt.{search_file_txt}
use drlog_search.Search.Txt.Steps.{lines_read}
use drlog_search.Search.Txt.Whole.{search_file_txt-records}
use drlog_search.Search.Txt.Bounds.{search_file_txt-length}

-- An engine whose patterns are plain texts.
abbrev engine : RegexEngine
engine = record {
  Regex = Bytes;
  compile = λ p. some p;
  regex_search = λ p line. elim (find line p) [
    | none ↦ no_match
    | some i ↦ groups (record { word = p; pos = i } ∷ [])
  ];
}

-- A line begins with its timestamp, one digit.
abbrev first_digit : Bytes → ℕ
first_digit [] = 0
first_digit (c ∷ s) = if leb b'1' c && leb c b'9' then c - b'0' else 0

abbrev file : Bytes
file = codes "1 err\n2 ok\nmore\n3 err\n4 err\n5 ok\n"

abbrev ctx : SearchContext engine.Regex
ctx = record {
  start_time = 2;
  end_time = 4;
  max_results = 10;
  index_start_pos = 0;
  index_end_pos = 29;
  searchers = simple (codes "err") ∷ [];
}

abbrev at : ℕ → Bytes → LogLine
at t s = record { timestamp = t; line = s }

-- A search for a regular expression that becomes too complex is caught by the search of the file.
abbrev failing : RegexEngine
failing = record { Regex = Bytes; compile = λ p. some p; regex_search = λ p line. failure }

catches_failure :
    (search_file_txt failing first_digit
      (record {
        start_time = 2;
        end_time = 4;
        max_results = 10;
        index_start_pos = 0;
        index_end_pos = 29;
        searchers = regex (codes "e+") ∷ [];
      })
      (some file)).status
    ≡ 1
unfolding search_file_txt line_matches search_line cut_at getline parse_line flushed exec_searchers
catches_failure = refl

search_file_txt-records_example :
    ((search_file_txt engine first_digit ctx (some file)).matched_lines
      ≡ at 3 (codes "3 err") ∷ at 4 (codes "4 err") ∷ [])
    × ((search_file_txt engine first_digit ctx (some file)).status ≡ 0)
unfolding lines_read hits records_in_range records find starts_with cut_at getline finds
    line_matches search_simple search_line
search_file_txt-records_example =
    search_file_txt-records engine first_digit ctx file (λ e. cc) (omega arith) (omega arith) refl
      (
        λ _. omega arith,
        (
          λ _. omega arith,
          (λ n. absurd (n refl), (λ _. omega arith, (λ _. omega arith, (λ _. omega arith, tt)))),
        ),
      )
      (
        simple-Calm engine (codes "err") (at 2 (codes "2 ok\nmore")),
        (
          simple-Calm engine (codes "err") (at 3 (codes "3 err")),
          (simple-Calm engine (codes "err") (at 4 (codes "4 err")), tt),
        ),
      )
      (omega arith)

search_file_txt-length_example :
    length
      (search_file_txt engine first_digit
        (record ctx { max_results = 1 })
        (some file)).matched_lines
    ≤ 2
search_file_txt-length_example =
    search_file_txt-length engine first_digit (record ctx { max_results = 1 }) (some file)
      (omega arith)

parse_lines-records_example :
    flushed first_digit 2 4 (
      parse_lines first_digit 2 4 started
        (codes "1 a" ∷ codes "2 b" ∷ codes "c" ∷ codes "5 d" ∷ []))
    ≡ at 2 (codes "2 b\nc") ∷ []
unfolding records records_in_range
parse_lines-records_example =
    parse_lines-records first_digit 2 4 (codes "1 a" ∷ codes "2 b" ∷ codes "c" ∷ codes "5 d" ∷ [])
      refl (λ _. omega arith, (λ _. omega arith, (λ n. absurd (n refl), (λ _. omega arith, tt))))

abbrev two_hits : List LogLine
two_hits = at 1 (codes "err") ∷ at 2 (codes "ok") ∷ at 3 (codes "err") ∷ []

-- The run on what is left adds a line to a full list.
one_too_many :
    exec_loop engine 1 (simple (codes "err") ∷ []) two_hits (at 0 [] ∷ [])
    ≡ (false, at 0 [] ∷ at 1 (codes "err") ∷ [])
unfolding exec_loop find starts_with line_matches search_simple search_line
one_too_many = refl

abbrev index : List TimeIndex
index =
    record { timestamp = 1; offset = 0 }
    ∷ record { timestamp = 3; offset = 40 }
    ∷ record { timestamp = 5; offset = 90 }
    ∷ record { timestamp = 9; offset = 200 }
    ∷ []

find_index_pos-Spans_example :
    ((find_index_pos 4 6 index ≡ none) × ((k : ℕ) → ¬ Covers 4 6 index k))
    ⊎ ((w : Window) × (find_index_pos 4 6 index ≡ some w) × Spans 4 6 index w)
find_index_pos-Spans_example = find_index_pos-Spans 4 6 index

get_lines_gzip_chunks_example :
    get_lines_gzip (codes "a\nb" ++ codes "c\nd") []
    ≡ get_lines_gzip
        ((get_lines_gzip (codes "a\nb") []).0 ++ codes "c\nd")
        (get_lines_gzip (codes "a\nb") []).1
get_lines_gzip_chunks_example = get_lines_gzip_chunks (codes "a\nb") (codes "c\nd") []

-- The window of the middle two intervals.
finds_window :
    find_index_pos 4 6 index
    ≡ some (record {
      index_start_time = 3;
      index_start_pos = 40;
      index_end_time = 9;
      index_end_pos = 200;
    })
unfolding find_index_pos
finds_window = refl

get_lines_gzip_sound_example :
    (terminated b'\n' (get_lines_gzip (codes "a\nb") []).1 ++ (get_lines_gzip (codes "a\nb") []).0
      ≡ codes "a\nb")
    × LacksNewline (get_lines_gzip (codes "a\nb") []).0
    × All LacksNewline (get_lines_gzip (codes "a\nb") []).1
get_lines_gzip_sound_example = get_lines_gzip_sound (codes "a\nb")

cuts_two_lines : get_lines_gzip (codes "ab\n\ncd") [] ≡ (codes "cd", codes "ab" ∷ [] ∷ [])
unfolding get_lines_gzip
cuts_two_lines = refl
