-- ===== src/Search/Context.antt =====
-- The records of src/agent/searcher.hpp, and the searchers behind their common interface
-- (base_searcher.hpp, regex_searcher.hpp).
use drlog_search.Base.{ℕ, Bool, true, false, Option, none, some, List, [], Bytes, if◌then◌else◌}
use drlog_search.Searchers.Word.{MatchedWord, search_simple}
use drlog_search.Searchers.Boolean.{Node, search_boolean}

-- What boost::regex_search gives: a boost::regex_error, another exception (std::runtime_error where
-- the search becomes too complex), no match, or the text and place of every group.
pub data RegexOutcome : Type 0 where
  regex_error failure no_match : RegexOutcome
  groups : List MatchedWord → RegexOutcome

-- Boost.Regex: compiled patterns, compilation (`none` is an exception) and search.
pub record RegexEngine : Type 1 where
  pub Regex : Type 0
  pub compile : Bytes → Option Regex
  pub regex_search : Regex → Bytes → RegexOutcome

-- A `base_searcher` with its pattern built.
pub data Searcher (Regex : Type 0) : Type 0 where
  simple : Bytes → Searcher Regex
  boolean : Node → Searcher Regex
  regex : Regex → Searcher Regex

pub record LogLine : Type 0 where
  pub timestamp : ℕ
  pub line : Bytes

pub record QueryString : Type 0 where
  pub query : Bytes
  pub type : Bytes

pub record SearchRequest : Type 0 where
  pub queries : List QueryString
  pub start_time : ℕ
  pub end_time : ℕ
  pub paths : List Bytes
  pub max_results : ℕ

-- `FileMatches`, with its message as the source spells it.
pub record FileMatches : Type 0 where
  pub path : Bytes
  pub lines : List LogLine
  pub status : ℕ
  pub error_msg : Bytes

-- The fields of `SearchContext` that change while a file is searched.
pub record Progress : Type 0 where
  pub tmp_line : LogLine
  pub log_lines : List LogLine
  pub matched_lines : List LogLine
  pub status : ℕ
  pub error_msg : Bytes

abbrev pub started : Progress
started = record {
  tmp_line = record { timestamp = 0; line = [] };
  log_lines = [];
  matched_lines = [];
  status = 0;
  error_msg = [];
}

-- The fields that `search` and `find_index_pos` set before.
pub record SearchContext (Regex : Type 0) : Type 0 where
  pub start_time : ℕ
  pub end_time : ℕ
  pub max_results : ℕ
  pub index_start_pos : ℕ
  pub index_end_pos : ℕ
  pub searchers : List (Searcher Regex)

-- `none` is the exception that is not caught.
unfoldable pub with_groups :
    List MatchedWord → Bool → RegexOutcome → Option (Bool × List MatchedWord)
with_groups matched with_res regex_error = some (false, matched)
with_groups matched with_res failure = none
with_groups matched with_res no_match = some (false, matched)
with_groups matched with_res (groups results) = some (true, if with_res then results else matched)

module _ (e : RegexEngine) where
  open e use {Regex, regex_search}

  -- `regex_searcher::search_line`.
  unfoldable pub search_regex :
      Regex → Bytes → List MatchedWord → Bool → Option (Bool × List MatchedWord)
  unfolding with_groups
  search_regex pattern line matched with_res =
      with_groups matched with_res (regex_search pattern line)

  -- The virtual `search_line`; `none` is an exception.
  unfoldable pub search_line :
      Searcher Regex → Bytes → List MatchedWord → Bool → Option (Bool × List MatchedWord)
  unfolding search_regex
  search_line (simple pattern) line matched with_res =
      some (search_simple pattern line matched with_res)
  search_line (boolean root) line matched with_res =
      some (search_boolean root line matched with_res)
  search_line (regex pattern) line matched with_res = search_regex pattern line matched with_res
