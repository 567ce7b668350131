-- ===== src/Searchers/Word.antt =====
-- src/agent/searchers/base_searcher.hpp and simple_searcher.hpp.
use drlog_search.Base.{
  ℕ, Bool, true, false, none, some, List, [], ◌∷◌, Bytes, if◌then◌else◌, ◌≡◌, ◌++◌, length,
}
use drlog_search.Text.{find}

pub record MatchedWord : Type 0 where
  pub word : Bytes
  pub pos : ℕ

-- A true word of the line: the text stands at the place that is told.
pub record StandsIn (line : Bytes) (m : MatchedWord) : Type 0 where
  pub before : Bytes
  pub after : Bytes
  pub splits : line ≡ before ++ (m.word ++ after)
  pub at_pos : length before ≡ m.pos

-- `simple_searcher::search_line`: the answer, and `matched` as it is left.
unfoldable pub search_simple : Bytes → Bytes → List MatchedWord → Bool → Bool × List MatchedWord
search_simple pattern line matched with_res = elim (find line pattern) [
  | none ↦ (false, matched)
  | some pos ↦ (true, if with_res then record { word = pattern; pos = pos } ∷ [] else matched)
]
