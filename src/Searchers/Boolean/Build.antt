-- ===== src/Searchers/Boolean/Build.antt =====
-- `boolean_searcher::build_pattern`: its result is the tree that `pattern_` holds behind it, and an
-- exception leaves `pattern_` null.
use drlog_search.Base.{List, [], ◌∷◌, Bytes, if◌then◌else◌, ◌≡◌, inl, inr, ◌≢◌, arith, is_empty}
use drlog_search.Searchers.Boolean.Failure.{
  Result, ok, throw, ◌>>=◌, extra_content, out_of_fuel, Result-cases,
}
use drlog_search.Searchers.Boolean.Token.{Token, trim, tokenize}
use drlog_search.Searchers.Boolean.Token.Total.{tokenize-Tokenized}
use drlog_search.Searchers.Boolean.Token.Render.{render, tokenize-render, trim-render}
use drlog_search.Searchers.Boolean.{Node}
use drlog_search.Searchers.Boolean.Parse.{parse_tokens}
use drlog_search.Searchers.Boolean.Parse.Total.{parse_tokens-Ends}
use drlog_search.Searchers.Boolean.Parse.Print.{IsExpression, print}
use drlog_search.Searchers.Boolean.Parse.RoundTrip.{parse_tokens-print}
use drlog_search.Searchers.Boolean.Parse.Apart.{print-Alternates}

-- `pos != tokens.size()` is the last test.
unfoldable pub build_tree : List Token → Result Node
build_tree tokens = do
  (root, rest) ← parse_tokens tokens [] []
  if is_empty rest then ok root else throw extra_content

unfoldable pub build_pattern : Bytes → Result Node
unfolding build_tree
build_pattern pattern = do tokens ← tokenize (trim pattern); build_tree tokens

build_tree_total : (tokens : List Token) → build_tree tokens ≢ throw out_of_fuel
unfolding build_tree
build_tree_total tokens e = elim (Result-cases (parse_tokens tokens [] [])) [
  | inl ((root, []), p) ↦ ground (arith, p, e)
  | inl ((root, _ ∷ _), p) ↦ ground (arith, p, e)
  | inr (why, p) ↦
      let k : why ≢ out_of_fuel = rw p at (parse_tokens-Ends tokens [] []) in
      k (ground (arith, p, e))
]

-- On every text the pattern is built or one of the program's exceptions is thrown: the tokenizer's
-- loop and the parser's recursion end.
pub build_pattern_total : (pattern : Bytes) → build_pattern pattern ≢ throw out_of_fuel
unfolding build_pattern
build_pattern_total pattern e = elim (Result-cases (tokenize (trim pattern))) [
  | inl (tokens, p) ↦ build_tree_total tokens (rw p at e)
  | inr (why, p) ↦
      let k : why ≢ out_of_fuel = rw p at (tokenize-Tokenized (trim pattern)) in
      k (ground (arith, p, e))
]

-- A query for a tree: its tokens, with words in double quotes.
abbrev pub query : Node → Bytes
query n = render (print n)

-- For every tree that a query can express (words that are not empty, negations of one, conjunctions
-- and disjunctions of two or more), `build_pattern` reads that tree from the query text that is
-- written for it, with its words in double quotes.
pub build_pattern-query : (n : Node) → IsExpression n → build_pattern (query n) ≡ ok n
unfolding build_pattern
build_pattern-query n h = rw (
  trim-render (print n),
  tokenize-render (print n) (print-Alternates n h),
  parse_tokens-print n h,
)
