-- ===== src/Tests/Searchers.antt =====
-- The boolean searcher (src/agent/searchers/boolean_searcher.cpp) on small queries.
use drlog_search.Base.{ℕ, true, false, List, [], ◌∷◌, codes, ◌≡◌, refl, ◌≢◌, ◌↔◌, arith, All}
use drlog_search.Searchers.Word.{StandsIn}
use drlog_search.Searchers.Boolean.{Node, Nodes, nil, cons, search_boolean}
use drlog_search.Searchers.Boolean.Meaning.{Holds}
use drlog_search.Searchers.Boolean.Matching.{search_boolean_lem}
use drlog_search.Searchers.Boolean.Failure.{ok, throw, out_of_fuel}
use drlog_search.Text.{starts_with}
use drlog_search.Searchers.Boolean.Token.{Token, tokenize}
use drlog_search.Searchers.Boolean.Token.Total.{Tokenized, tokenize-Tokenized}
use drlog_search.Searchers.Boolean.Token.Render.{render, tokenize-render}
use drlog_search.Searchers.Boolean.Parse.{parse_tokens}
use drlog_search.Searchers.Boolean.Parse.Print.{print, IsExpression}
use drlog_search.Searchers.Boolean.Parse.RoundTrip.{parse_tokens-print}
use drlog_search.Searchers.Boolean.Build.{
  build_pattern, build_pattern_total, build_pattern-query, query,
}

-- a AND (b OR NOT c)
abbrev tree : Node
tree = Node.conjunction (
    cons (Node.word (codes "a")) (
      cons
        (Node.disjunction (
          cons (Node.word (codes "b"))
            (cons (Node.negation (cons (Node.word (codes "c")) nil)) nil)))
        nil))

tree-IsExpression : IsExpression tree
tree-IsExpression = (ne, ((ne, (ne, tt), λ e. cons_ne e), tt), λ e. cons_ne e)
  where
    ne : {c : ℕ} → c ∷ [] ≢ []
    ne e = absurd (ground arith)

    cons_ne : {c : Node} {cs : Nodes} → cons c cs ≢ nil
    cons_ne e = absurd (ground arith)

build_pattern-query_example : build_pattern (query tree) ≡ ok tree
build_pattern-query_example = build_pattern-query tree tree-IsExpression

parse_tokens-print_example : parse_tokens (print tree) [] [] ≡ ok (tree, [])
parse_tokens-print_example = parse_tokens-print tree tree-IsExpression

build_pattern_total_example : build_pattern (codes "(a AND b") ≢ throw out_of_fuel
build_pattern_total_example = build_pattern_total (codes "(a AND b")

tokenize-Tokenized_example : Tokenized (tokenize (codes "a AND (b)"))
tokenize-Tokenized_example = tokenize-Tokenized (codes "a AND (b)")

search_boolean_lem_example :
    (((search_boolean tree (codes "xaxb") [] true).0 ≡ true) ↔ Holds (codes "xaxb") tree)
    × (true ≡ true → All (StandsIn (codes "xaxb")) (search_boolean tree (codes "xaxb") [] true).1)
    × (true ≡ true
        → (search_boolean tree (codes "xaxb") [] true).0 ≡ false
        → (search_boolean tree (codes "xaxb") [] true).1 ≡ [])
    × (true ≡ false → (search_boolean tree (codes "xaxb") [] true).1 ≡ [])
search_boolean_lem_example = search_boolean_lem tree (codes "xaxb") [] true

abbrev tokens : List Token
tokens = Token.word (codes "a\"") ∷ Token.and ∷ Token.word (codes "AND") ∷ []

tokenize-render_example : tokenize (render tokens) ≡ ok tokens
tokenize-render_example = tokenize-render tokens (
  λ e. ground arith,
  λ e. absurd (ground arith),
  (λ _. refl, λ e. absurd (ground arith), (λ e. ground arith, λ e. absurd (ground arith), tt)),
)

tokenize_sample :
    tokenize (codes "(error OR 'disk \\'full')AND NOT time\\ out")
    ≡ ok (
        Token.lparen
        ∷ Token.word (codes "error")
        ∷ Token.or
        ∷ Token.word (codes "disk 'full")
        ∷ Token.rparen
        ∷ Token.and
        ∷ Token.negate
        ∷ Token.word (codes "time out")
        ∷ [])
unfolding tokenize starts_with
tokenize_sample = refl
