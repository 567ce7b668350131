-- ===== src/Searchers/Boolean/Parse.antt =====
-- `parse_expr` of `boolean_searcher::build_pattern`. A position in `tokens` is the rest from there.
pub mod Total
pub mod Print
pub mod RoundTrip
pub mod Apart
use drlog_search.Base.{
  ℕ, zero, suc, ◌+◌, Bool, true, false, List, [], ◌∷◌, ◌++◌, if◌then◌else◌, length,
}
use drlog_search.Searchers.Boolean.Failure.{
  Result, ok, throw, ◌>>=◌, out_of_fuel, operand_missing, mismatch_after_not, mismatch,
  mixed_operators, Failure,
}
use drlog_search.Searchers.Boolean.Token.{Token}
use drlog_search.Searchers.Boolean.{
  Node, Nodes, null, negation, conjunction, disjunction, nil, cons,
}

-- The operators of one level, as the vector `ops` holds them.
pub data Operator : Type 0 where
  and or : Operator

abbrev pub to_nodes : List Node → Nodes
to_nodes [] = nil
to_nodes (n ∷ ns) = cons n (to_nodes ns)

-- `ops[i] == ops[0]` for every `i`.
unfoldable pub all_same : Operator → List Operator → Bool
all_same op [] = true
all_same and (and ∷ ops) = all_same and ops
all_same or (or ∷ ops) = all_same or ops
all_same _ _ = false

abbrev pub branch : Operator → List Node → Node
branch and ns = conjunction (to_nodes ns)
branch or ns = disjunction (to_nodes ns)

-- The end of `parse_expr`: the nodes and operators of a level become a tree.
unfoldable pub combine : List Node → List Operator → Result Node
unfolding all_same
combine [] ops = ok null
combine (n ∷ []) ops = ok n
combine (n ∷ m ∷ ns) [] = ok (branch and (n ∷ m ∷ ns))
combine (n ∷ m ∷ ns) (op ∷ ops) =
    if all_same op ops then ok (branch op (n ∷ m ∷ ns)) else throw mixed_operators

-- The test of `tokens[pos]` behind a parenthesised expression.
unfoldable pub skip_rparen : Failure → List Token → Result (List Token)
skip_rparen why (Token.rparen ∷ ts) = ok ts
skip_rparen why _ = throw why

abbrev pub Parsed : Type 0
Parsed = Result (Node × List Token)

-- The lambda `parse_expr`, with the vectors of its level, on fuel.
unfoldable pub parse_expr : ℕ → List Token → List Node → List Operator → Parsed
unfolding combine skip_rparen
parse_expr zero ts nodes ops = throw out_of_fuel
parse_expr (suc f) [] nodes ops = do n ← combine nodes ops; ok (n, [])
parse_expr (suc f) (Token.word w ∷ ts) nodes ops = parse_expr f ts (nodes ++ Node.word w ∷ []) ops
parse_expr (suc f) (Token.negate ∷ []) nodes ops = throw operand_missing
parse_expr (suc f) (Token.negate ∷ Token.word w ∷ ts) nodes ops =
    parse_expr f ts (nodes ++ negation (cons (Node.word w) nil) ∷ []) ops
parse_expr (suc f) (Token.negate ∷ Token.lparen ∷ ts) nodes ops = do
  (child, rest) ← parse_expr f ts [] []
  rest' ← skip_rparen mismatch_after_not rest
  parse_expr f rest' (nodes ++ negation (cons child nil) ∷ []) ops
parse_expr (suc f) (Token.negate ∷ Token.and ∷ ts) nodes ops = throw operand_missing
parse_expr (suc f) (Token.negate ∷ Token.or ∷ ts) nodes ops = throw operand_missing
parse_expr (suc f) (Token.negate ∷ Token.negate ∷ ts) nodes ops = throw operand_missing
parse_expr (suc f) (Token.negate ∷ Token.rparen ∷ ts) nodes ops = throw operand_missing
parse_expr (suc f) (Token.and ∷ ts) nodes ops = parse_expr f ts nodes (ops ++ and ∷ [])
parse_expr (suc f) (Token.or ∷ ts) nodes ops = parse_expr f ts nodes (ops ++ or ∷ [])
parse_expr (suc f) (Token.lparen ∷ ts) nodes ops = do
  (sub, rest) ← parse_expr f ts [] []
  rest' ← skip_rparen mismatch rest
  parse_expr f rest' (nodes ++ sub ∷ []) ops
parse_expr (suc f) (Token.rparen ∷ ts) nodes ops = do
  n ← combine nodes ops
  ok (n, Token.rparen ∷ ts)

-- The call on all the tokens: each call and round takes a token, so the fuel suffices.
unfoldable pub parse_tokens : List Token → List Node → List Operator → Parsed
unfolding parse_expr
parse_tokens ts nodes ops = parse_expr (length ts + 1) ts nodes ops
