-- ===== src/Searchers/Boolean/Parse/Print.antt =====
-- Writing a tree as tokens, and reading it back.
use drlog_search.Base.{List, [], ◌∷◌, ◌++◌, ◌≢◌}
use drlog_search.Searchers.Boolean.Token.{Token}
use drlog_search.Searchers.Boolean.{
  Node, Nodes, null, negation, conjunction, disjunction, nil, cons,
}
use drlog_search.Searchers.Boolean.Parse.{Operator, and, or}

-- The trees that a query can express: words that are not empty, negations of one expression, and
-- conjunctions and disjunctions of two expressions or more.
abbrev mutual
  pub IsExpression : Node → Type 0
  IsExpression null = ⊥
  IsExpression (Node.word w) = w ≢ []
  IsExpression (negation cs) = IsSingle cs
  IsExpression (conjunction cs) = IsSeveral cs
  IsExpression (disjunction cs) = IsSeveral cs

  pub IsSingle : Nodes → Type 0
  IsSingle nil = ⊥
  IsSingle (cons c nil) = IsExpression c
  IsSingle (cons c (cons d cs)) = ⊥

  pub IsSeveral : Nodes → Type 0
  IsSeveral nil = ⊥
  IsSeveral (cons c cs) = IsExpression c × AreExpressions cs × (cs ≢ nil)

  pub AreExpressions : Nodes → Type 0
  AreExpressions nil = Unit
  AreExpressions (cons c cs) = IsExpression c × AreExpressions cs

abbrev pub operator_token : Operator → Token
operator_token and = Token.and
operator_token or = Token.or

-- An operand of AND and OR stands bare if it is a word or a negation, and in parentheses otherwise;
-- the operand of NOT stands bare if it is a word.
unfoldable mutual
  pub print : Node → List Token
  print null = []
  print (Node.word w) = Token.word w ∷ []
  print (negation cs) = Token.negate ∷ print_single cs
  print (conjunction cs) = print_operands and cs
  print (disjunction cs) = print_operands or cs

  pub print_operand : Node → List Token
  print_operand null = []
  print_operand (Node.word w) = Token.word w ∷ []
  print_operand (negation cs) = Token.negate ∷ print_single cs
  print_operand (conjunction cs) = Token.lparen ∷ (print_operands and cs ++ Token.rparen ∷ [])
  print_operand (disjunction cs) = Token.lparen ∷ (print_operands or cs ++ Token.rparen ∷ [])

  pub print_nested : Node → List Token
  print_nested null = []
  print_nested (Node.word w) = Token.word w ∷ []
  print_nested (negation cs) = Token.lparen ∷ Token.negate ∷ (print_single cs ++ Token.rparen ∷ [])
  print_nested (conjunction cs) = Token.lparen ∷ (print_operands and cs ++ Token.rparen ∷ [])
  print_nested (disjunction cs) = Token.lparen ∷ (print_operands or cs ++ Token.rparen ∷ [])

  pub print_single : Nodes → List Token
  print_single nil = []
  print_single (cons c cs) = print_nested c

  pub print_operands : Operator → Nodes → List Token
  print_operands op nil = []
  print_operands op (cons c cs) = print_operand c ++ print_tail op cs

  pub print_tail : Operator → Nodes → List Token
  print_tail op nil = []
  print_tail op (cons c cs) = operator_token op ∷ (print_operand c ++ print_tail op cs)
