-- ===== src/Searchers/Boolean/Parse/RoundTrip.antt =====
-- `parse_expr` reads back what `print` writes.
use drlog_search.Base.{
  true, List, [], ◌∷◌, ◌++◌, append-nil, append_assoc, ◌≡◌, refl, sym, ap, ◌∙◌, ◌≢◌,
}
use drlog_search.Searchers.Boolean.Failure.{ok}
use drlog_search.Searchers.Boolean.Token.{Token}
use drlog_search.Searchers.Boolean.{
  Node, Nodes, null, negation, conjunction, disjunction, nil, cons,
}
use drlog_search.Searchers.Boolean.Parse.{
  Operator, and, or, to_nodes, all_same, branch, combine, parse_tokens,
}
use drlog_search.Searchers.Boolean.Parse.Print.{
  IsExpression, IsSingle, IsSeveral, AreExpressions, operator_token, print, print_operand,
  print_nested, print_single, print_operands, print_tail,
}
use drlog_search.Searchers.Boolean.Parse.Total.{
  parse_tokens-word, parse_tokens-not_word, parse_tokens-and, parse_tokens-or, parse_tokens-rparen,
  parse_tokens-nil, parse_tokens-lparen, parse_tokens-not_lparen,
}

abbrev of_nodes : Nodes → List Node
of_nodes nil = []
of_nodes (cons c cs) = c ∷ of_nodes cs

to_nodes-of_nodes : (cs : Nodes) → to_nodes (of_nodes cs) ≡ cs
to_nodes-of_nodes nil = refl
to_nodes-of_nodes (cons c cs) = ap (cons c) (to_nodes-of_nodes cs)

-- One operator for each child.
abbrev ops_of : Operator → Nodes → List Operator
ops_of op nil = []
ops_of op (cons c cs) = op ∷ ops_of op cs

all_same-ops_of : (op : Operator) (cs : Nodes) → all_same op (ops_of op cs) ≡ true
unfolding all_same
all_same-ops_of op nil = refl
all_same-ops_of and (cons c cs) = all_same-ops_of and cs
all_same-ops_of or (cons c cs) = all_same-ops_of or cs

abbrev tree : Operator → Nodes → Node
tree and cs = conjunction cs
tree or cs = disjunction cs

branch-of_nodes : (op : Operator) (cs : Nodes) → branch op (of_nodes cs) ≡ tree op cs
branch-of_nodes and cs = ap conjunction (to_nodes-of_nodes cs)
branch-of_nodes or cs = ap disjunction (to_nodes-of_nodes cs)

combine-several :
    (op : Operator) (c : Node) (cs : Nodes)
    → cs ≢ nil
    → combine (c ∷ of_nodes cs) (ops_of op cs) ≡ ok (tree op (cons c cs))
unfolding combine
combine-several op c nil ne = absurd (ne refl)
combine-several op c (cons d cs) ne =
    rw (all_same-ops_of op cs) (ap ok (branch-of_nodes op (cons c (cons d cs))))

-- What the level has read when its operands are read.
abbrev LevelRead : Operator → Node → Nodes → List Token → Type 0
LevelRead op c cs ts =
    (rest : List Token)
    → parse_tokens (ts ++ rest) [] [] ≡ parse_tokens rest (c ∷ of_nodes cs) (ops_of op cs)

abbrev LevelOf : Operator → Nodes → Type 0
LevelOf op nil = Unit
LevelOf op (cons c cs) = LevelRead op c cs (print_operands op (cons c cs))

single-rparen :
    (n : Node) (rest : List Token)
    → parse_tokens (Token.rparen ∷ rest) (n ∷ []) [] ≡ ok (n, Token.rparen ∷ rest)
unfolding combine
single-rparen n rest = parse_tokens-rparen rest (n ∷ []) []

level-rparen :
    (op : Operator) (c : Node) (cs : Nodes) (ts rest : List Token)
    → cs ≢ nil
    → LevelRead op c cs ts
    → parse_tokens (ts ++ Token.rparen ∷ rest) [] [] ≡ ok (tree op (cons c cs), Token.rparen ∷ rest)
level-rparen op c cs ts rest ne h =
    h (Token.rparen ∷ rest) ∙ parse_tokens-rparen rest _ _ ∙ rw (combine-several op c cs ne)

-- A level in parentheses is one operand, and one behind NOT.
group_operand :
    (op : Operator) (cs : Nodes) (rest : List Token) (nodes : List Node) (ops : List Operator)
    → IsSeveral cs
    → LevelOf op cs
    → (parse_tokens (Token.lparen ∷ ((print_operands op cs ++ Token.rparen ∷ []) ++ rest)) nodes ops
        ≡ parse_tokens rest (nodes ++ tree op cs ∷ []) ops)
      × (parse_tokens
            (Token.negate ∷ Token.lparen ∷ ((print_operands op cs ++ Token.rparen ∷ []) ++ rest))
            nodes
            ops
          ≡ parse_tokens rest (nodes ++ negation (cons (tree op cs) nil) ∷ []) ops)
group_operand op nil rest nodes ops h l = absurd h
group_operand op (cons c cs) rest nodes ops h l =
    let read = level-rparen op c cs (print_operands op (cons c cs)) rest h.2 l in
    (
      rw append_assoc (parse_tokens-lparen _ rest _ nodes ops read),
      rw append_assoc (parse_tokens-not_lparen _ rest _ nodes ops read),
    )

operator_step :
    (op : Operator) (ts : List Token) (nodes : List Node) (ops : List Operator)
    → parse_tokens (operator_token op ∷ ts) nodes ops ≡ parse_tokens ts nodes (ops ++ op ∷ [])
operator_step and = parse_tokens-and
operator_step or = parse_tokens-or

mutual
  unfolding print print_operand print_nested print_single print_operands print_tail

  operand :
      (n : Node) (rest : List Token) (nodes : List Node) (ops : List Operator)
      → IsExpression n
      → parse_tokens (print_operand n ++ rest) nodes ops ≡ parse_tokens rest (nodes ++ n ∷ []) ops
  operand null rest nodes ops h = absurd h
  operand (Node.word w) rest nodes ops h = parse_tokens-word w rest nodes ops
  operand (negation cs) rest nodes ops h = single cs rest nodes ops h
  operand (conjunction cs) rest nodes ops h =
      (group_operand and cs rest nodes ops h (operands and cs h)).0
  operand (disjunction cs) rest nodes ops h =
      (group_operand or cs rest nodes ops h (operands or cs h)).0

  single :
      (cs : Nodes) (rest : List Token) (nodes : List Node) (ops : List Operator)
      → IsSingle cs
      → parse_tokens (Token.negate ∷ (print_single cs ++ rest)) nodes ops
        ≡ parse_tokens rest (nodes ++ negation cs ∷ []) ops
  single nil rest nodes ops h = absurd h
  single (cons c nil) rest nodes ops h = nested c rest nodes ops h
  single (cons c (cons d cs)) rest nodes ops h = absurd h

  nested :
      (n : Node) (rest : List Token) (nodes : List Node) (ops : List Operator)
      → IsExpression n
      → parse_tokens (Token.negate ∷ (print_nested n ++ rest)) nodes ops
        ≡ parse_tokens rest (nodes ++ negation (cons n nil) ∷ []) ops
  nested null rest nodes ops h = absurd h
  nested (Node.word w) rest nodes ops h = parse_tokens-not_word w rest nodes ops
  nested (negation cs) rest nodes ops h = rw append_assoc (
      parse_tokens-not_lparen _ rest (negation cs) nodes ops
        (single cs (Token.rparen ∷ rest) [] [] h ∙ single-rparen (negation cs) rest))
  nested (conjunction cs) rest nodes ops h =
      (group_operand and cs rest nodes ops h (operands and cs h)).1
  nested (disjunction cs) rest nodes ops h =
      (group_operand or cs rest nodes ops h (operands or cs h)).1

  operands : (op : Operator) (cs : Nodes) → IsSeveral cs → LevelOf op cs
  operands op nil h = tt
  operands op (cons c cs) h =
      λ rest. rw append_assoc (operand c _ [] [] h.0) ∙ tail op cs rest (c ∷ []) [] h.1

  tail :
      (op : Operator) (cs : Nodes) (rest : List Token) (nodes : List Node) (ops : List Operator)
      → AreExpressions cs
      → parse_tokens (print_tail op cs ++ rest) nodes ops
        ≡ parse_tokens rest (nodes ++ of_nodes cs) (ops ++ ops_of op cs)
  tail op nil rest nodes ops h = rw (append-nil nodes, append-nil ops)
  tail op (cons c cs) rest nodes ops h =
      operator_step op _ nodes ops
      ∙ rw append_assoc (
          operand c (print_tail op cs ++ rest) nodes (ops ++ op ∷ []) h.0
          ∙ tail op cs rest (nodes ++ c ∷ []) (ops ++ op ∷ []) h.1
          ∙ rw (append_assoc, append_assoc))

combine-single : (n : Node) → parse_tokens [] (n ∷ []) [] ≡ ok (n, [])
unfolding combine
combine-single n = parse_tokens-nil (n ∷ []) []

level-end :
    (op : Operator) (cs : Nodes)
    → IsSeveral cs
    → LevelOf op cs
    → parse_tokens (print_operands op cs) [] [] ≡ ok (tree op cs, [])
level-end op nil h l = absurd h
level-end op (cons c cs) h l =
    ap (λ ts. parse_tokens ts [] []) (sym (append-nil (print_operands op (cons c cs))))
    ∙ l []
    ∙ parse_tokens-nil _ _
    ∙ rw (combine-several op c cs h.2)

-- Whatever tree a query can express (words that are not empty, negations of one, conjunctions and
-- disjunctions of two or more), the parser reads it back from its tokens, to the last one.
pub parse_tokens-print : (n : Node) → IsExpression n → parse_tokens (print n) [] [] ≡ ok (n, [])
unfolding print
parse_tokens-print null h = absurd h
parse_tokens-print (Node.word w) h = parse_tokens-word w [] [] [] ∙ combine-single (Node.word w)
parse_tokens-print (negation cs) h =
    ap (λ ts. parse_tokens (Token.negate ∷ ts) [] []) (sym (append-nil (print_single cs)))
    ∙ single cs [] [] [] h
    ∙ combine-single (negation cs)
parse_tokens-print (conjunction cs) h = level-end and cs h (operands and cs h)
parse_tokens-print (disjunction cs) h = level-end or cs h (operands or cs h)
