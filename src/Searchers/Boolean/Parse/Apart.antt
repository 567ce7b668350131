-- ===== src/Searchers/Boolean/Parse/Apart.antt =====
-- The tokens that `print` writes keep their words apart.
use drlog_search.Base.{
  Bool, true, false, List, [], ◌∷◌, ◌++◌, append-nil, append_assoc, Bytes, ◌≡◌, refl, ◌≢◌, arith,
}
use drlog_search.Searchers.Boolean.Token.{Token, is_word}
use drlog_search.Searchers.Boolean.Token.Total.{Alternates}
use drlog_search.Searchers.Boolean.{
  Node, Nodes, null, negation, conjunction, disjunction, nil, cons,
}
use drlog_search.Searchers.Boolean.Parse.{Operator, and, or}
use drlog_search.Searchers.Boolean.Parse.Print.{
  IsExpression, IsSingle, IsSeveral, AreExpressions, operator_token, print, print_operand,
  print_nested, print_single, print_operands, print_tail,
}

weaken : (ts : List Token) → Alternates true ts → Alternates false ts
weaken [] a = tt
weaken (t ∷ ts) a = (λ e. ground arith, a.1, a.2)

-- A token that is no word may stand before and behind anything.
loose :
    (t : Token) (prev : Bool) (ts : List Token)
    → is_word t ≡ false
    → Alternates false ts
    → Alternates prev (t ∷ ts)
loose (Token.word w) prev ts h a = absurd (ground arith)
loose Token.and prev ts h a = (λ _. refl, λ e. cc, a)
loose Token.or prev ts h a = (λ _. refl, λ e. cc, a)
loose Token.negate prev ts h a = (λ _. refl, λ e. cc, a)
loose Token.lparen prev ts h a = (λ _. refl, λ e. cc, a)
loose Token.rparen prev ts h a = (λ _. refl, λ e. cc, a)

a_word :
    (w : Bytes) (rest : List Token)
    → w ≢ []
    → Alternates true rest
    → Alternates false (Token.word w ∷ rest)
a_word w rest h a = (λ e. ground arith, λ e. h (ground arith), a)

operator_loose :
    (op : Operator) (prev : Bool) (ts : List Token)
    → Alternates false ts
    → Alternates prev (operator_token op ∷ ts)
operator_loose and prev ts a = loose Token.and prev ts refl a
operator_loose or prev ts a = loose Token.or prev ts refl a

mutual
  unfolding print_operand print_nested print_single print_operands print_tail

  operand :
      (n : Node) (rest : List Token)
      → IsExpression n
      → Alternates true rest
      → Alternates false (print_operand n ++ rest)
  operand null rest h a = absurd h
  operand (Node.word w) rest h a = a_word w rest h a
  operand (negation cs) rest h a = loose Token.negate false _ refl (single cs rest h a)
  operand (conjunction cs) rest h a = rw append_assoc (
      loose Token.lparen false _ refl (
        operands and cs (Token.rparen ∷ rest) h
          (loose Token.rparen true rest refl (weaken rest a))))
  operand (disjunction cs) rest h a = rw append_assoc (
      loose Token.lparen false _ refl (
        operands or cs (Token.rparen ∷ rest) h (loose Token.rparen true rest refl (weaken rest a))))

  nested :
      (n : Node) (rest : List Token)
      → IsExpression n
      → Alternates true rest
      → Alternates false (print_nested n ++ rest)
  nested null rest h a = absurd h
  nested (Node.word w) rest h a = a_word w rest h a
  nested (negation cs) rest h a = rw append_assoc (
      loose Token.lparen false (Token.negate ∷ (print_single cs ++ Token.rparen ∷ rest)) refl (
        loose Token.negate false _ refl
          (single cs (Token.rparen ∷ rest) h (loose Token.rparen true rest refl (weaken rest a)))))
  nested (conjunction cs) rest h a = rw append_assoc (
      loose Token.lparen false _ refl (
        operands and cs (Token.rparen ∷ rest) h
          (loose Token.rparen true rest refl (weaken rest a))))
  nested (disjunction cs) rest h a = rw append_assoc (
      loose Token.lparen false _ refl (
        operands or cs (Token.rparen ∷ rest) h (loose Token.rparen true rest refl (weaken rest a))))

  single :
      (cs : Nodes) (rest : List Token)
      → IsSingle cs
      → Alternates true rest
      → Alternates false (print_single cs ++ rest)
  single nil rest h a = absurd h
  single (cons c nil) rest h a = nested c rest h a
  single (cons c (cons d cs)) rest h a = absurd h

  operands :
      (op : Operator) (cs : Nodes) (rest : List Token)
      → IsSeveral cs
      → Alternates true rest
      → Alternates false (print_operands op cs ++ rest)
  operands op nil rest h a = absurd h
  operands op (cons c cs) rest h a = rw append_assoc (operand c _ h.0 (tail op cs rest h.1 a))

  tail :
      (op : Operator) (cs : Nodes) (rest : List Token)
      → AreExpressions cs
      → Alternates true rest
      → Alternates true (print_tail op cs ++ rest)
  tail op nil rest h a = a
  tail op (cons c cs) rest h a =
      rw append_assoc (operator_loose op true _ (operand c _ h.0 (tail op cs rest h.1 a)))

pub print-Alternates : (n : Node) → IsExpression n → Alternates false (print n)
unfolding print print_operand
print-Alternates null h = absurd h
print-Alternates (Node.word w) h = a_word w [] h tt
print-Alternates (negation cs) h =
    loose Token.negate false _ refl (rw append-nil at (single cs [] h tt))
print-Alternates (conjunction cs) h = rw append-nil at (operands and cs [] h tt)
print-Alternates (disjunction cs) h = rw append-nil at (operands or cs [] h tt)
